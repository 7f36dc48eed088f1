-- ===== src/RateLimit/Waiting.antt =====
-- A caller that waits as long as it is told.
use dvk_claude.Common.{
  ℕ, ◌+◌, ◌≤◌, ◌<◌, ◌≡◌, refl, sym, subst, List, [], ◌∷◌, ◌++◌, inl, inr, ltb, length, arith,
  Bool-cases, on_branches,
}
use dvk_claude.RateLimit.{
  Limiter, empty_limiter, prune, acquired, waits, Turned, wait_time, acquire_turn,
}

prune_at_most : (w now : ℕ) (ts : List ℕ) → length (prune w now ts) ≤ length ts
prune_at_most w now [] = omega arith
prune_at_most w now (t ∷ ts) = ground (arith, prune_at_most w now ts)

-- The oldest acquisition is behind the window when its time has come, and stays behind it.
oldest_dropped :
    (w now later limit : ℕ) (ps : List ℕ)
    → 0 < limit
    → length ps ≤ limit
    → now + wait_time w now ps ≤ later
    → length (prune w later ps) < limit
oldest_dropped w now later limit [] h k m = omega (arith, h)
oldest_dropped w now later limit (oldest ∷ ts) h k m =
    ground (arith, h, k, m, prune_at_most w later ts)

acquire-room :
    (now : ℕ) (l : Limiter)
    → length (prune l.rate_window now l.times) < l.rate_limit
    → (acquire_turn now l).turn ≡ acquired
unfolding acquire_turn
acquire-room now l h =
    elim (Bool-cases (ltb (length (prune l.rate_window now l.times)) l.rate_limit)) [
      | inl e ↦ rw e refl
      | inr e ↦ absurd (ground (arith, h, e))
    ]

-- What a turn that must wait leaves.
abbrev Told : ℕ → ℕ → Limiter → Turned → Type 0
Told now d l turned =
    turned.turn ≡ waits d
    → (d ≡ wait_time l.rate_window now (prune l.rate_window now l.times))
      × (turned.limiter ≡ record l { times = prune l.rate_window now l.times })

acquire_turn-Told : (now d : ℕ) (l : Limiter) → Told now d l (acquire_turn now l)
unfolding acquire_turn
acquire_turn-Told now d l =
    on_branches (Told now d l) (ltb (length (prune l.rate_window now l.times)) l.rate_limit) _ _
      (λ room h. absurd cc) (λ full h. (cc, refl))

-- A limiter of this window that holds no more acquisitions than it allows.
abbrev Holds : ℕ → ℕ → Limiter → Type 0
Holds rate_limit rate_window l =
    (l.rate_limit ≡ rate_limit) × (l.rate_window ≡ rate_window) × (length l.times ≤ rate_limit)

length-snoc : (ts : List ℕ) (t : ℕ) → length (ts ++ t ∷ []) ≡ length ts + 1
length-snoc [] t = refl
length-snoc (u ∷ ts) t = omega (arith, length-snoc ts t)

acquire_turn-Holds :
    (rate_limit rate_window now : ℕ) (l : Limiter)
    → Holds rate_limit rate_window l
    → Holds rate_limit rate_window (acquire_turn now l).limiter
unfolding acquire_turn
acquire_turn-Holds rate_limit rate_window now l (n, w, few) =
    let ps = prune l.rate_window now l.times in
    on_branches (λ (t : Turned). Holds rate_limit rate_window t.limiter)
      (ltb (length ps) l.rate_limit) _ _
      (λ room. (n, w, ground (arith, room, n, length-snoc ps now)))
      (λ full. (n, w, omega (arith, few, prune_at_most l.rate_window now l.times)))

-- The limiter after turns at these readings.
unfoldable pub after_turns : List ℕ → Limiter → Limiter
unfolding acquire_turn
after_turns [] l = l
after_turns (now ∷ nows) l = after_turns nows (acquire_turn now l).limiter

after_turns-Holds :
    (rate_limit rate_window : ℕ) (nows : List ℕ) (l : Limiter)
    → Holds rate_limit rate_window l
    → Holds rate_limit rate_window (after_turns nows l)
unfolding after_turns
after_turns-Holds rate_limit rate_window [] l h = h
after_turns-Holds rate_limit rate_window (now ∷ nows) l h =
    after_turns-Holds rate_limit rate_window nows (acquire_turn now l).limiter
      (acquire_turn-Holds rate_limit rate_window now l h)

told_acquires :
    (rate_limit rate_window : ℕ) (l : Limiter) (now d later : ℕ)
    → 0 < rate_limit
    → Holds rate_limit rate_window l
    → (acquire_turn now l).turn ≡ waits d
    → now + d ≤ later
    → (acquire_turn later (acquire_turn now l).limiter).turn ≡ acquired
told_acquires rate_limit rate_window l now d later some_room (n, w, few) h m =
    let (told, kept) = acquire_turn-Told now d l h in
    let ps = prune l.rate_window now l.times in
    let room =
      oldest_dropped l.rate_window now later l.rate_limit ps (omega (arith, some_room, n))
        (omega (arith, few, n, prune_at_most l.rate_window now l.times)) (omega (arith, told, m)) in
    subst (λ next. (acquire_turn later next).turn ≡ acquired) (sym kept)
      (acquire-room later (record l { times = ps }) room)

-- Whatever turns a new limiter that allows an acquisition has had: when its next turn is told to wait,
-- the turn that follows acquires, if it comes when that time has passed or at any reading after it.
pub acquire_turn-acquires :
    (rate_limit rate_window : ℕ) (nows : List ℕ) (now d later : ℕ)
    → 0 < rate_limit
    → (acquire_turn now (after_turns nows (empty_limiter rate_limit rate_window))).turn ≡ waits d
    → now + d ≤ later
    → (acquire_turn later
        (acquire_turn now (after_turns nows (empty_limiter rate_limit rate_window))).limiter).turn
      ≡ acquired
acquire_turn-acquires rate_limit rate_window nows now d later some_room h m =
    told_acquires rate_limit rate_window (after_turns nows (empty_limiter rate_limit rate_window))
      now d later some_room
      (after_turns-Holds rate_limit rate_window nows (empty_limiter rate_limit rate_window)
        (refl, refl, omega arith))
      h m
