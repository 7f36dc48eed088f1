-- ===== src/RateLimit/Window.antt =====
-- How many acquisitions a window holds.
use mathlib.Core.List.{append_assoc, append-nil}
use dvk_claude.Common.{
  ℕ, ◌+◌, ◌≤◌, ◌<◌, ◌≡◌, refl, sym, ap, ◌∙◌, subst, Bool, ◌&&◌, List, [], ◌∷◌, ◌++◌, inl, inr, ltb,
  leb, length, count, arith, Bool-cases, on_branches,
}
use dvk_claude.Common.All.{All, All-mono, All-append}
use dvk_claude.RateLimit.{Limiter, prune, Turned, acquire_turn, granted, acquisitions}

-- The clock does not go back.
abbrev pub NonDecreasing : ℕ → List ℕ → Type 0
NonDecreasing clock [] = Unit {0}
NonDecreasing clock (now ∷ nows) = (clock ≤ now) × NonDecreasing now nows

-- The half-open window from `start`.
abbrev pub is_inside : ℕ → ℕ → ℕ → Bool
is_inside start rate_window t = leb start t && ltb t (start + rate_window)

count-append : (p : ℕ → Bool) (xs ys : List ℕ) → count p (xs ++ ys) ≡ count p xs + count p ys
unfolding count
count-append p [] ys = omega arith
count-append p (x ∷ xs) ys = ground (arith, count-append p xs ys)

count_at_most : (p : ℕ → Bool) (xs : List ℕ) → count p xs ≤ length xs
unfolding count
count_at_most p [] = omega arith
count_at_most p (x ∷ xs) = ground (arith, count_at_most p xs)

-- An acquisition that is behind the window at `now`.
abbrev Behind : ℕ → ℕ → ℕ → Type 0
Behind rate_window now t = t + rate_window ≤ now

count-Behind :
    (start rate_window now : ℕ) (xs : List ℕ)
    → now < start + rate_window
    → All (Behind rate_window now) xs
    → count (is_inside start rate_window) xs ≡ 0
unfolding count
count-Behind start w now [] h a = refl
count-Behind start w now (x ∷ xs) h a = ground (arith, h, a.0, count-Behind start w now xs h a.1)

-- The acquisitions so far: those that were dropped, which are behind the window, and those that the
-- limiter keeps.
record Logged (l : Limiter) (clock : ℕ) (log : List ℕ) : Type 0 where
  dropped : List ℕ
  split : log ≡ dropped ++ l.times
  behind : All (Behind l.rate_window clock) dropped

record Pruned (rate_window now : ℕ) (ts kept : List ℕ) : Type 0 where
  front : List ℕ
  split : ts ≡ front ++ kept
  behind : All (Behind rate_window now) front

prune-Pruned : (w now : ℕ) (ts : List ℕ) → Pruned w now ts (prune w now ts)
prune-Pruned w now [] = record { front = []; split = refl; behind = tt }
prune-Pruned w now (t ∷ ts) =
    let rest = prune-Pruned w now ts in
    elim (Bool-cases (leb (t + w) now)) [
      | inl e ↦ rw e (record {
        front = t ∷ rest.front;
        split = ap (λ xs. t ∷ xs) rest.split;
        behind = (ground (arith, e), rest.behind);
      })
      | inr e ↦ rw e (record { front = []; split = refl; behind = tt })
    ]

pruned-Logged :
    (l : Limiter) (clock now : ℕ) (log : List ℕ)
    → clock ≤ now
    → Logged l clock log
    → Logged (record l { times = prune l.rate_window now l.times }) now log
pruned-Logged l clock now log h g =
    let p = prune-Pruned l.rate_window now l.times in
    record {
      dropped = g.dropped ++ p.front;
      split =
          g.split
          ∙ ap (λ ts. g.dropped ++ ts) p.split
          ∙ sym (append_assoc g.dropped p.front (prune l.rate_window now l.times));
      behind =
          All-append _ g.dropped p.front
            (All-mono _ _ g.dropped (λ t b. omega (arith, b, h)) g.behind) p.behind;
    }

acquired-Logged :
    (l : Limiter) (now : ℕ) (log : List ℕ)
    → Logged l now log
    → Logged (record l { times = l.times ++ now ∷ [] }) now (log ++ now ∷ [])
acquired-Logged l now log g = record {
  dropped = g.dropped;
  split = ap (λ xs. xs ++ now ∷ []) g.split ∙ append_assoc g.dropped l.times (now ∷ []);
  behind = g.behind;
}

abbrev Within : Limiter → List ℕ → Type 0
Within l log = (start : ℕ) → count (is_inside start l.rate_window) log ≤ l.rate_limit

kept-count :
    (l : Limiter) (now start : ℕ) (log : List ℕ)
    → now < start + l.rate_window
    → Logged l now log
    → count (is_inside start l.rate_window) log ≤ length l.times
kept-count l now start log h g =
    subst (λ xs. count (is_inside start l.rate_window) xs ≤ length l.times) (sym g.split)
      (omega (
        arith,
        count-append (is_inside start l.rate_window) g.dropped l.times,
        count-Behind start l.rate_window now g.dropped h g.behind,
        count_at_most (is_inside start l.rate_window) l.times,
      ))

acquired-Within :
    (l : Limiter) (now : ℕ) (log : List ℕ)
    → Logged l now log
    → length l.times < l.rate_limit
    → Within l log
    → Within l (log ++ now ∷ [])
unfolding count
acquired-Within l now log g room within start =
    elim (Bool-cases (is_inside start l.rate_window now)) [
      | inl e ↦
          let kept = kept-count l now start log (ground (arith, e)) g in
          rw (count-append (is_inside start l.rate_window) log (now ∷ []), e)
            (omega (arith, kept, room))
      | inr e ↦
          rw (count-append (is_inside start l.rate_window) log (now ∷ []), e)
            (omega (arith, within start))
    ]

turn-Within :
    (nows : List ℕ) (now clock : ℕ) (l : Limiter) (log : List ℕ)
    → clock ≤ now
    → ((next : Limiter) (more : List ℕ)
        → next.rate_window ≡ l.rate_window
        → next.rate_limit ≡ l.rate_limit
        → Logged next now more
        → Within next more
        → Within next (more ++ acquisitions nows next))
    → Logged l clock log
    → Within l log
    → Within l (log ++ acquisitions (now ∷ nows) l)
unfolding acquisitions acquire_turn
turn-Within nows now clock l log h again g within =
    let kept = record l { times = prune l.rate_window now l.times } in
    let logged = pruned-Logged l clock now log h g in
    on_branches
      (λ (turned : Turned).
        Within l (log ++ (granted now turned.turn ++ acquisitions nows turned.limiter)))
      (ltb (length (prune l.rate_window now l.times)) l.rate_limit) _ _
      (λ room. subst (Within l) (append_assoc log (now ∷ []) _) (
        again _ (log ++ now ∷ []) refl refl (acquired-Logged kept now log logged)
          (acquired-Within kept now log logged (ground (arith, room)) within)))
      (λ full. again kept log refl refl logged within)

acquisitions-Within :
    (nows : List ℕ) (clock : ℕ) (l : Limiter) (log : List ℕ)
    → NonDecreasing clock nows
    → Logged l clock log
    → Within l log
    → Within l (log ++ acquisitions nows l)
unfolding acquisitions
acquisitions-Within [] clock l log n g within = subst (Within l) (sym (append-nil log)) within
acquisitions-Within (now ∷ nows) clock l log n g within =
    turn-Within nows now clock l log n.0
      (λ next more _ _ g' w. acquisitions-Within nows now next more n.1 g' w) g within

-- A new limiter grants, in whatever turns of whatever callers, `rate_limit` acquisitions at most in a
-- half-open interval of the length `rate_window`, as long as the clock does not go back.
pub acquisitions-bounded :
    (rate_limit rate_window clock start : ℕ) (nows : List ℕ)
    → NonDecreasing clock nows
    → count (is_inside start rate_window) (
        acquisitions nows
          (record { rate_limit = rate_limit; rate_window = rate_window; times = [] }))
      ≤ rate_limit
unfolding count
acquisitions-bounded rate_limit rate_window clock start nows n =
    acquisitions-Within nows clock
      (record { rate_limit = rate_limit; rate_window = rate_window; times = [] }) [] n
      (record { dropped = []; split = refl; behind = tt }) (λ s. omega arith) start
