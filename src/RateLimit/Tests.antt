-- ===== src/RateLimit/Tests.antt =====
-- The limiter at concrete inputs.
use dvk_claude.Common.{ℕ, ◌≤◌, ◌≡◌, refl, List, [], ◌∷◌, count, arith}
use dvk_claude.RateLimit.{Limiter, empty_limiter, acquired, waits, acquire_turn, acquisitions}
use dvk_claude.RateLimit.Window.{NonDecreasing, is_inside, acquisitions-bounded}
use dvk_claude.RateLimit.Waiting.{after_turns, acquire_turn-acquires}

-- Two acquisitions in 10 nanoseconds.
abbrev limiter : Limiter
limiter = record { rate_limit = 2; rate_window = 10; times = [] }

abbrev readings : List ℕ
readings = 5 ∷ 6 ∷ 7 ∷ 14 ∷ 15 ∷ 16 ∷ 16 ∷ []

granted_times : acquisitions readings limiter ≡ 5 ∷ 6 ∷ 15 ∷ 16 ∷ []
unfolding acquisitions
granted_times = refl

readings-NonDecreasing : NonDecreasing 0 readings
readings-NonDecreasing = (
  omega arith,
  (omega arith, (omega arith, (omega arith, (omega arith, (omega arith, (omega arith, tt)))))),
)

acquisitions-bounded_example : count (is_inside 6 10) (acquisitions readings limiter) ≤ 2
acquisitions-bounded_example = acquisitions-bounded 2 10 0 6 readings readings-NonDecreasing

told_to_wait : (acquire_turn 7 (after_turns (5 ∷ 6 ∷ []) (empty_limiter 2 10))).turn ≡ waits 8
unfolding acquire_turn after_turns
told_to_wait = refl

acquire_turn-acquires_example :
    (acquire_turn 18 (acquire_turn 7 (after_turns (5 ∷ 6 ∷ []) (empty_limiter 2 10))).limiter).turn
    ≡ acquired
acquire_turn-acquires_example =
    acquire_turn-acquires 2 10 (5 ∷ 6 ∷ []) 7 8 18 (omega arith) told_to_wait (omega arith)
