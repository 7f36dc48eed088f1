-- ===== src/RateLimit.antt =====
-- proxy/core/rate_limit.py: the limiter of a strict sliding window. Readings of the monotonic clock and
-- the window are whole numbers of nanoseconds: the code has floats, whose rounding at the edge of the
-- window is left out. The lock makes each turn of the loop of `acquire` one step, so
-- a history is the list of the readings of its turns, of whatever callers.
pub mod Window
pub mod Waiting
pub mod Tests
use dvk_claude.Common.{
  ℕ, ◌+◌, ◌-◌, Bool, true, false, ◌||◌, ◌=?◌, Option, none, some, List, [], ◌∷◌, ◌++◌, ltb, leb,
  length, if◌then◌else◌,
}
use dvk_claude.Result.{Result, ok, err, value_error}

pub record Limiter : Type 0 where
  pub rate_limit : ℕ
  pub rate_window : ℕ
  pub times : List ℕ

abbrev pub empty_limiter : ℕ → ℕ → Limiter
empty_limiter rate_limit rate_window = record {
  rate_limit = rate_limit;
  rate_window = rate_window;
  times = [];
}

-- `__init__`, for numbers that are not negative.
abbrev pub new_limiter : ℕ → ℕ → Result Limiter
new_limiter rate_limit rate_window =
    if rate_limit =? 0
    then err (value_error "rate_limit must be > 0")
    else if rate_window =? 0
    then err (value_error "rate_window must be > 0")
    else ok (empty_limiter rate_limit rate_window)

-- The acquisitions that are behind the window are dropped from the front.
abbrev pub prune : ℕ → ℕ → List ℕ → List ℕ
prune rate_window now [] = []
prune rate_window now (t ∷ ts) =
    let rest = prune rate_window now ts in if leb (t + rate_window) now then rest else t ∷ ts

-- How a turn ends: with an acquisition, or with a time to wait.
pub data Turn : Type 0 where
  acquired : Turn
  waits : ℕ → Turn

pub record Turned : Type 0 where
  pub turn : Turn
  pub limiter : Limiter

-- The time until the oldest acquisition is behind the window.
abbrev pub wait_time : ℕ → ℕ → List ℕ → ℕ
wait_time rate_window now [] = 0
wait_time rate_window now (oldest ∷ ts) = oldest + rate_window - now

-- A turn of the loop of `acquire`.
unfoldable pub acquire_turn : ℕ → Limiter → Turned
acquire_turn now l =
    let times = prune l.rate_window now l.times in
    if ltb (length times) l.rate_limit
    then record { turn = acquired; limiter = record l { times = times ++ now ∷ [] } }
    else record {
      turn = waits (wait_time l.rate_window now times);
      limiter = record l { times = times };
    }

abbrev pub granted : ℕ → Turn → List ℕ
granted now acquired = now ∷ []
granted now (waits d) = []

-- The times of the acquisitions in a history.
unfoldable pub acquisitions : List ℕ → Limiter → List ℕ
unfolding acquire_turn
acquisitions [] l = []
acquisitions (now ∷ nows) l =
    let turned = acquire_turn now l in granted now turned.turn ++ acquisitions nows turned.limiter
