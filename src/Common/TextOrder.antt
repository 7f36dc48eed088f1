-- ===== src/Common/TextOrder.antt =====
-- The order of texts by code points is asymmetric and transitive.
use Prim.Native.Nat.{Ordering}
use Prim.Native.Char.{Char, code}
use Prim.Native.String.{String, compare, then}
use Prim.Native.String.compare
use mathlib.Core.Path.{◌≡◌, refl, ◌∙◌, ap}
use mathlib.Core.Bool.{Bool, true, false, ◌&&◌, ◌||◌}
use native.Mathlib.Omega.{arith}
use dvk_claude.Common.Tests.{ltb, ◌=?◌}
use dvk_claude.Common.Text.{text_lt}

abbrev is_less : Ordering → Bool
is_less Ordering.lt = true
is_less o = false

abbrev is_same : Ordering → Bool
is_same Ordering.eq = true
is_same o = false

is_less-then : (o r : Ordering) → is_less (then o r) ≡ (is_less o || (is_same o && is_less r))
is_less-then Ordering.lt r = refl
is_less-then Ordering.eq r = refl
is_less-then Ordering.gt r = refl

text_lt-cons :
    (c d : Char) (s t : String)
    → text_lt (String.◌∷◌ c s) (String.◌∷◌ d t)
      ≡ (ltb (code c) (code d) || (code c =? code d && text_lt s t))
text_lt-cons c d s t =
    ap is_less (compare.cons-cons c d s t)
    ∙ is_less-then (Prim.Native.Nat.compare (code c) (code d)) (compare s t)

-- Nothing precedes the empty text, and it precedes every other.
text_lt_empty : (s : String) → text_lt s "" ≡ false
text_lt_empty String.[] = refl
text_lt_empty (String.◌∷◌ c s) = ap is_less (compare.cons-nil c s)

empty_text_lt : (c : Char) (s : String) → text_lt "" (String.◌∷◌ c s) ≡ true
empty_text_lt c s = ap is_less (compare.nil-cons c s)

pub text_lt-asym : (s t : String) → text_lt s t ≡ true → text_lt t s ≡ false
text_lt-asym String.[] t h = text_lt_empty t
text_lt-asym (String.◌∷◌ c s) String.[] h = absurd (ground (arith, text_lt_empty (String.◌∷◌ c s)))
text_lt-asym (String.◌∷◌ c s) (String.◌∷◌ d t) h =
    ground (arith, text_lt-cons c d s t, text_lt-cons d c t s, text_lt-asym s t)

pub text_lt_trans : (s t u : String) → text_lt s t ≡ true → text_lt t u ≡ true → text_lt s u ≡ true
text_lt_trans s t String.[] h k = absurd (ground (arith, text_lt_empty t))
text_lt_trans s String.[] (String.◌∷◌ e u) h k = absurd (ground (arith, text_lt_empty s))
text_lt_trans String.[] (String.◌∷◌ d t) (String.◌∷◌ e u) h k = empty_text_lt e u
text_lt_trans (String.◌∷◌ c s) (String.◌∷◌ d t) (String.◌∷◌ e u) h k =
    ground
      (arith, text_lt-cons c d s t, text_lt-cons d e t u, text_lt-cons c e s u, text_lt_trans s t u)
