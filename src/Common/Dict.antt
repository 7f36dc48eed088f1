-- ===== src/Common/Dict.antt =====
-- Python's `dict` with texts as keys: an association list in the order of insertion.
use dvk_claude.Common.Tests.{if◌then◌else◌}
use dvk_claude.Common.Text.{◌==◌}
use Prim.Native.String.{String}
use mathlib.Core.Option.{Option, none, some}
use mathlib.Core.List.{List, [], ◌∷◌}

module _ {ℓ} {V : Type ℓ} where
  -- `d.get(k)`
  unfoldable pub lookup : String → List (String × V) → Option V
  lookup k [] = none
  lookup k ((j, v) ∷ d) = if j == k then some v else lookup k d

  -- `d[k] = v`: in place for a key that is there, and else at the end.
  unfoldable pub assign : String → V → List (String × V) → List (String × V)
  assign k v [] = (k, v) ∷ []
  assign k v ((j, w) ∷ d) = if j == k then (j, v) ∷ d else (j, w) ∷ assign k v d

  -- `d.pop(k, None)`
  unfoldable pub discard : String → List (String × V) → List (String × V)
  discard k [] = []
  discard k ((j, w) ∷ d) = if j == k then d else (j, w) ∷ discard k d
