-- ===== src/Artifacts/Inside.antt =====
-- Where an accepted path of artifacts.py leads, by walking it from the root of the artifacts.
use dvk_claude.Common.{
  String, ◌≡◌, refl, false, ◌||◌, Option, none, some, List, [], ◌∷◌, ◌==◌, arith, member, split,
  any, starts_with, if◌then◌else◌,
}
use dvk_claude.Result.{ok, >>=-eq-ok, raise_if-eq-ok}
use dvk_claude.Json.{Value, string}
use dvk_claude.Artifacts.{check_path, validate_path, has_drive, has_code}

-- The directories passed, the last one first, after following the segments; `none` on leaving the
-- root.
unfoldable pub walk : List String → List String → Option (List String)
walk passed [] = some passed
walk passed (s ∷ ss) =
    if s == "" || s == "."
    then walk passed ss
    else if s == ".."
    then elim passed [ [] ↦ none | x ∷ xs ↦ walk xs ss ]
    else walk (s ∷ passed) ss

abbrev pub pushed : List String → List String → List String
pushed passed [] = passed
pushed passed (s ∷ ss) = pushed (s ∷ passed) ss

walk-pushed :
    (passed ss : List String)
    → member ".." ss ≡ false
    → any (λ s. s == "" || s == ".") ss ≡ false
    → walk passed ss ≡ some (pushed passed ss)
unfolding walk member any
walk-pushed passed [] h k = refl
walk-pushed passed (s ∷ ss) h k = ground (arith, walk-pushed (s ∷ passed) ss)

-- The path stays below the root, and each of its segments names the next directory or file.
abbrev pub IsInside : String → Type 0
IsInside path =
    (starts_with path "/" ≡ false)
    × (starts_with path "\\" ≡ false)
    × (has_drive path ≡ false)
    × (has_code b'\\' path ≡ false)
    × (walk [] (split b'/' path) ≡ some (pushed [] (split b'/' path)))

check_path-IsInside : (path : String) → check_path path ≡ ok tt → IsInside path
unfolding check_path
check_path-IsInside path h =
    let (_, e, h1) = >>=-eq-ok _ _ h in
    let (_, f, h2) = >>=-eq-ok _ _ h1 in
    let (_, g, k) = >>=-eq-ok _ _ h2 in
    let relative = raise_if-eq-ok _ _ e in
    let segments = raise_if-eq-ok _ _ g in
    (
      ground (arith, relative),
      ground (arith, relative),
      ground (arith, relative),
      raise_if-eq-ok _ _ f,
      walk-pushed [] (split b'/' path) segments (raise_if-eq-ok _ _ k),
    )

-- An accepted path is a text that is not absolute and leads from the root to a place below
-- it: walking its segments never goes up, and each segment names the next directory or file.
pub validate_path-IsInside :
    (v : Option Value)
    → validate_path v ≡ ok tt
    → (path : String) × (v ≡ some (string path)) × IsInside path
unfolding validate_path
validate_path-IsInside none h = cc
validate_path-IsInside (some (string path)) h =
    (path, refl, check_path-IsInside path (ground (arith, h)))
validate_path-IsInside (some v) h = cc
