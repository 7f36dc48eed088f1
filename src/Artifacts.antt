-- ===== src/Artifacts.antt =====
-- hermes_controller/artifacts.py: the metadata of result artifacts, and its validation.
-- `sha256` stands for `hashlib.sha256(text.encode("utf-8")).hexdigest()`. A text of the model is
-- always valid UTF-8, so the branch for an encoding error does not arise.
pub mod Inside
pub mod Accepted
pub mod Published
pub mod Tests
use Prim.Native.Char.{code}
use dvk_claude.Common.{
  ℕ, ◌*◌, String, Bool, true, false, not, ◌&&◌, ◌||◌, Option, none, some, List, [], ◌∷◌, ◌==◌, ◌=?◌,
  ltb, leb, is_empty, codes, utf8_length, is_digit, is_lower, is_upper, is_alnum, starts_with,
  split, all, any, member, length, if◌then◌else◌,
}
use dvk_claude.Result.{Result, ok, err, value_error, type_error, ◌>>=◌, ◌>>◌, raise_if}
use dvk_claude.Json.{
  pos, Value, integer, string, array, object, Fields, end, field, get, put, keys, to_list, is_given,
  index_text,
}

abbrev pub max_inline_text_bytes : ℕ
max_inline_text_bytes = 32 * 1024

abbrev pub enriched_keys : List String
enriched_keys = "sha256" ∷ "bytes" ∷ "media_type" ∷ "inline_text" ∷ []

abbrev pub allowed_keys : List String
allowed_keys = "path" ∷ enriched_keys

-- An artifact opts into validation by declaring any enriched key.
unfoldable pub is_enriched : Value → Bool
unfolding any member
is_enriched (object fs) = any (λ k. member k enriched_keys) (keys fs)
is_enriched v = false

-- `_DRIVE.match(path)`
unfoldable pub has_drive : String → Bool
unfolding is_lower is_upper
has_drive (String.◌∷◌ c (String.◌∷◌ d rest)) =
    (is_lower (code c) || is_upper (code c)) && code d =? b':'
has_drive s = false

unfoldable pub has_code : ℕ → String → Bool
unfolding any
has_code n s = any (λ c. c =? n) (codes s)

-- The tests of `_validate_path` after the first, on a text.
unfoldable pub check_path : String → Result (Unit {0})
unfolding has_drive has_code member split any
check_path path = do
  raise_if (starts_with path "/" || starts_with path "\\" || has_drive path)
      (value_error "artifact path must be relative")
  raise_if (has_code b'\\' path) (value_error "artifact path must not contain backslashes")
  raise_if (member ".." (split b'/' path)) (value_error "artifact path must not contain '..'")
  raise_if (any (λ s. s == "" || s == ".") (split b'/' path))
      (value_error "artifact path has empty or '.' segments")

unfoldable pub validate_path : Option Value → Result (Unit {0})
unfolding check_path has_code
validate_path (some (string path)) =
    if is_empty path || has_code 0 path
    then err (value_error "artifact path must be a non-empty string")
    else check_path path
validate_path v = err (value_error "artifact path must be a non-empty string")

-- `[0-9a-f]{64}`
unfoldable pub is_sha256 : String → Bool
unfolding all is_digit
is_sha256 s =
    length (codes s) =? 64 && all (λ c. is_digit c || (leb b'a' c && leb c b'f')) (codes s)

-- `[A-Za-z0-9!#$&^_.+-]`
unfoldable pub is_media_char : ℕ → Bool
unfolding is_alnum
is_media_char c =
    is_alnum c
    || c =? b'!'
    || c =? b'#'
    || c =? b'$'
    || c =? b'&'
    || c =? b'^'
    || c =? b'_'
    || c =? b'.'
    || c =? b'+'
    || c =? b'-'

-- `[A-Za-z0-9][A-Za-z0-9!#$&^_.+-]{0,63}`
unfoldable pub is_media_part : List ℕ → Bool
unfolding is_media_char all
is_media_part [] = false
is_media_part (c ∷ cs) = is_alnum c && leb (length cs) 63 && all is_media_char cs

-- A part holds no `/`, so the expression matches exactly two parts.
unfoldable pub is_media_type : String → Bool
unfolding is_media_part split
is_media_type s = elim (split b'/' s) [
  | a ∷ b ∷ [] ↦ is_media_part (codes a) && is_media_part (codes b)
  | _ ↦ false
]

unfoldable pub check_digest : Option Value → Result String
unfolding is_sha256
check_digest (some (string s)) =
    if is_sha256 s
    then ok s
    else err (value_error "artifact sha256 must be 64 lowercase hex characters")
check_digest v = err (value_error "artifact sha256 must be 64 lowercase hex characters")

unfoldable pub check_size : Option Value → Result ℕ
check_size (some (integer (pos n))) = ok n
check_size v = err (value_error "artifact bytes must be an integer >= 0")

-- `hashes.get(path) != digest`
unfoldable pub check_hash : Option Value → String → Fields → Result (Unit {0})
unfolding get
check_hash (some (string path)) digest hashes =
    raise_if (not (is_given (get path hashes) digest))
      (value_error "artifact sha256 does not match hashes[path]")
check_hash v digest hashes = err type_error

module _ (sha256 : String → String) where
  unfoldable pub check_media_type : Option Value → Result (Unit {0})
  unfolding is_media_type
  check_media_type none = ok tt
  check_media_type (some (string s)) =
      raise_if (not (is_media_type s)) (value_error "artifact media_type is invalid")
  check_media_type (some v) = err (value_error "artifact media_type is invalid")

  unfoldable pub check_inline : Option Value → String → ℕ → Result (Unit {0})
  check_inline none digest size = ok tt
  check_inline (some (string s)) digest size = do
    raise_if (ltb max_inline_text_bytes (utf8_length s))
        (value_error "artifact inline_text exceeds the limit")
    raise_if (not (size =? utf8_length s)) (value_error "artifact bytes does not match inline_text")
    raise_if (not (digest == sha256 s)) (value_error "artifact sha256 does not match inline_text")
  check_inline (some v) digest size = err (value_error "artifact inline_text must be a string")

  unfoldable pub validate_enriched : Fields → Fields → Result (Unit {0})
  unfolding all member get validate_path check_digest check_size check_media_type check_inline
      check_hash
  validate_enriched artifact hashes = do
    raise_if (not (all (λ k. member k allowed_keys) (keys artifact)))
        (value_error "enriched artifact has unknown fields")
    validate_path (get "path" artifact)
    digest ← check_digest (get "sha256" artifact)
    size ← check_size (get "bytes" artifact)
    check_media_type (get "media_type" artifact)
    check_inline (get "inline_text" artifact) digest size
    check_hash (get "path" artifact) digest hashes

  -- The loop of `validate_artifacts`, with the paths seen so far.
  unfoldable pub validate_each : List Value → Fields → List String → Result (Unit {0})
  unfolding is_enriched validate_enriched member
  validate_each [] hashes seen = ok tt
  validate_each (object artifact ∷ rest) hashes seen =
      let later = λ (s : List String). validate_each rest hashes s in
      if is_enriched (object artifact)
      then (do
        validate_enriched artifact hashes
        path ← index_text "path" artifact
        raise_if (member path seen) (value_error "duplicate enriched artifact path")
        later (path ∷ seen))
      else later seen
  validate_each (v ∷ rest) hashes seen = validate_each rest hashes seen

  unfoldable pub validate_artifacts : Value → Value → Result (Unit {0})
  unfolding validate_each
  validate_artifacts (array items) (object hashes) = validate_each (to_list items) hashes []
  validate_artifacts a h = err (value_error "artifacts must be a list and hashes an object")

  abbrev with_inline : Bool → String → Fields → Fields
  with_inline true t fs = put "inline_text" (string t) fs
  with_inline false t fs = fs

  abbrev with_media_type : Option String → Fields → Fields
  with_media_type none fs = fs
  with_media_type (some m) fs = put "media_type" (string m) fs

  -- `text_artifact(path, text, media_type=..., inline=...)`
  unfoldable pub text_artifact : String → String → Option String → Bool → Result Fields
  unfolding validate_enriched put
  text_artifact path content media_type inline = do
    let digest = sha256 content
    let described = with_media_type media_type (
        field "path" (string path) (
          field "sha256" (string digest) (field "bytes" (integer (pos (utf8_length content))) end)))
    raise_if (inline && ltb max_inline_text_bytes (utf8_length content))
        (value_error "inline_text exceeds the limit; publish a separate summary artifact")
    let artifact = with_inline inline content described
    validate_enriched artifact (field path (string digest) end)
    ok artifact
