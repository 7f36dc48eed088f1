-- ===== src/Api/Body.antt =====
-- `_body` of api.py and the handlers of the server: from the bytes of a request to an answer.
use dvk_claude.Common.{
  ℕ, zero, suc, ◌≤◌, Bool, Option, none, some, List, [], ◌∷◌, ltb, length, arith, if◌then◌else◌,
  take,
}
use dvk_claude.Json.{ℤ, pos, negsuc, Value, object, Fields}
use dvk_claude.Result.{
  Error, controller_error, value_error, type_error, Result, ok, err, ◌>>=◌, Ensures, Ensures-ok,
  Ensures-err, Ensures-bind, Ensures-if,
}
use dvk_claude.Controller.Schema.{Db, Env}
use dvk_claude.Api.{Server, Request, Answer, replies, crashes, raised, Outcome, unchanged}
use dvk_claude.Api.Post.{do_post}

-- `MAX_BODY_BYTES` and `MAX_DECOMPRESSED_BODY_BYTES`
abbrev pub max_body_bytes : ℕ
max_body_bytes = 4194304

-- `gzip.decompress`: the bytes, an OSError, or another exception (EOFError, zlib.error).
pub data Unzipped : Type 0 where
  bytes : List ℕ → Unzipped
  os_error : Unzipped
  other_error : Unzipped

-- What the standard library makes of bytes; `loads` gives nothing where it raises a ValueError.
pub record Codec : Type 0 where
  pub gunzip : List ℕ → Unzipped
  pub loads : List ℕ → Option Value

-- `length` is what `int` makes of the header, with nothing where it raises a ValueError.
pub record Body : Type 0 where
  pub length : Option ℤ
  pub sent : List ℕ
  pub is_gzip : Bool

abbrev too_large : Error
too_large = controller_error "request body exceeds limit"

-- `int(self.headers.get("Content-Length", "0"))`, from 0 to the limit.
unfoldable pub check_length : Option ℤ → Result ℕ
check_length none = err (value_error "invalid literal for int()")
check_length (some (negsuc n)) = err too_large
check_length (some (pos n)) = if ltb max_body_bytes n then err too_large else ok n

-- `self.rfile.read(length) or b"{}"`
abbrev or_braces : List ℕ → List ℕ
or_braces [] = b'{' ∷ b'}' ∷ []
or_braces (b ∷ bs) = b ∷ bs

unfoldable pub unzip : Unzipped → Result (List ℕ)
unzip (bytes raw) =
    if ltb max_body_bytes (length raw)
    then err (controller_error "decompressed request body exceeds limit")
    else ok raw
unzip os_error = err (controller_error "invalid gzip request body")
unzip other_error = err type_error

abbrev parsed : Option Value → Result Fields
parsed none = err (value_error "invalid JSON")
parsed (some (object body)) = ok body
parsed (some v) = err (controller_error "JSON body must be an object")

-- The bytes of the body, decompressed.
unfoldable pub raw_body : Codec → Body → Result (List ℕ)
unfolding check_length unzip
raw_body codec b = do
  n ← check_length b.length
  let raw = or_braces (take n b.sent)
  if b.is_gzip then unzip (codec.gunzip raw) else ok raw

-- `_body`
unfoldable pub read_body : Codec → Body → Result Fields
unfolding raw_body
read_body codec b = raw_body codec b >>= λ raw. parsed (codec.loads raw)

-- `except (ControllerError, ValueError, json.JSONDecodeError) as exc: self._reply(400, ...)`
unfoldable pub body_answer : Error → Answer
body_answer (controller_error m) = replies 400 (raised (controller_error m))
body_answer (value_error m) = replies 400 (raised (value_error m))
body_answer e = crashes e

-- `do_POST`
unfoldable pub post : Codec → Env → Env → Server → Request → Body → Db → Outcome
unfolding read_body body_answer do_post
post codec first later srv r b db = elim (read_body codec b) [
  | ok body ↦ do_post first later srv r body db
  | err e ↦ unchanged db (body_answer e)
]

length-take : (n : ℕ) (xs : List ℕ) → length (take n xs) ≤ n
length-take n [] = omega arith
length-take zero (x ∷ xs) = omega arith
length-take (suc n) (x ∷ xs) = omega (arith, length-take n xs)

abbrev pub Fits : List ℕ → Type 0
Fits raw = length raw ≤ max_body_bytes

or_braces-Fits : (raw : List ℕ) → Fits raw → Fits (or_braces raw)
or_braces-Fits [] h = omega arith
or_braces-Fits (b ∷ bs) h = h

check_length-le : (n : Option ℤ) → Ensures (λ k. k ≤ max_body_bytes) (check_length n)
unfolding check_length
check_length-le none = Ensures-err _
check_length-le (some (negsuc n)) = Ensures-err _
check_length-le (some (pos n)) =
    Ensures-if (ltb max_body_bytes n) _ _ (λ _. Ensures-err _)
      (λ h. Ensures-ok n (ground (arith, h)))

unzip-Fits : (u : Unzipped) → Ensures Fits (unzip u)
unfolding unzip
unzip-Fits (bytes raw) =
    Ensures-if (ltb max_body_bytes (length raw)) _ _ (λ _. Ensures-err _)
      (λ h. Ensures-ok raw (ground (arith, h)))
unzip-Fits os_error = Ensures-err _
unzip-Fits other_error = Ensures-err _

-- The bytes that are parsed, compressed or not, are at most 4 MiB.
pub raw_body-Fits : (codec : Codec) (b : Body) → Ensures Fits (raw_body codec b)
unfolding raw_body
raw_body-Fits codec b = Ensures-bind _ _ λ n c.
    let sent =
      or_braces-Fits (take n b.sent)
        (omega (arith, length-take n b.sent, (check_length-le b.length).holds n c)) in
    Ensures-if b.is_gzip _ _ (λ _. unzip-Fits (codec.gunzip (or_braces (take n b.sent))))
      (λ _. Ensures-ok _ sent)
