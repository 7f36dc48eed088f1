-- ===== src/Artifacts/Accepted.antt =====
-- What the validation of artifacts.py guarantees of the artifacts that it accepts.
use dvk_claude.Common.{
  ℕ, ◌≤◌, String, ◌≡◌, refl, subst, true, false, Option, none, some, List, [], ◌∷◌, eq_iff, eq_refl,
  arith, distinct, member, utf8_length, if◌then◌else◌,
}
use dvk_claude.Common.All.{All}
use dvk_claude.Result.{
  Result, ok, err, >>=-eq-ok, raise_if-eq-ok, Ensures, Ensures-ok, Ensures-if, Ensures-bind,
}
use dvk_claude.Json.{
  Items, object?, Value, string, integer, array, object, pos, Fields, get, is_given, to_list,
  index_text,
}
use dvk_claude.Artifacts.{
  check_digest, check_size, check_inline, check_hash, validate_path, is_sha256, validate_enriched,
  validate_each, validate_artifacts, is_enriched,
}
use dvk_claude.Artifacts.Inside.{IsInside, validate_path-IsInside}

check_digest-eq-ok :
    (v : Option Value) (d : String)
    → check_digest v ≡ ok d
    → (v ≡ some (string d)) × (is_sha256 d ≡ true)
unfolding check_digest
check_digest-eq-ok none d h = cc
check_digest-eq-ok (some (string s)) d h = ground arith
check_digest-eq-ok (some v) d h = cc

check_size-eq-ok : (v : Option Value) (n : ℕ) → check_size v ≡ ok n → v ≡ some (integer (pos n))
unfolding check_size
check_size-eq-ok none n h = cc
check_size-eq-ok (some (integer (pos m))) n h = cc
check_size-eq-ok (some v) n h = cc

is_given-eq : (v : Option Value) (s : String) → is_given v s ≡ true → v ≡ some (string s)
is_given-eq none s h = cc
is_given-eq (some (string t)) s h = ground (arith, eq_iff t s)
is_given-eq (some v) s h = cc

check_hash-eq-ok :
    (path digest : String) (hashes : Fields)
    → check_hash (some (string path)) digest hashes ≡ ok tt
    → get path hashes ≡ some (string digest)
unfolding check_hash
check_hash-eq-ok path digest hashes h =
    is_given-eq (get path hashes) digest (ground (arith, raise_if-eq-ok _ _ h))

abbrev path_of : Result String → String
path_of (ok path) = path
path_of (err e) = ""

-- The paths of the artifacts that are validated.
unfoldable pub enriched_paths : List Value → List String
unfolding is_enriched index_text
enriched_paths [] = []
enriched_paths (object artifact ∷ vs) =
    if is_enriched (object artifact)
    then path_of (index_text "path" artifact) ∷ enriched_paths vs
    else enriched_paths vs
enriched_paths (v ∷ vs) = enriched_paths vs

module _ (sha256 : String → String) where
  -- A text in the artifact is all of the content that its size and hash describe.
  abbrev pub IsContent : Option Value → String → ℕ → Type 0
  IsContent none digest size = Unit
  IsContent (some v) digest size =
      (t : String) × (v ≡ string t) × (utf8_length t ≡ size) × (sha256 t ≡ digest) × (size ≤ 32768)

  check_inline-IsContent :
      (v : Option Value) (digest : String) (size : ℕ)
      → check_inline sha256 v digest size ≡ ok tt
      → IsContent v digest size
  unfolding check_inline
  check_inline-IsContent none digest size h = tt
  check_inline-IsContent (some (string t)) digest size h =
      let (_, e, h1) = >>=-eq-ok _ _ h in
      let (_, f, g) = >>=-eq-ok _ _ h1 in
      let bound = raise_if-eq-ok _ _ e in
      let size_eq = raise_if-eq-ok _ _ f in
      let digest_eq = raise_if-eq-ok _ _ g in
      (t, refl, ground arith, ground (arith, eq_iff digest (sha256 t)), ground arith)
  check_inline-IsContent (some v) digest size h = cc

  pub record Described (artifact hashes : Fields) : Type 0 where
    pub path : String
    pub digest : String
    pub size : ℕ
    pub path-eq : get "path" artifact ≡ some (string path)
    pub inside : IsInside path
    pub digest-eq : get "sha256" artifact ≡ some (string digest)
    pub is_digest : is_sha256 digest ≡ true
    pub size-eq : get "bytes" artifact ≡ some (integer (pos size))
    pub hash-eq : get path hashes ≡ some (string digest)
    pub content : IsContent (get "inline_text" artifact) digest size

  described :
      (artifact hashes : Fields) (digest : String) (size : ℕ)
      → validate_path (get "path" artifact) ≡ ok tt
      → check_digest (get "sha256" artifact) ≡ ok digest
      → check_size (get "bytes" artifact) ≡ ok size
      → check_inline sha256 (get "inline_text" artifact) digest size ≡ ok tt
      → check_hash (get "path" artifact) digest hashes ≡ ok tt
      → Described artifact hashes
  described artifact hashes digest size p d s i g =
      let (path, e, inside) = validate_path-IsInside (get "path" artifact) p in
      let (f, is_digest) = check_digest-eq-ok _ digest d in
      record {
        path = path;
        digest = digest;
        size = size;
        path-eq = e;
        inside = inside;
        digest-eq = f;
        is_digest = is_digest;
        size-eq = check_size-eq-ok _ size s;
        hash-eq =
            check_hash-eq-ok path digest hashes
              (subst (λ v. check_hash v digest hashes ≡ ok tt) e g);
        content = check_inline-IsContent _ digest size i;
      }

  validate_enriched-Described :
      (artifact hashes : Fields)
      → Ensures (λ _. Described artifact hashes) (validate_enriched sha256 artifact hashes)
  unfolding validate_enriched
  validate_enriched-Described artifact hashes = Ensures-bind _ _ λ _ _. Ensures-bind _ _ λ _ p.
      Ensures-bind _ _ λ digest d. Ensures-bind _ _ λ size s. Ensures-bind _ _ λ _ _.
        Ensures-bind _ _
          λ _ i. (record { holds = λ _ g. described artifact hashes digest size p d s i g })

  abbrev pub IsAccepted : Fields → Value → Type 0
  IsAccepted hashes (object artifact) =
      is_enriched (object artifact) ≡ true → Described artifact hashes
  IsAccepted hashes v = Unit

  -- The paths that the rest of the list declares are new, and differ from each other.
  abbrev pub AllAccepted : Fields → List String → List Value → Type 0
  AllAccepted hashes seen items =
      All (IsAccepted hashes) items
      × (distinct (enriched_paths items) ≡ true)
      × ((p : String) → member p seen ≡ true → member p (enriched_paths items) ≡ false)

  accept_artifact :
      (artifact hashes : Fields) (rest : List Value) (path : String) (seen : List String)
      → is_enriched (object artifact) ≡ true
      → Described artifact hashes
      → index_text "path" artifact ≡ ok path
      → member path seen ≡ false
      → AllAccepted hashes (path ∷ seen) rest
      → AllAccepted hashes seen (object artifact ∷ rest)
  unfolding enriched_paths member distinct
  accept_artifact artifact hashes rest path seen t d e n (a, u, f) = (
    ((λ _. d), a),
    ground (arith, t, e, f path, eq_refl path),
    λ p m. ground (arith, t, e, n, m, f p, eq_iff path p),
  )

  skip_artifact :
      (artifact hashes : Fields) (rest : List Value) (seen : List String)
      → is_enriched (object artifact) ≡ false
      → AllAccepted hashes seen rest
      → AllAccepted hashes seen (object artifact ∷ rest)
  unfolding enriched_paths
  skip_artifact artifact hashes rest seen t (a, u, f) =
      (((λ h. absurd (cc)), a), ground (arith, t, u), λ p m. ground (arith, t, f p))

  skip_other :
      (v : Value) (hashes : Fields) (rest : List Value) (seen : List String)
      → object? v ≡ none
      → AllAccepted hashes seen rest
      → AllAccepted hashes seen (v ∷ rest)
  unfolding enriched_paths
  skip_other (object fs) hashes rest seen n k = cc
  skip_other v hashes rest seen n (a, u, f) = ((tt, a), u, f)

  validate_each-AllAccepted :
      (items : List Value) (hashes : Fields) (seen : List String)
      → Ensures (λ _. AllAccepted hashes seen items) (validate_each sha256 items hashes seen)
  unfolding validate_each enriched_paths distinct member
  validate_each-AllAccepted [] hashes seen = Ensures-ok tt (tt, refl, λ p m. refl)
  validate_each-AllAccepted (object artifact ∷ rest) hashes seen =
      let later = λ (s : List String). validate_each-AllAccepted rest hashes s in
      Ensures-if (is_enriched (object artifact)) _ _
        (λ t. Ensures-bind _ _ λ _ v. Ensures-bind _ _ λ path e. Ensures-bind _ _ λ _ n. (record {
          holds = λ u g.
              accept_artifact artifact hashes rest path seen t
                ((validate_enriched-Described artifact hashes).holds tt v) e (raise_if-eq-ok _ _ n)
                ((later (path ∷ seen)).holds u g);
        }))
        (λ t. (record {
          holds = λ u g. skip_artifact artifact hashes rest seen t ((later seen).holds u g);
        }))
  validate_each-AllAccepted (v ∷ rest) hashes seen = record {
    holds = λ u g.
        skip_other v hashes rest seen refl ((validate_each-AllAccepted rest hashes seen).holds u g);
  }

  -- The enriched artifacts that `validate_artifacts` accepts stay inside the root, each with a
  -- SHA-256 hash that is also the one of its path in `hashes`; a text in an artifact is all of the
  -- content that its size and hash describe, of at most 32 KiB; and no two of them share a path.
  pub validate_artifacts-AllAccepted :
      (items hashes : Value)
      → validate_artifacts sha256 items hashes ≡ ok tt
      → (vs : Items) × (fs : Fields) × (items ≡ array vs)
        × (hashes ≡ object fs)
        × AllAccepted fs [] (to_list vs)
  unfolding validate_artifacts
  validate_artifacts-AllAccepted (array vs) (object fs) h =
      (vs, fs, refl, refl, (validate_each-AllAccepted (to_list vs) fs []).holds tt h)
  validate_artifacts-AllAccepted v w h = cc
