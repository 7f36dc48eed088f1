-- ===== src/Artifacts/Published.antt =====
-- What `text_artifact` of artifacts.py builds is what the validation accepts.
use dvk_claude.Common.{
  ℕ, String, ◌≡◌, refl, Bool, true, false, Option, none, some, arith, ltb, ◌&&◌, utf8_length, any,
  all, member, ◌≤◌, eq_refl, if◌then◌else◌,
}
use dvk_claude.Result.{ok, ◌>>=◌}
use dvk_claude.Json.{
  string, integer, pos, array, object, nil, cons, Fields, field, end, get, put, index_text, keys,
}
use dvk_claude.Artifacts.{
  is_enriched, validate_enriched, validate_each, validate_artifacts, text_artifact, with_inline,
  with_media_type, is_media_type, check_media_type, check_inline, allowed_keys, check_hash,
  validate_path, is_sha256, check_digest, check_size, max_inline_text_bytes,
}

module _ (sha256 : String → String) where
  abbrev described : String → String → Option String → Fields
  described path content media_type = with_media_type sha256 media_type (
      field "path" (string path) (
        field "sha256" (string (sha256 content))
          (field "bytes" (integer (pos (utf8_length content))) end)))

  -- The fields of an artifact for a text, by their meaning.
  abbrev pub Describes : String → String → Option String → Bool → Fields → Type 0
  Describes path content media_type inline a =
      (get "path" a ≡ some (string path))
      × (get "sha256" a ≡ some (string (sha256 content)))
      × (get "bytes" a ≡ some (integer (pos (utf8_length content))))
      × (get "media_type" a ≡ (elim media_type [ none ↦ none | some m ↦ some (string m) ]))
      × (get "inline_text" a ≡ (if inline then some (string content) else none))

  describes :
      (path content : String) (media_type : Option String) (inline : Bool)
      → Describes path content media_type inline
          (with_inline sha256 inline content (described path content media_type))
  unfolding get put
  describes path content none true = (refl, refl, refl, refl, refl)
  describes path content none false = (refl, refl, refl, refl, refl)
  describes path content (some m) true = (refl, refl, refl, refl, refl)
  describes path content (some m) false = (refl, refl, refl, refl, refl)

  enriched :
      (path content : String) (media_type : Option String) (inline : Bool)
      → is_enriched (object (with_inline sha256 inline content (described path content media_type)))
        ≡ true
  unfolding is_enriched put any member
  enriched path content none true = refl
  enriched path content none false = refl
  enriched path content (some m) true = refl
  enriched path content (some m) false = refl

  accepts :
      (path : String) (a hashes : Fields)
      → get "path" a ≡ some (string path)
      → is_enriched (object a) ≡ true
      → validate_enriched sha256 a hashes ≡ ok tt
      → validate_artifacts sha256 (array (cons (object a) nil)) (object hashes) ≡ ok tt
  unfolding validate_artifacts validate_each index_text ◌>>=◌ member
  accepts path a hashes e t v = ground (arith, e, t, v)

  -- The media type is absent or well-formed.
  abbrev pub IsMediaType : Option String → Type 0
  IsMediaType none = Unit {0}
  IsMediaType (some m) = is_media_type m ≡ true

  media_type-ok :
      (m : Option String)
      → IsMediaType m
      → check_media_type sha256 (elim m [ none ↦ none | some t ↦ some (string t) ]) ≡ ok tt
  unfolding check_media_type
  media_type-ok none h = refl
  media_type-ok (some m) h = ground arith

  inline-ok :
      (inline : Bool) (content : String)
      → (if inline then utf8_length content else 0) ≤ 32768
      → check_inline sha256
          (if inline then some (string content) else none)
          (sha256 content)
          (utf8_length content)
        ≡ ok tt
  unfolding check_inline ◌>>=◌
  inline-ok true content h = ground (arith, eq_refl (sha256 content))
  inline-ok false content h = refl

  abbrev built : String → String → Option String → Bool → Fields
  built path content media_type inline =
      with_inline sha256 inline content (described path content media_type)

  known_keys :
      (path content : String) (media_type : Option String) (inline : Bool)
      → all (λ k. member k allowed_keys) (keys (built path content media_type inline)) ≡ true
  unfolding put all member
  known_keys path content none true = refl
  known_keys path content none false = refl
  known_keys path content (some m) true = refl
  known_keys path content (some m) false = refl

  hash-ok :
      (path digest : String)
      → check_hash (some (string path)) digest (field path (string digest) end) ≡ ok tt
  unfolding check_hash get
  hash-ok path digest = ground (arith, eq_refl path, eq_refl digest)

  -- The conditions under which a text can be published.
  abbrev pub IsPublishable : String → String → Option String → Bool → Type 0
  IsPublishable path content media_type inline =
      (validate_path (some (string path)) ≡ ok tt)
      × (is_sha256 (sha256 content) ≡ true)
      × IsMediaType media_type
      × ((if inline then utf8_length content else 0) ≤ 32768)

  built-ok :
      (path content : String) (media_type : Option String) (inline : Bool)
      → IsPublishable path content media_type inline
      → validate_enriched sha256
          (built path content media_type inline)
          (field path (string (sha256 content)) end)
        ≡ ok tt
  unfolding validate_enriched check_digest check_size ◌>>=◌
  built-ok path content media_type inline (p, s, m, i) =
      let d = describes path content media_type inline in
      rw (
        known_keys path content media_type inline,
        d.0,
        d.1,
        d.2,
        d.3,
        d.4,
        p,
        s,
        media_type-ok media_type m,
        inline-ok inline content i,
        hash-ok path (sha256 content),
      )

  not_too_long :
      (inline : Bool) (size : ℕ)
      → (if inline then size else 0) ≤ 32768
      → (inline && ltb max_inline_text_bytes size) ≡ false
  not_too_long true size h = ground arith
  not_too_long false size h = refl

  -- `text_artifact` returns an artifact for every text that can be published: one with a valid path
  -- and media type, a well-formed hash and, if it is inline, at most 32 KiB. The artifact describes
  -- the text, and `validate_artifacts` accepts it with the hash of the text for its path.
  pub text_artifact-Describes :
      (path content : String) (media_type : Option String) (inline : Bool)
      → IsPublishable path content media_type inline
      → (a : Fields) × (text_artifact sha256 path content media_type inline ≡ ok a)
        × Describes path content media_type inline a
        × (validate_artifacts sha256
              (array (cons (object a) nil))
              (object (field path (string (sha256 content)) end))
            ≡ ok tt)
  unfolding text_artifact ◌>>=◌
  text_artifact-Describes path content media_type inline h =
      let d = describes path content media_type inline in
      let v = built-ok path content media_type inline h in
      (
        built path content media_type inline,
        rw (not_too_long inline (utf8_length content) h.3, v),
        d,
        accepts path _ _ d.0 (enriched path content media_type inline) v,
      )
