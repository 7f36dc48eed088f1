-- ===== src/Table/Keys.antt =====
-- Tables whose primary keys differ, and predicates on every row.
use dvk_claude.Common.{
  String, ◌≡◌, refl, subst, true, false, none, some, List, [], ◌∷◌, ◌++◌, ◌==◌, eq_iff, eq_refl,
  arith, if◌then◌else◌,
}
use dvk_claude.Common.All.{All, All-mono}
use dvk_claude.Result.{ok}
use dvk_claude.Table.{find, update, insert}
use dvk_claude.Table.Laws.{find-update, find-append}

module _ {ℓ} {A : Type ℓ} (key : A → String) where
  abbrev pub Unique : List A → Type ℓ
  Unique [] = Unit
  Unique (a ∷ rows) = (find key (key a) rows ≡ none) × Unique rows

  update-none :
      (j k : String) (f : A → A) (rows : List A)
      → ((a : A) → key (f a) ≡ key a)
      → find key j rows ≡ none
      → find key j (update key k f rows) ≡ none
  update-none j k f rows keeps h = ground (arith, find-update key j k f rows keeps)

  pub Unique-update :
      (k : String) (f : A → A) (rows : List A)
      → ((a : A) → key (f a) ≡ key a)
      → Unique rows
      → Unique (update key k f rows)
  unfolding update
  Unique-update k f [] keeps u = tt
  Unique-update k f (a ∷ rows) keeps u =
      let rest = Unique-update k f rows keeps u.1 in
      elim (key a == k) as (λ b. Unique ((if b then f a else a) ∷ update key k f rows)) [
        | true ↦ (rw keeps (update-none (key a) k f rows keeps u.0), rest)
        | false ↦ (update-none (key a) k f rows keeps u.0, rest)
      ]

  Unique-append :
      (a : A) (rows : List A) → find key (key a) rows ≡ none → Unique rows → Unique (rows ++ a ∷ [])
  unfolding find
  Unique-append a [] h u = (refl, tt)
  Unique-append a (r ∷ rows) h u = (
    ground (arith, find-append key (key r) a rows, eq_iff (key a) (key r), eq_refl (key r)),
    Unique-append a rows (ground arith) u.1,
  )

  -- An insertion is refused exactly for a key that is there.
  pub insert-eq-ok :
      (a : A) (rows new : List A)
      → insert key a rows ≡ ok new
      → (find key (key a) rows ≡ none) × (rows ++ a ∷ [] ≡ new)
  unfolding insert
  insert-eq-ok a rows new h = ground arith

  pub Unique-insert :
      (a : A) (rows new : List A) → insert key a rows ≡ ok new → Unique rows → Unique new
  Unique-insert a rows new h u =
      let (fresh, e) = insert-eq-ok a rows new h in subst Unique e (Unique-append a rows fresh u)

  -- Each row of such a table is the one that its key finds.
  pub All-find_self : (rows : List A) → Unique rows → All (λ a. find key (key a) rows ≡ some a) rows
  unfolding find
  All-find_self [] u = tt
  All-find_self (x ∷ rows) u = (
    ground (arith, eq_refl (key x)),
    All-mono (λ a. find key (key a) rows ≡ some a) _ rows
        (λ a h. ground (arith, eq_iff (key x) (key a), u.0)) (All-find_self rows u.1),
  )

module _ {ℓ κ} {A : Type ℓ} (key : A → String) (P : A → Type κ) where
  pub All-find : (k : String) (rows : List A) (a : A) → find key k rows ≡ some a → All P rows → P a
  unfolding find
  All-find k [] a h p = cc
  All-find k (r ∷ rows) a h p =
      elim (key r == k) as (λ b. (if b then some r else find key k rows) ≡ some a → P a) [
        | true ↦ λ e. subst P (cc) p.0
        | false ↦ λ e. All-find k rows a e p.1
      ]
        h
