-- ===== src/Table/Laws.antt =====
-- What a query finds after each statement.
use mathlib.Core.Option
use dvk_claude.Common.{
  String, ◌≡◌, refl, none, some, List, [], ◌∷◌, ◌++◌, ◌==◌, eq_iff, eq_refl, is_some, arith,
  if◌then◌else◌,
}
use dvk_claude.Result.{ok}
use dvk_claude.Table.{find, update, insert, delete}

module _ {ℓ} {A : Type ℓ} (key : A → String) where
  pub key-find : (k : String) (rows : List A) (a : A) → find key k rows ≡ some a → key a ≡ k
  unfolding find
  key-find k [] a h = cc
  key-find k (r ∷ rows) a h = ground (arith, eq_iff (key r) k, key-find k rows a)

  pub find-update :
      (j k : String) (f : A → A) (rows : List A)
      → ((a : A) → key (f a) ≡ key a)
      → find key j (update key k f rows)
        ≡ (if k == j then Option.map f (find key j rows) else find key j rows)
  unfolding find update
  find-update j k f [] keeps = ground arith
  find-update j k f (r ∷ rows) keeps = ground (
    arith,
    keeps r,
    eq_iff (key r) k,
    eq_iff (key r) j,
    eq_iff k j,
    eq_refl j,
    find-update j k f rows keeps,
  )

  pub find-append :
      (j : String) (a : A) (rows : List A)
      → find key j (rows ++ a ∷ []) ≡ (
          if is_some (find key j rows)
          then find key j rows
          else if key a == j
          then some a
          else none)
  unfolding find
  find-append j a [] = refl
  find-append j a (r ∷ rows) = ground (arith, find-append j a rows)

  -- An insertion that is not refused adds its row and changes no other.
  pub find-insert :
      (j : String) (a : A) (rows new : List A)
      → insert key a rows ≡ ok new
      → find key j new ≡ (if key a == j then some a else find key j rows)
  unfolding insert
  find-insert j a rows new h = ground (arith, find-append j a rows, eq_iff (key a) j)

  pub find-delete :
      (j k : String) (rows : List A)
      → find key j (delete key k rows) ≡ (if k == j then none else find key j rows)
  unfolding find delete
  find-delete j k [] = ground arith
  find-delete j k (r ∷ rows) =
      ground (arith, find-delete j k rows, eq_iff (key r) k, eq_iff (key r) j, eq_iff k j)
