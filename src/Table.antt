-- ===== src/Table.antt =====
-- A table of the SQLite database: its rows in the order of insertion, found by the primary key.
pub mod Laws
pub mod Keys
use dvk_claude.Common.{
  ℕ, suc, ◌+◌, String, ◌≡◌, refl, sym, ap, Bool, true, false, Option, none, some, List, [], ◌∷◌,
  ◌++◌, ◌==◌, eq_iff, eq_refl, is_some, arith, if◌then◌else◌, length,
}
use dvk_claude.Result.{Result, ok, err, integrity_error}
use mathlib.Core.Option

module _ {ℓ} {A : Type ℓ} (key : A → String) where
  -- SELECT * FROM t WHERE key = k
  unfoldable pub find : String → List A → Option A
  find k [] = none
  find k (a ∷ rows) = if key a == k then some a else find k rows

  -- UPDATE t SET ... WHERE key = k
  unfoldable pub update : String → (A → A) → List A → List A
  update k f [] = []
  update k f (a ∷ rows) = (if key a == k then f a else a) ∷ update k f rows

  -- INSERT INTO t VALUES (...)
  unfoldable pub insert : A → List A → Result (List A)
  unfolding find
  insert a rows = if is_some (find (key a) rows) then err integrity_error else ok (rows ++ a ∷ [])

  -- DELETE FROM t WHERE key = k
  unfoldable pub delete : String → List A → List A
  delete k [] = []
  delete k (a ∷ rows) = if key a == k then delete k rows else a ∷ delete k rows

  -- INSERT INTO t VALUES (a) ON CONFLICT(key) DO UPDATE SET ...
  unfoldable pub upsert : A → (A → A) → List A → List A
  unfolding find update
  upsert a f rows = if is_some (find (key a) rows) then update (key a) f rows else rows ++ a ∷ []
