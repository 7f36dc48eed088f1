-- ===== src/Common/Order.antt =====
-- What a sort returns: the same entries, none of them before an earlier one.
use mathlib.Core.Path.{◌≡◌}
use mathlib.Core.Bool.{Bool, true, false}
use mathlib.Core.Logic.{inl, inr}
use mathlib.Core.List.{List, [], ◌∷◌}
use mathlib.Core.List.{Perm}
use mathlib.Core.List.Perm
use native.Mathlib.Omega.{arith}
use dvk_claude.Common.Tests.{if◌then◌else◌, Bool-cases}
use dvk_claude.Common.Lists.{insert_sorted, sort, keep}
use dvk_claude.Common.All.{All, All-mono, All-insert_sorted}

module _ {ℓ} {A : Type ℓ} (before : A → A → Bool) where
  abbrev pub IsSorted : List A → Type ℓ
  IsSorted [] = Unit
  IsSorted (x ∷ xs) = All (λ y. before y x ≡ false) xs × IsSorted xs

  module _ (asym : (x y : A) → before x y ≡ true → before y x ≡ false)
      (trans : (x y z : A) → before x y ≡ true → before y z ≡ true → before x z ≡ true) where
    insert_sorted-IsSorted :
        (a : A) (xs : List A) → IsSorted xs → IsSorted (insert_sorted before a xs)
    unfolding insert_sorted
    insert_sorted-IsSorted a [] s = (tt, tt)
    insert_sorted-IsSorted a (x ∷ xs) (h, s) =
        let rest = insert_sorted-IsSorted a xs s in
        elim (Bool-cases (before a x)) [
          | inl e ↦
              rw e
                ((asym a x e, All-mono _ _ xs (λ y k. ground (arith, k, trans y a x, e)) h), (h, s))
          | inr e ↦ rw e (All-insert_sorted (λ y. before y x ≡ false) before a xs e h, rest)
        ]

    pub sort-IsSorted : (xs : List A) → IsSorted (sort before xs)
    unfolding sort
    sort-IsSorted [] = tt
    sort-IsSorted (x ∷ xs) = insert_sorted-IsSorted x (sort before xs) (sort-IsSorted xs)

module _ {ℓ} {A : Type ℓ} (before : A → A → Bool) where
  insert_sorted-Perm : (a : A) (xs : List A) → Perm (insert_sorted before a xs) (a ∷ xs)
  unfolding insert_sorted
  insert_sorted-Perm a [] = Perm.refl (a ∷ [])
  insert_sorted-Perm a (x ∷ xs) =
      let later = Perm.trans (Perm.cons x (insert_sorted-Perm a xs)) (Perm.swap a x xs) in
      elim (before a x)
        as (λ b. Perm (if b then a ∷ x ∷ xs else x ∷ insert_sorted before a xs) (a ∷ x ∷ xs)) [
          | true ↦ Perm.refl (a ∷ x ∷ xs)
          | false ↦ later
        ]

  pub sort-Perm : (xs : List A) → Perm (sort before xs) xs
  unfolding sort
  sort-Perm [] = Perm.refl []
  sort-Perm (x ∷ xs) =
      Perm.trans (insert_sorted-Perm x (sort before xs)) (Perm.cons x (sort-Perm xs))

module _ {ℓ κ} {A : Type ℓ} (P : A → Type κ) where
  All-of_insert_sorted :
      (before : A → A → Bool) (a : A) (xs : List A)
      → All P (insert_sorted before a xs)
      → P a × All P xs
  unfolding insert_sorted
  All-of_insert_sorted before a [] h = (h.0, tt)
  All-of_insert_sorted before a (x ∷ xs) h =
      let rest = All-of_insert_sorted before a xs in
      elim (before a x)
          as (λ b.
            All P (if b then a ∷ x ∷ xs else x ∷ insert_sorted before a xs)
            → P a × All P (x ∷ xs)) [
              | true ↦ λ k. k
              | false ↦ λ k. ((rest k.1).0, (k.0, (rest k.1).1))
            ]
        h

  -- What holds of every entry that is sorted holds of every entry.
  pub All-of_sort : (before : A → A → Bool) (xs : List A) → All P (sort before xs) → All P xs
  unfolding sort
  All-of_sort before [] h = tt
  All-of_sort before (x ∷ xs) h =
      let k = All-of_insert_sorted before x (sort before xs) h in (k.0, All-of_sort before xs k.1)

  -- What holds of every entry that is kept holds of every entry that passes the test.
  pub All-of_keep :
      (p : A → Bool) (xs : List A) → All P (keep p xs) → All (λ x. p x ≡ true → P x) xs
  unfolding keep
  All-of_keep p [] h = tt
  All-of_keep p (x ∷ xs) h =
      let rest = All-of_keep p xs in
      elim (p x)
          as (λ b.
            All P (if b then x ∷ keep p xs else keep p xs)
            → (b ≡ true → P x) × All (λ y. p y ≡ true → P y) xs) [
              | true ↦ λ k. ((λ e. k.0), rest k.1)
              | false ↦ λ k. ((λ e. absurd (cc)), rest k)
            ]
        h
