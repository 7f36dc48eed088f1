-- ===== src/Common/All.antt =====
-- A predicate on every entry of a list, through the searches and the sort.
use mathlib.Core.Path.{◌≡◌}
use mathlib.Core.Bool.{Bool, true, false}
use mathlib.Core.Logic.{inl, inr}
use mathlib.Core.List.{List, [], ◌∷◌, ◌++◌}
use dvk_claude.Common.Tests.{if◌then◌else◌, Bool-cases}
use dvk_claude.Common.Lists.{keep, insert_sorted, sort}

abbrev pub All {ℓ κ} : {A : Type ℓ} → (A → Type κ) → List A → Type κ
All P [] = Unit
All P (x ∷ xs) = P x × All P xs

pub All-mono {ℓ κ μ} :
    {A : Type ℓ} (P : A → Type κ) (Q : A → Type μ) (xs : List A)
    → ((x : A) → P x → Q x)
    → All P xs
    → All Q xs
All-mono P Q [] f h = tt
All-mono P Q (x ∷ xs) f h = (f x h.0, All-mono P Q xs f h.1)

module _ {ℓ κ} {A : Type ℓ} (P : A → Type κ) where
  pub All-append : (xs ys : List A) → All P xs → All P ys → All P (xs ++ ys)
  All-append [] ys h k = k
  All-append (x ∷ xs) ys h k = (h.0, All-append xs ys h.1 k)

  pub All-insert_sorted :
      (before : A → A → Bool) (a : A) (xs : List A)
      → P a
      → All P xs
      → All P (insert_sorted before a xs)
  unfolding insert_sorted
  All-insert_sorted before a [] p h = (p, tt)
  All-insert_sorted before a (x ∷ xs) p h =
      let rest = All-insert_sorted before a xs p h.1 in
      elim (before a x) as (λ b. All P (if b then a ∷ x ∷ xs else x ∷ insert_sorted before a xs)) [
        | true ↦ (p, h)
        | false ↦ (h.0, rest)
      ]

  pub All-sort : (before : A → A → Bool) (xs : List A) → All P xs → All P (sort before xs)
  unfolding sort
  All-sort before [] h = tt
  All-sort before (x ∷ xs) h =
      All-insert_sorted before x (sort before xs) h.0 (All-sort before xs h.1)

  -- What is kept passes the test.
  pub All-keep : (p : A → Bool) (xs : List A) → All P xs → All (λ x. P x × (p x ≡ true)) (keep p xs)
  unfolding keep
  All-keep p [] h = tt
  All-keep p (x ∷ xs) h =
      let rest = All-keep p xs h.1 in
      elim (Bool-cases (p x)) [ inl e ↦ rw e ((h.0, e), rest) | inr e ↦ rw e rest ]
