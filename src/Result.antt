-- ===== src/Result.antt =====
-- The exceptions of the controller, and a computation that may raise one.
-- A message keeps the fixed words of its source line; what an f-string puts in is left out.
use dvk_claude.Common.{◌≡◌, refl, subst, Bool, true, false, String, if◌then◌else◌}

pub data Error : Type 0 where
  controller_error : String → Error
  stale_result : String → Error
  gate_conflict : String → Error
  value_error : String → Error
  -- a missing key, an operand of the wrong type, a violated constraint of the database
  key_error : Error
  type_error : Error
  integrity_error : Error

pub data Result {ℓ} (A : Type ℓ) : Type ℓ where
  ok : A → Result A
  err : Error → Result A

infixl 5 ◌>>=◌ ◌>>◌
-- Shut, so that a block keeps its shape in proofs; a test lists it to run the block.
unfoldable pub ◌>>=◌ {ℓ κ} : {A : Type ℓ} {B : Type κ} → Result A → (A → Result B) → Result B
ok found >>= rest = rest found
err raised >>= rest = err raised

abbrev pub ◌>>◌ {ℓ} : {B : Type ℓ} → Result (Unit {0}) → Result B → Result B
check >> rest = check >>= λ _. rest

-- `if test: raise e`
abbrev pub raise_if : Bool → Error → Result (Unit {0})
raise_if true e = err e
raise_if false e = ok tt

-- `except ValueError as exc: raise ControllerError(str(exc)) from exc`
abbrev pub as_controller_error {ℓ} : {A : Type ℓ} → Result A → Result A
as_controller_error (ok a) = ok a
as_controller_error (err (value_error m)) = err (controller_error m)
as_controller_error (err e) = err e

abbrev pub IsOk {ℓ} : {A : Type ℓ} → Result A → Type 0
IsOk (ok a) = Unit {0}
IsOk (err e) = ⊥

pub IsOk-eq-ok {ℓ} : {A : Type ℓ} (r : Result A) → IsOk r → (a : A) × (r ≡ ok a)
IsOk-eq-ok (ok a) h = (a, refl)
IsOk-eq-ok (err e) h = absurd h

module _ {ℓ κ} {A : Type ℓ} {B : Type κ} where
  -- A block that returned has returned from each of its steps.
  pub >>=-eq-ok :
      (first : Result A) {returned : B} (rest : A → Result B)
      → (first >>= rest) ≡ ok returned
      → (found : A) × (first ≡ ok found) × (rest found ≡ ok returned)
  unfolding ◌>>=◌
  >>=-eq-ok (ok found) rest e = (found, refl, e)
  >>=-eq-ok (err raised) rest e = cc

pub raise_if-eq-ok : (b : Bool) (e : Error) → raise_if b e ≡ ok tt → b ≡ false
raise_if-eq-ok true e h = cc
raise_if-eq-ok false e h = refl

-- What `r` returns, if it returns, satisfies `P`.
pub record Ensures {ℓ κ} {A : Type ℓ} (P : A → Type κ) (r : Result A) : Type (ℓ ⊔ κ) where
  pub holds : (a : A) → r ≡ ok a → P a

module _ {ℓ κ} {A : Type ℓ} {P : A → Type κ} where
  pub Ensures-ok : (a : A) → P a → Ensures P (ok a)
  Ensures-ok a p = record { holds = λ b e. subst P (cc) p }

  pub Ensures-err : (e : Error) → Ensures P (err e)
  Ensures-err e = record { holds = λ b h. absurd (cc) }

  pub Ensures-if :
      (b : Bool) (r s : Result A)
      → (b ≡ true → Ensures P r)
      → (b ≡ false → Ensures P s)
      → Ensures P (if b then r else s)
  Ensures-if true r s h k = h refl
  Ensures-if false r s h k = k refl

  pub Ensures-as_controller_error : (r : Result A) → Ensures P r → Ensures P (as_controller_error r)
  Ensures-as_controller_error (ok a) h = h
  Ensures-as_controller_error (err (value_error m)) h = Ensures-err (controller_error m)
  Ensures-as_controller_error (err (controller_error m)) h = h
  Ensures-as_controller_error (err _) h = h

module _ {ℓ κ μ} {A : Type ℓ} {B : Type κ} {P : B → Type μ} where
  -- The rest of a block may use that the first step returned.
  pub Ensures-bind :
      (m : Result A) (f : A → Result B)
      → ((a : A) → m ≡ ok a → Ensures P (f a))
      → Ensures P (m >>= f)
  unfolding ◌>>=◌
  Ensures-bind (ok a) f h = h a refl
  Ensures-bind (err e) f h = Ensures-err e
