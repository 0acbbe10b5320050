-- ===== src/Base/Actions.antt =====
-- Operations that read and change a state and may fail: a Go method on a store or a service, whose
-- error is a value and whose earlier writes stay.
use Prim.Native.Nat.{ℕ}
use mathlib.Core.Path.{◌≡◌, refl}
use mathlib.Core.Logic.{◌⊎◌, inl, inr}
use mathlib.Core.Bool.{Bool, true, false}

pub data Result {ℓ} (E A : Type ℓ) : Type ℓ where
  ok : A → Result E A
  err : E → Result E A

-- To split on a computed result and keep the equation.
pub Result-cases {ℓ} :
    {E A : Type ℓ} (r : Result E A) → ((a : A) × (r ≡ ok a)) ⊎ ((e : E) × (r ≡ err e))
Result-cases (ok a) = inl (a, refl)
Result-cases (err e) = inr (e, refl)

abbrev pub Exec {ℓ} : Type ℓ → Type ℓ → Type ℓ → Type ℓ
Exec E S A = S → Result E A × S

module _ {ℓ} {E S A : Type ℓ} where
  abbrev pub pure : A → Exec E S A
  pure a s = (ok a, s)

  abbrev pub raise : E → Exec E S A
  raise e s = (err e, s)

  abbrev pub lift : Result E A → Exec E S A
  lift r s = (r, s)

module _ {ℓ} {E S A B : Type ℓ} where
  abbrev pub continue : Result E A → (A → Exec E S B) → Exec E S B
  continue (ok a) f s = f a s
  continue (err e) f s = (err e, s)

  infixl 10 ◌>>=◌ ◌>>◌
  abbrev pub ◌>>=◌ : Exec E S A → (A → Exec E S B) → Exec E S B
  ◌>>=◌ m f s = let (r, s') = m s in continue r f s'

  abbrev pub ◌>>◌ : Exec E S A → Exec E S B → Exec E S B
  ◌>>◌ m k s = let (r, s') = m s in continue r (λ _. k) s'

-- Whether the calls of the store that an operation makes fail, by their place in the code. A call
-- that fails is rolled back by the database and changes nothing.
abbrev pub Faults : Type 0
Faults = ℕ → Bool

-- How a statement fails by itself: it breaks a constraint, or the row that it must read is missing.
pub data StoreError : Type 0 where
  constraint_violation row_missing : StoreError

abbrev pub relabel : {E A : Type 0} → E → Result StoreError A → Result E A
relabel e (ok a) = ok a
relabel e (err _) = err e

-- A call of the store by a service: it fails as the schedule says, or as the store does, with the
-- error that the service returns in either case.
abbrev pub call : {E S A : Type 0} → Bool → E → Exec StoreError S A → Exec E S A
call true e op s = (err e, s)
call false e op s = let (r, s') = op s in (relabel e r, s')

-- `_ = call(...)`: the error is dropped.
abbrev pub call_quietly : {S A : Type 0} → Bool → Exec StoreError S A → S → S
call_quietly true op s = s
call_quietly false op s = let (r, s') = op s in s'

abbrev pub no_faults : Faults
no_faults _ = false
