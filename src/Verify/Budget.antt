-- ===== src/Verify/Budget.antt =====
-- src/rust/cryptography-x509-verification/src/lib.rs: Budget, and the results of the functions
-- that take it by `&mut`: what was spent before an error stays spent.
pub mod Spend
use cryptography.Prelude.{ℕ, zero, suc, ◌^◌, Option}
use cryptography.Result.{Result, ok, err}
use cryptography.Verify.Errors.{ValidationError, ValidationResult, fatal_error, fail}

pub record Budget : Type 0 where
  pub name_constraint_checks : ℕ

abbrev pub default_name_constraint_check_limit : ℕ
default_name_constraint_check_limit = 2 ^ 20

abbrev pub new : Budget
new = record { name_constraint_checks = default_name_constraint_check_limit }

abbrev pub Spending : Type 0 → Type 0 → Type 0
Spending E A = Budget → ValidationResult E A × Budget

module _ {E : Type 0} where
  abbrev pub pure : {A : Type 0} → A → Spending E A
  pure a b = (ok a, b)

  abbrev pub lift : {A : Type 0} → ValidationResult E A → Spending E A
  lift r b = (r, b)

  abbrev pub continue : {A B : Type 0} → ValidationResult E A → (A → Spending E B) → Spending E B
  continue (ok a) f b = f a b
  continue (err e) f b = (err e, b)

  infixl 5 ◌>>=◌ ◌>>◌
  unfoldable pub ◌>>=◌ : {A B : Type 0} → Spending E A → (A → Spending E B) → Spending E B
  ◌>>=◌ m f b = let (r, b') = m b in continue r f b'

  abbrev pub ◌>>◌ : {B : Type 0} → Spending E (Unit {0}) → Spending E B → Spending E B
  m >> k = m >>= λ _. k

  -- checked_sub of one
  unfoldable pub check_with : ℕ → ValidationResult E (Unit {0}) × Budget
  check_with zero = (
    fail (fatal_error "Exceeded maximum name constraint check limit"),
    record { name_constraint_checks = zero },
  )
  check_with (suc n) = (ok tt, record { name_constraint_checks = n })

  unfoldable pub name_constraint_check : Spending E (Unit {0})
  unfolding check_with
  name_constraint_check b = check_with b.name_constraint_checks
