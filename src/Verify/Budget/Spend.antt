-- ===== src/Verify/Budget/Spend.antt =====
-- What an action does to the budget, and when it ends in the fatal error.
use cryptography.Prelude.{ℕ, zero, suc, ◌≤◌, ◌≡◌, refl, arith}
use cryptography.Result.{ok, err}
use cryptography.Verify.Errors.{
  ValidationError, error, ValidationResult, candidates_exhausted, malformed, extension_error,
  fatal_error, other,
}
use cryptography.Verify.Budget.{
  Budget, Spending, continue, lift, check_with, name_constraint_check, ◌>>=◌,
}

module _ {E A : Type 0} where
  -- The result is the error that ends the whole search.
  abbrev pub IsFatal : ValidationResult E A → Type 0
  IsFatal (err (error (fatal_error m) c)) = Unit
  IsFatal (ok a) = ⊥
  IsFatal (err (error _ c)) = ⊥

  -- An action never adds to the budget, and fails fatally only when it has used all of it.
  pub record IsFrugal (m : Spending E A) : Type 0 where
    pub spends : (b : Budget) → (m b).1.name_constraint_checks ≤ b.name_constraint_checks
    pub fatal_exhausts : (b : Budget) → IsFatal (m b).0 → (m b).1.name_constraint_checks ≡ 0

  pub IsFrugal-lift : (r : ValidationResult E A) → ¬ IsFatal r → IsFrugal (lift r)
  IsFrugal-lift r h = record { spends = λ b. omega arith; fatal_exhausts = λ b f. absurd (h f) }

module _ {E : Type 0} where
  pub IsFrugal-check : IsFrugal (name_constraint_check {E = E})
  unfolding name_constraint_check
  IsFrugal-check = record {
    spends = λ b. spent b.name_constraint_checks;
    fatal_exhausts = λ b. used b.name_constraint_checks;
  }
    where
      spent : (n : ℕ) → (check_with {E = E} n).1.name_constraint_checks ≤ n
      spent zero = omega arith
      spent (suc n) = omega arith

      used :
          (n : ℕ)
          → IsFatal (check_with {E = E} n).0
          → (check_with {E = E} n).1.name_constraint_checks ≡ 0
      used zero f = refl
      used (suc n) f = absurd f

pub IsFatal-error_at :
    (A B : Type 0) {E : Type 0} (e : ValidationError E)
    → IsFatal {A = B} (err e)
    → IsFatal {A = A} (err e)
IsFatal-error_at A B (error (fatal_error m) c) f = tt
IsFatal-error_at A B (error (candidates_exhausted _) c) f = f
IsFatal-error_at A B (error (malformed _) c) f = f
IsFatal-error_at A B (error (extension_error _ _) c) f = f
IsFatal-error_at A B (error (other _) c) f = f

module _ {E A B : Type 0} where
  continue_spends :
      (r : ValidationResult E A) (f : A → Spending E B) (b : Budget)
      → ((a : A) → IsFrugal (f a))
      → (continue r f b).1.name_constraint_checks ≤ b.name_constraint_checks
  continue_spends (ok a) f b k = (k a).spends b
  continue_spends (err e) f b k = omega arith

  continue_fatal :
      (r : ValidationResult E A) (f : A → Spending E B) (b : Budget)
      → ((a : A) → IsFrugal (f a))
      → (IsFatal r → b.name_constraint_checks ≡ 0)
      → IsFatal (continue r f b).0
      → (continue r f b).1.name_constraint_checks ≡ 0
  continue_fatal (ok a) f b k h t = (k a).fatal_exhausts b t
  continue_fatal (err e) f b k h t = h (IsFatal-error_at A B e t)

  pub IsFrugal-bind :
      (m : Spending E A) (f : A → Spending E B)
      → IsFrugal m
      → ((a : A) → IsFrugal (f a))
      → IsFrugal (m >>= f)
  unfolding ◌>>=◌
  IsFrugal-bind m f km kf = record {
    spends = λ b. omega (arith, km.spends b, continue_spends (m b).0 f (m b).1 kf);
    fatal_exhausts = λ b. continue_fatal (m b).0 f (m b).1 kf (km.fatal_exhausts b);
  }

  continue-eq-ok :
      (r : ValidationResult E A) (f : A → Spending E B) (b : Budget) {y : B}
      → (continue r f b).0 ≡ ok y
      → (a : A) × (r ≡ ok a) × ((f a b).0 ≡ ok y)
  continue-eq-ok (ok a) f b h = (a, refl, h)
  continue-eq-ok (err e) f b h = cc

  -- Inversion of a sequence that succeeds.
  pub bind-eq-ok :
      (m : Spending E A) (f : A → Spending E B) (b : Budget) {y : B}
      → ((m >>= f) b).0 ≡ ok y
      → (a : A) × ((m b).0 ≡ ok a) × ((f a (m b).1).0 ≡ ok y)
  unfolding ◌>>=◌
  bind-eq-ok m f b h = continue-eq-ok (m b).0 f (m b).1 h
