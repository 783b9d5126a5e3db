-- ===== src/Verify/NameChain/Cost.antt =====
-- What the evaluation of name constraints takes off the budget at least.
use native.Mathlib.Nat.{add-mul}
use cryptography.Prelude.{
  ℕ, zero, suc, ◌+◌, ◌*◌, ◌≤◌, ◌≡◌, refl, arith, Bool, true, false, List, [], ◌∷◌, length,
}
use cryptography.Result.{ok, err}
use cryptography.Names.Ia5.{Ia5}
use cryptography.X509.Types.{GeneralName, GeneralSubtree, NameConstraints}
use cryptography.Verify.Errors.{ValidationResult, ValidationError}
use cryptography.Verify.Budget.{
  Budget, Spending, continue, lift, check_with, name_constraint_check, ◌>>=◌,
}
use cryptography.Verify.Budget.Spend.{IsFrugal}
use cryptography.Verify.NameChain.{
  NameChain, leaf, above, ApplyNameConstraintStatus, applied, skipped, judge,
  evaluate_single_constraint, permitted, excluded, subtrees, evaluate_san, evaluate_sans,
  evaluate_constraints,
}
use cryptography.Verify.NameChain.Frugal.{permitted-IsFrugal}
use cryptography.Verify.NameChain.Sound.{refuse, verdict}

module _ {E : Type 0} where
  -- An action that succeeds takes at least `k` checks off the budget.
  abbrev Costs : {A : Type 0} → Spending E A → ℕ → Type 0
  Costs {A} m k =
      (b : Budget) (a : A)
      → (m b).0 ≡ ok a
      → (m b).1.name_constraint_checks + k ≤ b.name_constraint_checks

  Costs-frugal : {A : Type 0} (m : Spending E A) → IsFrugal m → Costs m 0
  Costs-frugal m f b a h = omega (arith, f.spends b)

  Costs-err : {A : Type 0} (e : ValidationError E) (k : ℕ) → Costs (lift {A = A} (err e)) k
  Costs-err e k b a h = cc

  continue-cost :
      {A B : Type 0} (r : ValidationResult E A) (f : A → Spending E B) (b : Budget) (y : B)
      (j k left : ℕ)
      → ((a : A) → r ≡ ok a → b.name_constraint_checks + j ≤ left)
      → ((a : A) → Costs (f a) k)
      → (continue r f b).0 ≡ ok y
      → (continue r f b).1.name_constraint_checks + (j + k) ≤ left
  continue-cost (ok a) f b y j k left first rest h = omega (arith, first a refl, rest a b y h)
  continue-cost (err e) f b y j k left first rest h = cc

  Costs-bind :
      {A B : Type 0} (m : Spending E A) (f : A → Spending E B) (j k : ℕ)
      → Costs m j
      → ((a : A) → Costs (f a) k)
      → Costs (m >>= f) (j + k)
  unfolding ◌>>=◌
  Costs-bind m f j k first rest b y h =
      continue-cost (m b).0 f (m b).1 y j k b.name_constraint_checks (first b) rest h

  check-cost : Costs (name_constraint_check {E = E}) 1
  unfolding name_constraint_check
  check-cost b a h = one b.name_constraint_checks h
    where
      one :
          (n : ℕ)
          → (check_with {E = E} n).0 ≡ ok a
          → (check_with {E = E} n).1.name_constraint_checks + 1 ≤ n
      one zero h = cc
      one (suc n) h = omega arith

-- The names of a chain.
abbrev pub count_names : NameChain → ℕ
count_names (leaf sans) = length sans
count_names (above child sans) = count_names child + length sans

module _ {E : Type 0} ⦃ia5 : Ia5⦄ where
  single-cost : (c n : GeneralName) → Costs (evaluate_single_constraint {E = E} c n) 1
  unfolding evaluate_single_constraint
  single-cost c n =
      Costs-bind name_constraint_check (λ _. lift (judge c n)) 1 0 check-cost
        (λ _ b a h. omega arith)

  excluded-cost :
      (san : GeneralName) (es : List GeneralSubtree) → Costs (excluded {E = E} san es) (length es)
  unfolding excluded
  excluded-cost san [] b a h = omega arith
  excluded-cost san (e ∷ es) b a h = omega (
    arith,
    Costs-bind (evaluate_single_constraint e.base san) (refuse san es) 1 (length es)
        (single-cost e.base san) (by_status (excluded-cost san es)) b a h,
  )
    where
      by_status :
          Costs (excluded {E = E} san es) (length es)
          → (s : ApplyNameConstraintStatus) → Costs (refuse {E = E} san es s) (length es)
      by_status rest (applied true) = Costs-err _ (length es)
      by_status rest (applied false) = rest
      by_status rest skipped = rest

  evaluate_san-cost :
      (c : NameConstraints) (san : GeneralName)
      → Costs (evaluate_san {E = E} c san) (length (subtrees c.excluded_subtrees))
  unfolding evaluate_san
  evaluate_san-cost c san b a h =
      let k = length (subtrees c.excluded_subtrees) in
      omega (
        arith,
        Costs-bind (permitted san (subtrees c.permitted_subtrees) true) (verdict c san) 0 k
            (Costs-frugal _ (permitted-IsFrugal san (subtrees c.permitted_subtrees) true)) by_permit
            b a h,
      )
    where
      by_permit :
          (permit : Bool)
          → Costs (verdict {E = E} c san permit) (length (subtrees c.excluded_subtrees))
      by_permit true = excluded-cost san (subtrees c.excluded_subtrees)
      by_permit false = Costs-err _ _

  evaluate_sans-cost :
      (c : NameConstraints) (sans : List GeneralName)
      → Costs (evaluate_sans {E = E} c sans) (length sans * length (subtrees c.excluded_subtrees))
  unfolding evaluate_sans
  evaluate_sans-cost c [] b a h = omega arith
  evaluate_sans-cost c (san ∷ sans) b a h =
      let k = length (subtrees c.excluded_subtrees) in
      omega (
        arith,
        add-mul 1 (length sans) k,
        Costs-bind (evaluate_san c san) (λ _. evaluate_sans c sans) k (length sans * k)
            (evaluate_san-cost c san) (λ _. evaluate_sans-cost c sans) b a h,
      )

  -- If name constraints are evaluated on a chain of names with success, the budget has lost at least
  -- one check for each pair of a name of the chain and an excluded subtree. So there are not more of
  -- these pairs than the budget had checks.
  pub evaluate_constraints-cost :
      (chain : NameChain) (c : NameConstraints) (b : Budget)
      → (evaluate_constraints {E = E} chain c b).0 ≡ ok tt
      → (evaluate_constraints {E = E} chain c b).1.name_constraint_checks
          + count_names chain * length (subtrees c.excluded_subtrees)
        ≤ b.name_constraint_checks
  unfolding evaluate_constraints
  evaluate_constraints-cost (leaf sans) c b h = evaluate_sans-cost c sans b tt h
  evaluate_constraints-cost (above child sans) c b h =
      let k = length (subtrees c.excluded_subtrees) in
      omega (
        arith,
        add-mul (count_names child) (length sans) k,
        Costs-bind (evaluate_constraints child c) (λ _. evaluate_sans c sans)
            (count_names child * k) (length sans * k)
            (λ b u h. evaluate_constraints-cost child c b h) (λ _. evaluate_sans-cost c sans) b tt
            h,
      )
