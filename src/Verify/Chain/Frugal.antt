-- ===== src/Verify/Chain/Frugal.antt =====
-- The budget that chain building spends, and when it ends in the fatal error.
use cryptography.Prelude.{
  ℕ, zero, suc, ◌≤◌, ◌≡◌, inl, inr, Bool, false, Option, none, some, List, [], ◌∷◌, arith, ltb,
  Bool-cases,
}
use cryptography.Result.{Result, ok, err, ◌>>=◌ as ◌>>=?◌}
use cryptography.Names.Ia5.{Ia5}
use cryptography.X509.Types.{GeneralName}
use cryptography.X509.Certificate.{Certificate, Extension}
use cryptography.X509.Extensions.{Extensions, DuplicateExtensionsError, extensions, get_extension}
use cryptography.X509.Oid.{name_constraints_oid, subject_alternative_name_oid}
use cryptography.Verify.Asn1.{Asn1}
use cryptography.Verify.Errors.{
  ValidationError, error, ValidationResult, candidates_exhausted, malformed, extension_error,
  fatal_error, other, of_parse_error, of_duplicate,
}
use cryptography.Verify.Budget.{Budget, Spending, lift}
use cryptography.Verify.Budget.Spend.{
  IsFatal, IsFrugal, IsFrugal-lift, IsFrugal-bind, IsFatal-error_at,
}
use cryptography.Verify.NameChain.{
  NameChain, leaf, above, ApplyNameConstraintStatus, applied, skipped, is_applied, is_match, judge,
  evaluate_single_constraint, permitted, excluded, subtrees, evaluate_san, evaluate_sans,
  evaluate_constraints,
}
use cryptography.Verify.NameChain
use cryptography.Verify.NameChain.Frugal.{
  pure-IsFrugal, other-IsFrugal, evaluate_constraints-IsFrugal,
}
use cryptography.Verify.Store.{Store, contains}
use cryptography.Verify.Policy.Base.{CryptoOps}
use cryptography.Verify.Policy.{PolicyDefinition, valid_issuer}
use cryptography.Verify.Chain.{
  Build, checked_add_u8, cert_is_self_issued, potential_issuers, exhausted, after_issuer, recover,
  depth_of, attempt, check_names, descend, candidates, extend, build_step, build_chain_inner,
}

module _ {E A : Type 0} where
  parse_error-gentle : (r : Result E A) → ¬ IsFatal (of_parse_error r)
  parse_error-gentle (ok a) f = f
  parse_error-gentle (err e) f = f

module _ (E : Type 0) where
  duplicate-gentle :
      {A : Type 0} (r : Result DuplicateExtensionsError A) → ¬ IsFatal (of_duplicate {E = E} r)
  duplicate-gentle (ok a) f = f
  duplicate-gentle (err e) f = f

  depth-gentle : (o : Option ℕ) → ¬ IsFatal (depth_of {E = E} o)
  depth-gentle none f = f
  depth-gentle (some d) f = f

module _ {E : Type 0} where
  exhausted-gentle :
      (o : Option (ValidationError E)) → ¬ IsFatal {A = List Certificate} (err (exhausted o))
  unfolding exhausted
  exhausted-gentle none f = f
  exhausted-gentle (some (error (candidates_exhausted e) c)) f = f
  exhausted-gentle (some (error (malformed e) c)) f = f
  exhausted-gentle (some (error (extension_error o s) c)) f = f
  exhausted-gentle (some (error (fatal_error m) c)) f = f
  exhausted-gentle (some (error (other m) c)) f = f

  after_issuer-spends :
      (w : Certificate) (next : ValidationError E → Spending E (List Certificate))
      (r : ValidationResult E (List Certificate)) (b : Budget)
      → ((e : ValidationError E) → IsFrugal (next e))
      → (after_issuer w next r b).1.name_constraint_checks ≤ b.name_constraint_checks
  unfolding after_issuer
  after_issuer-spends w next (ok below) b k = omega arith
  after_issuer-spends w next (err (error (fatal_error m) c)) b k = omega arith
  after_issuer-spends w next (err (error (candidates_exhausted e) c)) b k = (k _).spends b
  after_issuer-spends w next (err (error (malformed e) c)) b k = (k _).spends b
  after_issuer-spends w next (err (error (extension_error o s) c)) b k = (k _).spends b
  after_issuer-spends w next (err (error (other m) c)) b k = (k _).spends b

  after_issuer-fatal :
      (w : Certificate) (next : ValidationError E → Spending E (List Certificate))
      (r : ValidationResult E (List Certificate)) (b : Budget)
      → ((e : ValidationError E) → IsFrugal (next e))
      → (IsFatal r → b.name_constraint_checks ≡ 0)
      → IsFatal (after_issuer w next r b).0
      → (after_issuer w next r b).1.name_constraint_checks ≡ 0
  unfolding after_issuer
  after_issuer-fatal w next (ok below) b k h f = absurd f
  after_issuer-fatal w next (err (error (fatal_error m) c)) b k h f = h tt
  after_issuer-fatal w next (err (error (candidates_exhausted e) c)) b k h f =
      (k _).fatal_exhausts b f
  after_issuer-fatal w next (err (error (malformed e) c)) b k h f = (k _).fatal_exhausts b f
  after_issuer-fatal w next (err (error (extension_error o s) c)) b k h f = (k _).fatal_exhausts b f
  after_issuer-fatal w next (err (error (other m) c)) b k h f = (k _).fatal_exhausts b f

  -- The call with its arguments is frugal, or they have an error that is not fatal.
  abbrev IsGentleCall : ValidationResult E (Spending E (List Certificate)) → Type 0
  IsGentleCall (ok call) = IsFrugal call
  IsGentleCall (err e) = ¬ IsFatal {A = List Certificate} (err e)

  attempt-IsFrugal :
      (call : ValidationResult E (Spending E (List Certificate))) (w : Certificate)
      (next : ValidationError E → Spending E (List Certificate)) (r : ValidationResult E (Unit {0}))
      → IsGentleCall call
      → ((e : ValidationError E) → IsFrugal (next e))
      → IsFrugal (attempt call w next r)
  unfolding attempt recover
  attempt-IsFrugal (ok call) w next (ok u) c k = record {
    spends = λ b. omega (arith, c.spends b, after_issuer-spends w next (call b).0 (call b).1 k);
    fatal_exhausts = λ b. after_issuer-fatal w next (call b).0 (call b).1 k (c.fatal_exhausts b);
  }
  attempt-IsFrugal (err e) w next (ok u) c k = IsFrugal-lift (err e) c
  attempt-IsFrugal (ok call) w next (err e) c k = k e
  attempt-IsFrugal (err e') w next (err e) c k = k e

  >>=-IsGentleCall :
      {A : Type 0} (r : ValidationResult E A)
      (f : A → ValidationResult E (Spending E (List Certificate)))
      → ¬ IsFatal r
      → ((a : A) → IsGentleCall (f a))
      → IsGentleCall (r >>=? f)
  >>=-IsGentleCall (ok a) f h k = k a
  >>=-IsGentleCall {A = A} (err e) f h k = λ t. h (IsFatal-error_at A (List Certificate) e t)

-- Every call of the function is frugal.
abbrev AllFrugal : {E : Type 0} → Build E → Type 0
AllFrugal inner =
    (c : Certificate) (d : ℕ) (x : Extensions) (n : NameChain) → IsFrugal (inner c d x n)

check_names-IsFrugal :
    {E : Type 0} ⦃ia5 : Ia5⦄ ⦃asn1 : Asn1 E⦄ (o : Option Extension) (n : NameChain)
    → IsFrugal (check_names {E = E} o n)
unfolding check_names
check_names-IsFrugal none n = pure-IsFrugal tt
check_names-IsFrugal ⦃asn1 = asn1⦄ (some nc) n =
    IsFrugal-bind (lift (of_parse_error (asn1.name_constraints nc.extn_value)))
      (evaluate_constraints n)
      (IsFrugal-lift _ (parse_error-gentle (asn1.name_constraints nc.extn_value)))
      (λ c. evaluate_constraints-IsFrugal n c)

module _ (E : Type 0) ⦃asn1 : Asn1 E⦄ where
  sans-gentle : (s : Bool) (o : Option Extension) → ¬ IsFatal (NameChain.sans_of {E = E} s o)
  unfolding NameChain.sans_of
  sans-gentle false (some e) = parse_error-gentle (asn1.subject_alternative_name e.extn_value)
  sans-gentle _ _ = parse_error-gentle (asn1.subject_alternative_name (0x30 ∷ 0x00 ∷ []))

  linked-gentle :
      (n : Option NameChain) (r : ValidationResult E (List GeneralName))
      → ¬ IsFatal r
      → ¬ IsFatal (NameChain.linked n r)
  linked-gentle n (ok s) h f = f
  linked-gentle n (err e) h f = h (IsFatal-error_at (List GeneralName) NameChain e f)

  names-gentle :
      (n : Option NameChain) (x : Extensions) (s : Bool) → ¬ IsFatal (NameChain.new {E = E} n x s)
  unfolding NameChain.new
  names-gentle n x s =
      linked-gentle n _ (sans-gentle s (get_extension x subject_alternative_name_oid))

module _ {E : Type 0} ⦃asn1 : Asn1 E⦄ where
  descend-IsGentleCall :
      (inner : Build E) (i : Certificate) (y : Extensions) (d : ℕ) (n : NameChain)
      → AllFrugal inner
      → IsGentleCall (descend inner i y d n)
  unfolding descend
  descend-IsGentleCall inner i y d n k =
      >>=-IsGentleCall (depth_of (checked_add_u8 d 1)) _ (depth-gentle E (checked_add_u8 d 1))
        (λ d'.
          >>=-IsGentleCall (NameChain.new {E = E} (some n) y (cert_is_self_issued i)) _
            (names-gentle E (some n) y (cert_is_self_issued i)) (λ m. k i d' y m))

module _ {E : Type 0} ⦃ia5 : Ia5⦄ ⦃asn1 : Asn1 E⦄ {K : Type 0} (ops : CryptoOps K)
    (intermediates : List Certificate) (policy : PolicyDefinition E) (store : Store) where
  candidates-IsFrugal :
      (inner : Build E) (w : Certificate) (d : ℕ) (n : NameChain)
      (last : Option (ValidationError E)) (cs : List Certificate)
      → AllFrugal inner
      → IsFrugal (candidates ops intermediates policy store inner w d n last cs)
  unfolding candidates
  candidates-IsFrugal inner w d n last [] k = IsFrugal-lift _ (exhausted-gentle last)
  candidates-IsFrugal inner w d n last (i ∷ cs) k =
      IsFrugal-bind (lift (of_duplicate {E = E} (extensions i))) _
        (IsFrugal-lift _ (duplicate-gentle E (extensions i)))
        (λ y.
          attempt-IsFrugal (descend inner i y d n) w
            (λ e. candidates ops intermediates policy store inner w d n (some e) cs)
            (valid_issuer ops policy i w d y) (descend-IsGentleCall inner i y d n k)
            (λ e. candidates-IsFrugal inner w d n (some e) cs k))

  extend-IsFrugal :
      (inner : Build E) (w : Certificate) (d : ℕ) (n : NameChain)
      → AllFrugal inner
      → IsFrugal (extend ops intermediates policy store inner w d n)
  unfolding extend
  extend-IsFrugal inner w d n k = elim (Bool-cases (contains store w)) [
    | inl trusted ↦ rw trusted (pure-IsFrugal (w ∷ []))
    | inr untrusted ↦ elim (Bool-cases (ltb policy.base.max_chain_depth d)) [
      | inl deep ↦ rw (untrusted, deep) (other-IsFrugal _)
      | inr shallow ↦
          rw (untrusted, shallow)
            (candidates-IsFrugal inner w d n none (potential_issuers store intermediates w) k)
    ]
  ]

  -- Building a chain never adds to the budget of name constraint checks, and ends in the fatal error
  -- only when it has used all of it.
  build_chain_inner-IsFrugal :
      (fuel : ℕ) (w : Certificate) (d : ℕ) (x : Extensions) (n : NameChain)
      → IsFrugal (build_chain_inner ops intermediates policy store fuel w d x n)
  unfolding build_chain_inner build_step
  build_chain_inner-IsFrugal zero w d x n = other-IsFrugal _
  build_chain_inner-IsFrugal (suc fuel) w d x n =
      IsFrugal-bind (check_names (get_extension x name_constraints_oid) n) _
        (check_names-IsFrugal (get_extension x name_constraints_oid) n)
        (λ _.
          extend-IsFrugal (build_chain_inner ops intermediates policy store fuel) w d n
            (build_chain_inner-IsFrugal fuel))
