-- ===== src/Verify/NameChain/Frugal.antt =====
-- The budget that the evaluation of name constraints spends.
use cryptography.Prelude.{Bool, true, false, Option, none, some, List, [], ◌∷◌}
use cryptography.Result.{ok}
use cryptography.Names.Ia5.{Ia5}
use cryptography.Names.Dns
use cryptography.Names.Ip
use cryptography.Names.Rfc822
use cryptography.X509.Types.{
  GeneralName, other_name, rfc822_name, dns_name, x400_address, directory_name, edi_party_name,
  uniform_resource_identifier, ip_address, registered_id, GeneralSubtree, NameConstraints,
}
use cryptography.Verify.Errors.{Message, fail, other}
use cryptography.Verify.Budget.{pure, lift, name_constraint_check}
use cryptography.Verify.Budget.Spend.{
  IsFatal, IsFrugal, IsFrugal-lift, IsFrugal-check, IsFrugal-bind,
}
use cryptography.Verify.NameChain.{
  NameChain, leaf, above, ApplyNameConstraintStatus, applied, skipped, judge,
  evaluate_single_constraint, permitted, excluded, subtrees, evaluate_san, evaluate_sans,
  evaluate_constraints,
}
use cryptography.Verify.NameChain
use cryptography.Verify.NameChain.Sound.{next, refuse, verdict}

module _ (E : Type 0) {C N : Type 0} where
  apply-gentle :
      (f : C → N → Bool) (s t : Message) (c : Option C) (n : Option N)
      → ¬ IsFatal (NameChain.apply {E = E} f s t c n)
  unfolding NameChain.apply
  apply-gentle f s t (some c) (some n) h = h
  apply-gentle f s t none (some n) h = h
  apply-gentle f s t none none h = h
  apply-gentle f s t (some c) none h = h

module _ (E : Type 0) ⦃ia5 : Ia5⦄ where
  judge-gentle : (c n : GeneralName) → ¬ IsFatal (judge {E = E} c n)
  unfolding judge
  judge-gentle (dns_name c) (dns_name n) h =
      apply-gentle E _ _ _ (Dns.new_constraint c) (Dns.new_pattern n) h
  judge-gentle (ip_address c) (ip_address n) h =
      apply-gentle E _ _ _ (Ip.constraint_from_bytes c) (Ip.from_bytes n) h
  judge-gentle (rfc822_name c) (rfc822_name n) h =
      apply-gentle E _ _ _ (Rfc822.new_constraint c) (Rfc822.new n) h
  judge-gentle (other_name _ _) (other_name _ _) h = h
  judge-gentle (x400_address _) (x400_address _) h = h
  judge-gentle (directory_name _) (directory_name _) h = h
  judge-gentle (edi_party_name _) (edi_party_name _) h = h
  judge-gentle (uniform_resource_identifier _) (uniform_resource_identifier _) h = h
  judge-gentle (registered_id _) (registered_id _) h = h
  judge-gentle _ _ h = h

module _ {E : Type 0} ⦃ia5 : Ia5⦄ where
  single-IsFrugal : (c n : GeneralName) → IsFrugal (evaluate_single_constraint {E = E} c n)
  unfolding evaluate_single_constraint
  single-IsFrugal c n =
      IsFrugal-bind name_constraint_check (λ _. lift (judge c n)) IsFrugal-check
        (λ _. IsFrugal-lift (judge c n) (judge-gentle E c n))

  pub pure-IsFrugal : {A : Type 0} (a : A) → IsFrugal (pure {E = E} a)
  pure-IsFrugal a = IsFrugal-lift (ok a) (λ f. f)

  pub permitted-IsFrugal :
      (san : GeneralName) (ps : List GeneralSubtree) (permit : Bool)
      → IsFrugal (permitted {E = E} san ps permit)
  unfolding permitted
  permitted-IsFrugal san [] permit = pure-IsFrugal permit
  permitted-IsFrugal san (p ∷ ps) permit =
      IsFrugal-bind (evaluate_single_constraint p.base san) (next san ps permit)
        (single-IsFrugal p.base san) (by_status (λ q. permitted-IsFrugal san ps q))
    where
      by_status :
          ((q : Bool) → IsFrugal (permitted {E = E} san ps q))
          → (s : ApplyNameConstraintStatus) → IsFrugal (next {E = E} san ps permit s)
      by_status rest (applied true) = pure-IsFrugal true
      by_status rest (applied false) = rest false
      by_status rest skipped = rest permit

  pub other-IsFrugal : {A : Type 0} (m : Message) → IsFrugal (lift {E = E} {A = A} (fail (other m)))
  other-IsFrugal m = IsFrugal-lift (fail (other m)) (λ f. f)

  excluded-IsFrugal :
      (san : GeneralName) (es : List GeneralSubtree) → IsFrugal (excluded {E = E} san es)
  unfolding excluded
  excluded-IsFrugal san [] = pure-IsFrugal tt
  excluded-IsFrugal san (e ∷ es) =
      IsFrugal-bind (evaluate_single_constraint e.base san) (refuse san es)
        (single-IsFrugal e.base san) (by_status (excluded-IsFrugal san es))
    where
      by_status :
          IsFrugal (excluded {E = E} san es)
          → (s : ApplyNameConstraintStatus) → IsFrugal (refuse {E = E} san es s)
      by_status rest (applied true) = other-IsFrugal _
      by_status rest (applied false) = rest
      by_status rest skipped = rest

  evaluate_san-IsFrugal :
      (c : NameConstraints) (san : GeneralName) → IsFrugal (evaluate_san {E = E} c san)
  unfolding evaluate_san
  evaluate_san-IsFrugal c san =
      IsFrugal-bind (permitted san (subtrees c.permitted_subtrees) true) (verdict c san)
        (permitted-IsFrugal san (subtrees c.permitted_subtrees) true) by_permit
    where
      by_permit : (permit : Bool) → IsFrugal (verdict {E = E} c san permit)
      by_permit true = excluded-IsFrugal san (subtrees c.excluded_subtrees)
      by_permit false = other-IsFrugal _

  evaluate_sans-IsFrugal :
      (c : NameConstraints) (sans : List GeneralName) → IsFrugal (evaluate_sans {E = E} c sans)
  unfolding evaluate_sans
  evaluate_sans-IsFrugal c [] = pure-IsFrugal tt
  evaluate_sans-IsFrugal c (san ∷ sans) =
      IsFrugal-bind (evaluate_san c san) (λ _. evaluate_sans c sans) (evaluate_san-IsFrugal c san)
        (λ _. evaluate_sans-IsFrugal c sans)

  pub evaluate_constraints-IsFrugal :
      (chain : NameChain) (c : NameConstraints) → IsFrugal (evaluate_constraints {E = E} chain c)
  unfolding evaluate_constraints
  evaluate_constraints-IsFrugal (leaf sans) c = evaluate_sans-IsFrugal c sans
  evaluate_constraints-IsFrugal (above child sans) c =
      IsFrugal-bind (evaluate_constraints child c) (λ _. evaluate_sans c sans)
        (evaluate_constraints-IsFrugal child c) (λ _. evaluate_sans-IsFrugal c sans)
