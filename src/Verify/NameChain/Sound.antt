-- ===== src/Verify/NameChain/Sound.antt =====
-- What it means that the name constraints of a certificate were evaluated with success.
use mathlib.Core.List.{Memᴰ}
use cryptography.Prelude.{◌≡◌, refl, ◌⊎◌, inl, inr, Bool, true, false, List, [], ◌∷◌, All}
use cryptography.Result.{ok}
use cryptography.Names.Ia5.{Ia5}
use cryptography.X509.Types.{GeneralName, GeneralSubtree, NameConstraints}
use cryptography.Verify.Errors.{fail, other, text}
use cryptography.Verify.Budget.{Budget, Spending, lift, pure, name_constraint_check}
use cryptography.Verify.Budget.Spend.{bind-eq-ok}
use cryptography.Verify.NameChain.{
  NameChain, leaf, above, ApplyNameConstraintStatus, applied, skipped, is_applied, is_match, judge,
  evaluate_single_constraint, permitted, excluded, subtrees, evaluate_san, evaluate_sans,
  evaluate_constraints,
}

module _ (E : Type 0) ⦃ia5 : Ia5⦄ where
  -- The subtree is of the name's kind, and matches it.
  abbrev pub Matches : GeneralName → GeneralSubtree → Type 0
  Matches san p = judge {E = E} p.base san ≡ ok (applied true)

  abbrev pub Skips : GeneralName → GeneralSubtree → Type 0
  Skips san p = judge {E = E} p.base san ≡ ok skipped

  abbrev pub Differs : GeneralName → GeneralSubtree → Type 0
  Differs san p =
      (s : ApplyNameConstraintStatus) × (judge {E = E} p.base san ≡ ok s) × (is_match s ≡ false)

  abbrev pub SomeMatches : GeneralName → List GeneralSubtree → Type 0
  SomeMatches san ps = (p : GeneralSubtree) × Memᴰ p ps × Matches san p

  -- What the loop has found when it ends with `true`.
  abbrev Found : GeneralName → List GeneralSubtree → Bool → Type 0
  Found san ps permit = ((permit ≡ true) × All (Skips san) ps) ⊎ SomeMatches san ps

  -- Some permitted subtree matches the name, or none is of its kind; no excluded one matches it.
  abbrev pub IsAllowed : NameConstraints → GeneralName → Type 0
  IsAllowed c san =
      (All (Skips san) (subtrees c.permitted_subtrees)
        ⊎ SomeMatches san (subtrees c.permitted_subtrees))
      × All (Differs san) (subtrees c.excluded_subtrees)

  -- Every name in the chain is allowed.
  abbrev pub AllowsChain : NameConstraints → NameChain → Type 0
  AllowsChain c (leaf sans) = All (IsAllowed c) sans
  AllowsChain c (above child sans) = AllowsChain c child × All (IsAllowed c) sans

module _ {E : Type 0} ⦃ia5 : Ia5⦄ where
  single_judge :
      (c san : GeneralName) (b : Budget) {s : ApplyNameConstraintStatus}
      → (evaluate_single_constraint {E = E} c san b).0 ≡ ok s
      → judge {E = E} c san ≡ ok s
  unfolding evaluate_single_constraint
  single_judge c san b h = (bind-eq-ok name_constraint_check (λ _. lift (judge c san)) b h).2

  abbrev pub next :
      GeneralName → List GeneralSubtree → Bool → ApplyNameConstraintStatus → Spending E Bool
  next san ps permit status = elim (is_applied status) [
    | true ↦ elim (is_match status) [ true ↦ pure true | false ↦ permitted san ps false ]
    | false ↦ permitted san ps permit
  ]

  Found-step :
      (san : GeneralName) (p : GeneralSubtree) (ps : List GeneralSubtree) (permit : Bool)
      (b : Budget)
      → ((permit : Bool) → (permitted {E = E} san ps permit b).0 ≡ ok true → Found E san ps permit)
      → (s : ApplyNameConstraintStatus) → judge {E = E} p.base san ≡ ok s
      → (next san ps permit s b).0 ≡ ok true
      → Found E san (p ∷ ps) permit
  Found-step san p ps permit b rest (applied true) j h = inr (p, Memᴰ.head refl, j)
  Found-step san p ps permit b rest (applied false) j h = elim (rest false h) [
    | inl (e, _) ↦ cc
    | inr (q, m, k) ↦ inr (q, Memᴰ.tail m, k)
  ]
  Found-step san p ps permit b rest skipped j h = elim (rest permit h) [
    | inl (e, k) ↦ inl (e, (j, k))
    | inr (q, m, k) ↦ inr (q, Memᴰ.tail m, k)
  ]

  permitted_sound :
      (san : GeneralName) (ps : List GeneralSubtree) (permit : Bool) (b : Budget)
      → (permitted {E = E} san ps permit b).0 ≡ ok true
      → Found E san ps permit
  unfolding permitted
  permitted_sound san [] permit b h = inl (cc, tt)
  permitted_sound san (p ∷ ps) permit b h =
      let (s, one, rest) =
        bind-eq-ok (evaluate_single_constraint p.base san) (next san ps permit) b h in
      Found-step san p ps permit (evaluate_single_constraint {E = E} p.base san b).1
        (λ t k. permitted_sound san ps t _ k) s (single_judge p.base san b one) rest

  abbrev pub refuse :
      GeneralName → List GeneralSubtree → ApplyNameConstraintStatus → Spending E (Unit {0})
  refuse san es status = elim (is_match status) [
    | true ↦ lift (fail (other (text "excluded name constraint matched SAN")))
    | false ↦ excluded san es
  ]

  refused_step :
      (san : GeneralName) (es : List GeneralSubtree) (b : Budget) (s : ApplyNameConstraintStatus)
      → (refuse san es s b).0 ≡ ok tt
      → (is_match s ≡ false) × ((excluded {E = E} san es b).0 ≡ ok tt)
  refused_step san es b (applied true) h = cc
  refused_step san es b (applied false) h = (refl, h)
  refused_step san es b skipped h = (refl, h)

  excluded_sound :
      (san : GeneralName) (es : List GeneralSubtree) (b : Budget)
      → (excluded {E = E} san es b).0 ≡ ok tt
      → All (Differs E san) es
  unfolding excluded
  excluded_sound san [] b h = tt
  excluded_sound san (e ∷ es) b h =
      let (s, one, rest) = bind-eq-ok (evaluate_single_constraint e.base san) (refuse san es) b h in
      let (d, more) =
        refused_step san es (evaluate_single_constraint {E = E} e.base san b).1 s rest in
      ((s, single_judge e.base san b one, d), excluded_sound san es _ more)

  abbrev pub verdict : NameConstraints → GeneralName → Bool → Spending E (Unit {0})
  verdict c san permit = elim permit [
    | true ↦ excluded san (subtrees c.excluded_subtrees)
    | false ↦ lift (fail (other (text "no permitted name constraints matched SAN")))
  ]

  evaluate_san_sound :
      (c : NameConstraints) (san : GeneralName) (b : Budget)
      → (evaluate_san {E = E} c san b).0 ≡ ok tt
      → IsAllowed E c san
  unfolding evaluate_san
  evaluate_san_sound c san b h =
      let (permit, one, rest) =
        bind-eq-ok (permitted san (subtrees c.permitted_subtrees) true) (verdict c san) b h in
      go permit one rest
    where
      go :
          (permit : Bool)
          → (permitted {E = E} san (subtrees c.permitted_subtrees) true b).0 ≡ ok permit
          → (verdict c san permit
              (permitted {E = E} san (subtrees c.permitted_subtrees) true b).1).0
            ≡ ok tt
          → IsAllowed E c san
      go true one rest = (
        elim (permitted_sound san (subtrees c.permitted_subtrees) true b one) [
          | inl (_, k) ↦ inl k
          | inr k ↦ inr k
        ],
        excluded_sound san (subtrees c.excluded_subtrees) _ rest,
      )
      go false one rest = cc

  evaluate_sans_sound :
      (c : NameConstraints) (sans : List GeneralName) (b : Budget)
      → (evaluate_sans {E = E} c sans b).0 ≡ ok tt
      → All (IsAllowed E c) sans
  unfolding evaluate_sans
  evaluate_sans_sound c [] b h = tt
  evaluate_sans_sound c (san ∷ sans) b h =
      let (u, one, rest) = bind-eq-ok (evaluate_san c san) (λ _. evaluate_sans c sans) b h in
      (evaluate_san_sound c san b one, evaluate_sans_sound c sans _ rest)

  -- If name constraints are evaluated on a chain of names with success, they allow every name of it.
  pub evaluate_constraints_sound :
      (chain : NameChain) (c : NameConstraints) (b : Budget)
      → (evaluate_constraints {E = E} chain c b).0 ≡ ok tt
      → AllowsChain E c chain
  unfolding evaluate_constraints
  evaluate_constraints_sound (leaf sans) c b h = evaluate_sans_sound c sans b h
  evaluate_constraints_sound (above child sans) c b h =
      let (u, one, rest) =
        bind-eq-ok (evaluate_constraints child c) (λ _. evaluate_sans c sans) b h in
      (evaluate_constraints_sound child c b one, evaluate_sans_sound c sans _ rest)
