-- ===== src/Verify/Chain/Steps.antt =====
-- What the success of one step of the builder says of the steps in it.
use mathlib.Core.Option.{some-injective}
use cryptography.Prelude.{
  ℕ, ◌+◌, ◌≡◌, refl, sym, ap, ◌∙◌, ◌⊎◌, inl, inr, Option, none, some, List, [], ◌∷◌, ◌++◌, ltb,
  Bool-cases,
}
use cryptography.Result.{ok, err, map_err-eq-ok, >>=-eq-ok, ok-injective}
use cryptography.Names.Ia5.{Ia5}
use cryptography.X509.Types.{NameConstraints}
use cryptography.X509.Certificate.{Certificate, Extension}
use cryptography.X509.Extensions.{Extensions}
use cryptography.Verify.Asn1.{Asn1}
use cryptography.Verify.Errors.{
  ValidationError, error, ValidationResult, candidates_exhausted, malformed, extension_error,
  fatal_error, other, of_parse_error,
}
use cryptography.Verify.Budget.{Budget, Spending, lift}
use cryptography.Verify.Budget.Spend.{bind-eq-ok}
use cryptography.Verify.NameChain.{NameChain, evaluate_constraints}
use cryptography.Verify.NameChain
use cryptography.Verify.NameChain.Sound.{AllowsChain, evaluate_constraints_sound}
use cryptography.Verify.Chain.{
  Build, checked_add_u8, cert_is_self_issued, after_issuer, recover, depth_of, attempt, check_names,
  descend,
}

pub check_names_sound :
    {E : Type 0} ⦃ia5 : Ia5⦄ ⦃asn1 : Asn1 E⦄ (o : Option Extension) (n : NameChain) (b : Budget)
    → (check_names {E = E} o n b).0 ≡ ok tt
    → (ext : Extension) → o ≡ some ext
    → (c : NameConstraints) × (asn1.name_constraints ext.extn_value ≡ ok c) × AllowsChain E c n
unfolding check_names
check_names_sound none n b h ext p = cc
check_names_sound {E = E} ⦃asn1 = asn1⦄ (some nc) n b h ext p =
    let (c, parsed, rest) =
      bind-eq-ok {E = E} (lift (of_parse_error (asn1.name_constraints nc.extn_value)))
        (evaluate_constraints n) b h in
    (
      c,
      ap (λ (e : Extension). asn1.name_constraints e.extn_value) (sym (some-injective _ _ p))
          ∙ map_err-eq-ok _ _ parsed,
      evaluate_constraints_sound n c _ rest,
    )

module _ {E : Type 0} where
  after_issuer-eq-ok :
      (w : Certificate) (next : ValidationError E → Spending E (List Certificate))
      (r : ValidationResult E (List Certificate)) (b : Budget) {chain : List Certificate}
      → (after_issuer w next r b).0 ≡ ok chain
      → ((below : List Certificate) × (r ≡ ok below) × (chain ≡ below ++ w ∷ []))
        ⊎ ((e : ValidationError E) × ((next e b).0 ≡ ok chain))
  unfolding after_issuer
  after_issuer-eq-ok w next (ok below) b h = inl (below, refl, cc)
  after_issuer-eq-ok w next (err (error (fatal_error m) c)) b h = cc
  after_issuer-eq-ok w next (err (error (candidates_exhausted e) c)) b h = inr (_, h)
  after_issuer-eq-ok w next (err (error (malformed e) c)) b h = inr (_, h)
  after_issuer-eq-ok w next (err (error (extension_error o s) c)) b h = inr (_, h)
  after_issuer-eq-ok w next (err (error (other m) c)) b h = inr (_, h)

  -- An attempt that succeeds does so below the candidate, or by another candidate.
  pub attempt-eq-ok :
      (call : ValidationResult E (Spending E (List Certificate))) (w : Certificate)
      (next : ValidationError E → Spending E (List Certificate)) (r : ValidationResult E (Unit {0}))
      (b : Budget) {chain : List Certificate}
      → (attempt call w next r b).0 ≡ ok chain
      → ((inner : Spending E (List Certificate)) × (below : List Certificate) × (r ≡ ok tt)
          × (call ≡ ok inner)
          × ((inner b).0 ≡ ok below)
          × (chain ≡ below ++ w ∷ []))
        ⊎ ((e : ValidationError E) × (b' : Budget) × ((next e b').0 ≡ ok chain))
  unfolding attempt recover
  attempt-eq-ok (ok inner) w next (ok u) b h =
      elim (after_issuer-eq-ok w next (inner b).0 (inner b).1 h) [
        | inl (below, e, c) ↦ inl (inner, below, refl, refl, e, c)
        | inr (e, k) ↦ inr (e, (inner b).1, k)
      ]
  attempt-eq-ok (err e) w next (ok u) b h = cc
  attempt-eq-ok (ok inner) w next (err e) b h = inr (e, b, h)
  attempt-eq-ok (err e') w next (err e) b h = inr (e, b, h)

depth_of-eq-ok :
    {E : Type 0} (d : ℕ) {d' : ℕ} → depth_of {E = E} (checked_add_u8 d 1) ≡ ok d' → d' ≡ d + 1
unfolding checked_add_u8
depth_of-eq-ok d h = elim (Bool-cases (ltb (d + 1) 256)) [
  | inl e ↦ cc (rw e at h)
  | inr e ↦ cc (rw e at h)
]

module _ {E : Type 0} ⦃asn1 : Asn1 E⦄ where
  pub descend-eq-ok :
      (inner : Build E) (i : Certificate) (y : Extensions) (d : ℕ) (n : NameChain)
      {call : Spending E (List Certificate)}
      → descend inner i y d n ≡ ok call
      → (m : NameChain) × (NameChain.new {E = E} (some n) y (cert_is_self_issued i) ≡ ok m)
        × (inner i (d + 1) y m ≡ call)
  unfolding descend
  descend-eq-ok inner i y d n h =
      let (d', deeper, k) = >>=-eq-ok (depth_of (checked_add_u8 d 1)) _ h in
      let (m, names, rest) =
        >>=-eq-ok (NameChain.new {E = E} (some n) y (cert_is_self_issued i)) _ k in
      (
        m,
        names,
        ap (λ (t : ℕ). inner i t y m) (sym (depth_of-eq-ok {E = E} d deeper)) ∙ ok-injective rest,
      )
