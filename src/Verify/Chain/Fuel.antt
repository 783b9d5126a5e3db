-- ===== src/Verify/Chain/Fuel.antt =====
-- The fuel of `build_chain_inner` never runs out.
use mathlib.Core.Path.{ap₂, fun_ext}
use cryptography.Prelude.{
  ℕ, zero, suc, ◌+◌, ◌≤◌, ◌<◌, ◌≡◌, refl, ap, ◌∙◌, inl, inr, Option, none, some, List, [], ◌∷◌,
  arith, if◌then◌else◌, ltb, Option-cases,
}
use cryptography.Result.{ok, ◌>>=◌ as ◌>>=?◌}
use cryptography.Names.Ia5.{Ia5}
use cryptography.X509.Certificate.{Certificate}
use cryptography.X509.Extensions.{Extensions, extensions, get_extension}
use cryptography.X509.Oid.{name_constraints_oid}
use cryptography.Verify.Asn1.{Asn1}
use cryptography.Verify.Errors.{ValidationError, ValidationResult, of_duplicate, fail, other, text}
use cryptography.Verify.Budget.{Spending, pure, lift, ◌>>=◌, ◌>>◌}
use cryptography.Verify.NameChain.{NameChain}
use cryptography.Verify.NameChain
use cryptography.Verify.Store.{Store, contains}
use cryptography.Verify.Policy.Base.{CryptoOps}
use cryptography.Verify.Policy.{PolicyDefinition, valid_issuer}
use cryptography.Verify.Chain.{
  Build, checked_add_u8, cert_is_self_issued, potential_issuers, attempt, descend, candidates,
  extend, build_step, build_chain_inner, check_names, out_of_fuel,
}

-- The two functions agree on the calls that a certificate at depth `d` makes.
abbrev AgreeBelow : {E : Type 0} → Build E → Build E → ℕ → Type 0
AgreeBelow f g d =
    (d' : ℕ)
    → checked_add_u8 d 1 ≡ some d'
    → (c : Certificate) (e : Extensions) (n : NameChain) → f c d' e n ≡ g c d' e n

module _ {E : Type 0} ⦃asn1 : Asn1 E⦄ where
  descend_congr :
      (f g : Build E) (d : ℕ)
      → AgreeBelow f g d
      → (c : Certificate) (e : Extensions) (n : NameChain) → descend f c e d n ≡ descend g c e d n
  unfolding descend
  descend_congr f g d agree c e n = elim (Option-cases (checked_add_u8 d 1)) [
    | inl none_left ↦ rw none_left refl
    | inr r ↦ rw r.1 (
        ap
          (λ (k : NameChain → ValidationResult E (Spending E (List Certificate))).
            NameChain.new (some n) e (cert_is_self_issued c) >>=? k)
          (fun_ext λ m. ap ok (agree r.0 r.1 c e m)))
  ]

step_lt : (d d' : ℕ) → checked_add_u8 d 1 ≡ some d' → (d' ≡ d + 1) × (d' < 256)
unfolding checked_add_u8
step_lt d d' h = ground (arith, h)

module _ {E : Type 0} ⦃ia5 : Ia5⦄ ⦃asn1 : Asn1 E⦄ {K : Type 0} (ops : CryptoOps K)
    (intermediates : List Certificate) (policy : PolicyDefinition E) (store : Store) where
  candidates_congr :
      (f g : Build E) (d : ℕ)
      → AgreeBelow f g d
      → (w : Certificate) (n : NameChain) (last : Option (ValidationError E))
        (cs : List Certificate)
      → candidates ops intermediates policy store f w d n last cs
        ≡ candidates ops intermediates policy store g w d n last cs
  unfolding candidates
  candidates_congr f g d agree w n last [] = refl
  candidates_congr f g d agree w n last (c ∷ cs) =
      ap
        (λ (k : Extensions → Spending E (List Certificate)).
          lift (of_duplicate (extensions c)) >>= k)
        (fun_ext λ e.
          ap₂
            (λ (call : ValidationResult E (Spending E (List Certificate)))
                (next : ValidationError E → Spending E (List Certificate)).
              attempt call w next (valid_issuer ops policy c w d e))
            (descend_congr f g d agree c e n)
            (fun_ext λ x. candidates_congr f g d agree w n (some x) cs))

  extend_congr :
      (f g : Build E) (d : ℕ)
      → AgreeBelow f g d
      → (w : Certificate) (n : NameChain)
      → extend ops intermediates policy store f w d n
        ≡ extend ops intermediates policy store g w d n
  unfolding extend
  extend_congr f g d agree w n =
      ap
        (λ (rest : Spending E (List Certificate)).
          if contains store w
          then pure (w ∷ [])
          else if ltb policy.base.max_chain_depth d
          then lift (fail (other (text "chain construction exceeds max depth")))
          else rest)
        (candidates_congr f g d agree w n none (potential_issuers store intermediates w))

  build_step_congr :
      (f g : Build E) (d : ℕ)
      → AgreeBelow f g d
      → (w : Certificate) (x : Extensions) (n : NameChain)
      → build_step ops intermediates policy store f w d x n
        ≡ build_step ops intermediates policy store g w d x n
  unfolding build_step
  build_step_congr f g d agree w x n =
      ap
        (λ (rest : Spending E (List Certificate)).
          check_names (get_extension x name_constraints_oid) n >> rest)
        (extend_congr f g d agree w n)

  -- The recursion with `base` in place of the error for fuel that has run out.
  abbrev pub build_over : Build E → ℕ → Build E
  build_over base zero = base
  build_over base (suc fuel) = build_step ops intermediates policy store (build_over base fuel)

  build_over-agree :
      (a b : Build E) (f g d : ℕ) (w : Certificate) (x : Extensions) (n : NameChain)
      → d < 256
      → 256 ≤ f + d
      → 256 ≤ g + d
      → build_over a f w d x n ≡ build_over b g w d x n
  build_over-agree a b zero g d w x n h p q = absurd (omega arith)
  build_over-agree a b (suc f) zero d w x n h p q = absurd (omega arith)
  build_over-agree a b (suc f) (suc g) d w x n h p q =
      build_step_congr (build_over a f) (build_over b g) d
        (λ d' e c y m.
          build_over-agree a b f g d' c y m (step_lt d d' e).1 (omega (arith, step_lt d d' e))
            (omega (arith, step_lt d d' e)))
        w x n

  build_chain_inner-over :
      (f : ℕ) → build_chain_inner ops intermediates policy store f ≡ build_over out_of_fuel f
  unfolding build_chain_inner
  build_chain_inner-over zero = refl
  build_chain_inner-over (suc f) =
      ap (build_step ops intermediates policy store) (build_chain_inner-over f)

  -- At depth `d` < 256, with fuel of at least 256 - d rounds, `build_chain_inner` gives the same result
  -- as with any other such fuel and with any function `base` in place of the error for fuel that has
  -- run out: that error has no part in the result.
  pub build_chain_inner_fuel :
      (base : Build E) (f g d : ℕ) (w : Certificate) (x : Extensions) (n : NameChain)
      → d < 256
      → 256 ≤ f + d
      → 256 ≤ g + d
      → build_chain_inner ops intermediates policy store f w d x n ≡ build_over base g w d x n
  build_chain_inner_fuel base f g d w x n h p q =
      ap (λ (build : Build E). build w d x n) (build_chain_inner-over f)
      ∙ build_over-agree out_of_fuel base f g d w x n h p q
