-- ===== src/Verify/Policy/Validators/Permits.antt =====
-- When an extension policy accepts the extensions of a certificate.
use cryptography.Prelude.{
  ◌≡◌, refl, sym, ap, ◌∙◌, ◌↔◌, inl, inr, Bool, true, false, ◌||◌, Option, none, some, List, [],
  ◌∷◌, arith, Bool-cases,
}
use cryptography.Result.{ok, >>=-eq-ok, >>-eq-ok}
use cryptography.X509.Certificate.{Certificate, Extension}
use cryptography.X509.Extensions.{Extensions, iter}
use cryptography.Verify.Policy.Base.{PolicyBase}
use cryptography.Verify.Policy.Validators.{
  ExtensionPolicy, validator_permits, Known, known, same_known, Seen, mark, validator, run_one,
  run_each, check_absent, check_all_absent, permits, Known-discrete, authority_information_access,
  authority_key_identifier, subject_key_identifier, key_usage, subject_alternative_name,
  basic_constraints, name_constraints, extended_key_usage,
}

pub same_known_iff : (x y : Known) → (same_known x y ≡ true) ↔ (x ≡ y)
unfolding same_known
same_known_iff x y =
    elim (Known-discrete x y) as (λ d. (elim d [ yes p ↦ true | no p ↦ false ] ≡ true) ↔ (x ≡ y)) [
      | yes p ↦ (λ _. p, λ _. refl)
      | no p ↦ (λ h. cc, λ e. absurd (p e))
    ]

module _ {E : Type 0} (self : ExtensionPolicy E) (policy : PolicyBase) (cert : Certificate) where
  -- One extension is accepted: by its validator if the policy knows it, else if it is not critical.
  abbrev pub AcceptsAs : Option Known → Extension → Type 0
  AcceptsAs (some x) ext = validator_permits (validator self x) policy cert (some ext) ≡ ok tt
  AcceptsAs none ext = ext.critical ≡ false

  abbrev pub Accepts : Extension → Type 0
  Accepts ext = AcceptsAs (known ext.extn_id) ext

  abbrev pub AcceptsAll : List Extension → Type 0
  AcceptsAll [] = Unit
  AcceptsAll (ext ∷ exts) = Accepts ext × AcceptsAll exts

-- The flags after the loop.
abbrev pub flag : Known → Option Known → Bool
flag y none = false
flag y (some x) = same_known x y

abbrev pub occurs : Known → List Extension → Bool
occurs y [] = false
occurs y (ext ∷ exts) = flag y (known ext.extn_id) || occurs y exts

-- The flags after one extension and after all of them.
abbrev marked : Option Known → Seen → Seen
marked none seen = seen
marked (some x) seen = mark x seen

marked-flag : (k : Option Known) (seen : Seen) (y : Known) → marked k seen y ≡ (seen y || flag y k)
marked-flag none seen y = ground arith
marked-flag (some x) seen y = ground arith

flags_step : (a b c d e : Bool) → a ≡ (b || c) → b ≡ (d || e) → a ≡ (d || (e || c))
flags_step a b c d e p q = ground arith

module _ {E : Type 0} (self : ExtensionPolicy E) (policy : PolicyBase) (cert : Certificate) where
  run_one_only :
      (seen : Seen) (ext : Extension) (k : Option Known) (seen' : Seen)
      → run_one self policy cert seen ext k ≡ ok seen'
      → AcceptsAs self policy cert k ext × (seen' ≡ marked k seen)
  unfolding run_one
  run_one_only seen ext none seen' h = elim (Bool-cases ext.critical) [
    | inl c ↦ cc (rw c at h)
    | inr c ↦ let p : ok seen ≡ ok seen' = rw c at h in (c, cc)
  ]
  run_one_only seen ext (some x) seen' h =
      let (a, e) = >>-eq-ok (validator_permits (validator self x) policy cert (some ext)) _ h in
      (a, cc)

  run_one_whenever :
      (seen : Seen) (ext : Extension) (k : Option Known)
      → AcceptsAs self policy cert k ext
      → run_one self policy cert seen ext k ≡ ok (marked k seen)
  unfolding run_one
  run_one_whenever seen ext none h = rw h
  run_one_whenever seen ext (some x) h = rw h

  run_each_only :
      (seen : Seen) (exts : List Extension) (seen' : Seen)
      → run_each self policy cert seen exts ≡ ok seen'
      → AcceptsAll self policy cert exts × ((y : Known) → seen' y ≡ (seen y || occurs y exts))
  unfolding run_each
  run_each_only seen [] seen' h =
      (tt, λ y. let e : seen ≡ seen' = cc in ground (arith, ap (λ (s : Seen). s y) e))
  run_each_only seen (ext ∷ exts) seen' h =
      let (s, one, rest) =
        >>=-eq-ok (run_one self policy cert seen ext (known ext.extn_id))
          (λ t. run_each self policy cert t exts) h in
      let (a, e) = run_one_only seen ext (known ext.extn_id) s one in
      let (all, flags) = run_each_only s exts seen' rest in
      (
        (a, all),
        λ y.
            flags_step (seen' y) (s y) (occurs y exts) (seen y) (flag y (known ext.extn_id))
              (flags y) (ap (λ (t : Seen). t y) e ∙ marked-flag (known ext.extn_id) seen y),
      )

  run_each_whenever :
      (seen : Seen) (exts : List Extension)
      → AcceptsAll self policy cert exts
      → (seen' : Seen) × (run_each self policy cert seen exts ≡ ok seen')
        × ((y : Known) → seen' y ≡ (seen y || occurs y exts))
  unfolding run_each
  run_each_whenever seen [] h = (seen, refl, λ y. ground arith)
  run_each_whenever seen (ext ∷ exts) (a, h) =
      let (s, run, flags) = run_each_whenever (marked (known ext.extn_id) seen) exts h in
      (
        s,
        rw (run_one_whenever seen ext (known ext.extn_id) a) run,
        λ y.
            flags_step (s y) (marked (known ext.extn_id) seen y) (occurs y exts) (seen y)
              (flag y (known ext.extn_id)) (flags y) (marked-flag (known ext.extn_id) seen y),
      )

  check_all_only :
      (seen : Seen)
      → check_all_absent self policy cert seen ≡ ok tt
      → (x : Known) → check_absent self policy cert seen x ≡ ok tt
  unfolding check_all_absent
  check_all_only seen h x =
      let (p0, r0) =
        >>-eq-ok (check_absent self policy cert seen authority_information_access) _ h in
      let (p1, r1) = >>-eq-ok (check_absent self policy cert seen authority_key_identifier) _ r0 in
      let (p2, r2) = >>-eq-ok (check_absent self policy cert seen subject_key_identifier) _ r1 in
      let (p3, r3) = >>-eq-ok (check_absent self policy cert seen key_usage) _ r2 in
      let (p4, r4) = >>-eq-ok (check_absent self policy cert seen subject_alternative_name) _ r3 in
      let (p5, r5) = >>-eq-ok (check_absent self policy cert seen basic_constraints) _ r4 in
      let (p6, r6) = >>-eq-ok (check_absent self policy cert seen name_constraints) _ r5 in
      elim x as (λ y. check_absent self policy cert seen y ≡ ok tt) [
        | authority_information_access ↦ p0
        | authority_key_identifier ↦ p1
        | subject_key_identifier ↦ p2
        | key_usage ↦ p3
        | subject_alternative_name ↦ p4
        | basic_constraints ↦ p5
        | name_constraints ↦ p6
        | extended_key_usage ↦ r6
      ]

  check_all_whenever :
      (seen : Seen)
      → ((x : Known) → check_absent self policy cert seen x ≡ ok tt)
      → check_all_absent self policy cert seen ≡ ok tt
  unfolding check_all_absent
  check_all_whenever seen h = rw (
    h authority_information_access,
    h authority_key_identifier,
    h subject_key_identifier,
    h key_usage,
    h subject_alternative_name,
    h basic_constraints,
    h name_constraints,
    h extended_key_usage,
  )

  absent_only :
      (seen : Seen) (x : Known)
      → seen x ≡ false
      → check_absent self policy cert seen x ≡ ok tt
      → validator_permits (validator self x) policy cert none ≡ ok tt
  unfolding check_absent
  absent_only seen x e h = rw e at h

  absent_whenever :
      (seen : Seen) (x : Known)
      → (seen x ≡ false → validator_permits (validator self x) policy cert none ≡ ok tt)
      → check_absent self policy cert seen x ≡ ok tt
  unfolding check_absent
  absent_whenever seen x h = elim (Bool-cases (seen x)) [ inl e ↦ rw e | inr e ↦ rw e (h e) ]

  permits_only :
      (extensions : Extensions)
      → permits self policy cert extensions ≡ ok tt
      → AcceptsAll self policy cert (iter extensions)
        × ((x : Known)
            → occurs x (iter extensions) ≡ false
            → validator_permits (validator self x) policy cert none ≡ ok tt)
  permits_only extensions h =
      let (seen, run, rest) =
        >>=-eq-ok (run_each self policy cert (λ _. false) (iter extensions))
          (λ t. check_all_absent self policy cert t) (unfold permits in h) in
      let (all, flags) = run_each_only (λ _. false) (iter extensions) seen run in
      (all, λ x e. absent_only seen x (flags x ∙ e) (check_all_only seen rest x))

  permits_whenever :
      (extensions : Extensions)
      → AcceptsAll self policy cert (iter extensions)
        × ((x : Known)
            → occurs x (iter extensions) ≡ false
            → validator_permits (validator self x) policy cert none ≡ ok tt)
      → permits self policy cert extensions ≡ ok tt
  unfolding permits
  permits_whenever extensions (all, absent) =
      let (seen, run, flags) = run_each_whenever (λ _. false) (iter extensions) all in
      rw run
        (check_all_whenever seen (λ x. absent_whenever seen x (λ e. absent x (sym (flags x) ∙ e))))

  -- An extension policy accepts a certificate's extensions if and only if its validator accepts
  -- each extension that it knows, no other extension is critical, and for each known extension
  -- that does not occur its validator accepts the absence.
  pub permits_iff :
      (extensions : Extensions)
      → (permits self policy cert extensions ≡ ok tt) ↔ (
          AcceptsAll self policy cert (iter extensions)
          × ((x : Known)
              → occurs x (iter extensions) ≡ false
              → validator_permits (validator self x) policy cert none ≡ ok tt))
  permits_iff extensions = (permits_only extensions, permits_whenever extensions)
