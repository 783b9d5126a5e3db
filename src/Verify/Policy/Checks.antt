-- ===== src/Verify/Policy/Checks.antt =====
-- What the tests of a policy on one certificate mean.
use Prim.Native.String.{String}
use mathlib.Core.Bool.{decide, decide_iff}
use mathlib.Core.List.{Memᴰ}
use mathlib.Core.Option.{some-injective}
use cryptography.Prelude.{
  ℕ, ◌*◌, ◌≤◌, ◌<◌, ◌≡◌, ◌⊎◌, refl, ◌↔◌, inl, inr, Bool, true, false, not, ◌&&◌, ◌||◌, Option, none,
  some, List, [], ◌∷◌, arith, is_empty, leb, ltb, ◌==◌, ==_iff, ltb→le, le→ltb, leb→le, le→leb,
  length, Bool-cases, and-left, and-right,
}
use cryptography.Str.{Str}
use cryptography.Result.{Result, ok, err, map_err, map_err-eq-ok, ◌>>◌, >>=-eq-ok, >>-eq-ok}
use cryptography.X509.Types.{
  AlgorithmIdentifier, BasicConstraints, Time, utc_time, generalized_time, SubjectPublicKeyInfo,
  as_datetime,
}
use cryptography.X509.Certificate.{Certificate, Extension, AlgorithmIdentifier-discrete}
use cryptography.Verify.Asn1.{Asn1}
use cryptography.Verify.Errors.{ValidationError, ValidationResult, of_parse_error}
use cryptography.Verify.Policy.Base.{PolicyBase}
use cryptography.Verify.Policy.Algorithms.{is_permitted, is_rsa}
use cryptography.Verify.Policy.Webpki.{refuse_if}
use cryptography.Verify.Policy.{
  permits_validity_date, permits_serial, permits_basic, exceeds, permits_basic_constraints,
  permitted_or, permits_key_size,
}

-- A sequence of checks succeeds if and only if each of them does.
>>_iff : {E : Type 0} (m k : Result E (Unit {0})) → ((m >> k) ≡ ok tt) ↔ ((m ≡ ok tt) × (k ≡ ok tt))
>>_iff (ok u) k = (λ h. (refl, h), λ h. h.1)
>>_iff (err e) k = (λ h. cc, λ h. cc (h.0))

pub refuse_if_iff :
    {E : Type 0} (bad : Bool) (m : String) → (refuse_if {E = E} bad m ≡ ok tt) ↔ (bad ≡ false)
unfolding refuse_if
refuse_if_iff true m = (λ h. cc, λ h. cc)
refuse_if_iff false m = (λ h. refl, λ h. refl)

pub not_iff : (b : Bool) → (not b ≡ false) ↔ (b ≡ true)
not_iff true = (λ h. refl, λ h. refl)
not_iff false = (λ h. cc, λ h. cc)

or-left-right : (a b : Bool) → (a || b) ≡ false → (a ≡ false) × (b ≡ false)
or-left-right a b h = ground arith

module _ {E : Type 0} where
  map_err-ok_iff :
      (f : ValidationError E → ValidationError E) (m : ValidationResult E (Unit {0}))
      → (map_err f m ≡ ok tt) ↔ (m ≡ ok tt)
  map_err-ok_iff f (ok u) = (λ h. refl, λ h. refl)
  map_err-ok_iff f (err e) = (λ h. cc, λ h. cc)

is_permitted_iff :
    (algorithms : List AlgorithmIdentifier) (a : AlgorithmIdentifier)
    → (is_permitted algorithms a ≡ true) ↔ Memᴰ a algorithms
unfolding is_permitted
is_permitted_iff [] a = (λ h. cc, λ m. elim m [ ])
is_permitted_iff (x ∷ xs) a = elim (Bool-cases (decide (AlgorithmIdentifier-discrete a x))) [
  | inl e ↦ (λ h. Memᴰ.head ((decide_iff (AlgorithmIdentifier-discrete a x)).0 e), λ m. rw e refl)
  | inr e ↦ (
    λ h. Memᴰ.tail ((is_permitted_iff xs a).0 (rw e at h)),
    λ m. rw e (later (λ k. (is_permitted_iff xs a).1 k) e m),
  )
]
  where
    later :
        (Memᴰ a xs → is_permitted xs a ≡ true)
        → decide (AlgorithmIdentifier-discrete a x) ≡ false
        → Memᴰ a (x ∷ xs)
        → is_permitted xs a ≡ true
    later rest e (Memᴰ.head p) = cc (e, (decide_iff (AlgorithmIdentifier-discrete a x)).1 p)
    later rest e (Memᴰ.tail m) = rest m

module _ {E : Type 0} where
  pub permitted_or_iff :
      (m : String) (algorithms : List AlgorithmIdentifier) (a : AlgorithmIdentifier)
      → (permitted_or {E = E} m algorithms a ≡ ok tt) ↔ Memᴰ a algorithms
  unfolding permitted_or
  permitted_or_iff m algorithms a = elim (Bool-cases (is_permitted algorithms a)) [
    | inl e ↦ (λ h. (is_permitted_iff algorithms a).0 e, λ h. rw e refl)
    | inr e ↦ (λ h. cc (rw e at h), λ h. cc ((is_permitted_iff algorithms a).1 h))
  ]

-- The years from 1950 to 2049 are written as UTCTime only.
abbrev pub IsWellDated : Time → Type 0
IsWellDated (utc_time t) = Unit
IsWellDated (generalized_time t) = (t.year < 1950) ⊎ (2050 ≤ t.year)

within : (d : ℕ) (o : Option ℕ) → exceeds d o ≡ false → (m : ℕ) → o ≡ some m → d ≤ m
within d none h m e = cc
within d (some l) h m e = rw (some-injective _ _ e) at (ltb→le l d h)

within-permits : (d : ℕ) (o : Option ℕ) → ((m : ℕ) → o ≡ some m → d ≤ m) → exceeds d o ≡ false
within-permits d none h = refl
within-permits d (some l) h = le→ltb l d (h l refl)

-- The version, the algorithms, the serial number, the issuer and the validity of a certificate.
module _ (E : Type 0) ⦃asn1 : Asn1 E⦄ where
  abbrev pub IsBasic : PolicyBase → Certificate → Type 0
  IsBasic self cert =
      (cert.tbs_cert.version ≡ 2)
      × (cert.signature_alg ≡ cert.tbs_cert.signature_alg)
      × (1 ≤ length cert.tbs_cert.serial)
      × (length cert.tbs_cert.serial ≤ 21)
      × (asn1.is_negative cert.tbs_cert.serial ≡ false)
      × (is_empty cert.tbs_cert.issuer ≡ false)
      × IsWellDated cert.tbs_cert.validity.not_before
      × IsWellDated cert.tbs_cert.validity.not_after
      × (asn1.datetime_lt self.validation_time (as_datetime cert.tbs_cert.validity.not_before)
          ≡ false)
      × (asn1.datetime_lt (as_datetime cert.tbs_cert.validity.not_after) self.validation_time
          ≡ false)

  -- The basicConstraints extension is there, names a CA, and has no path length below the depth.
  abbrev pub AllowsDepth : ℕ → Option Extension → Type 0
  AllowsDepth depth o =
      (ext : Extension) × (bc : BasicConstraints) × (o ≡ some ext)
      × (asn1.basic_constraints ext.extn_value ≡ ok bc)
      × ((limit : ℕ) → bc.path_length ≡ some limit → depth ≤ limit)
      × (bc.ca ≡ true)

  -- An RSA modulus has at least as many bits as the policy asks for.
  abbrev pub IsLongEnough : ℕ → SubjectPublicKeyInfo → Type 0
  IsLongEnough bits spki =
      is_rsa spki.algorithm ≡ true
      → (n : Str) × (asn1.rsa_modulus spki.subject_public_key.content ≡ ok n)
        × (bits ≤ length n * 8)

module _ {E : Type 0} ⦃asn1 : Asn1 E⦄ where
  refused :
      (bad : Bool) (m : String) (k : ValidationResult E (Unit {0}))
      → (refuse_if bad m >> k) ≡ ok tt
      → (bad ≡ false) × (k ≡ ok tt)
  refused bad m k h = let (p, q) = >>-eq-ok (refuse_if bad m) k h in ((refuse_if_iff bad m).0 p, q)

  serial_only :
      (s : Str)
      → permits_serial {E = E} s ≡ ok tt
      → ((1 ≤ length s) × (length s ≤ 21)) × (asn1.is_negative s ≡ false)
  unfolding permits_serial
  serial_only s h =
      let (r, n) = refused (not (leb 1 (length s) && leb (length s) 21)) _ _ h in
      (
        (
          leb→le 1 (length s) (and-left _ _ ((not_iff _).0 r)),
          leb→le (length s) 21 (and-right _ _ ((not_iff _).0 r)),
        ),
        (refuse_if_iff _ _).0 n,
      )

  well_dated : (t : Time) → permits_validity_date {E = E} t ≡ ok tt → IsWellDated t
  unfolding permits_validity_date
  well_dated (utc_time t) h = tt
  well_dated (generalized_time t) h =
      outside t.year ((refuse_if_iff (leb 1950 t.year && ltb t.year 2050) _).0 h)
    where
      outside : (y : ℕ) → (leb 1950 y && ltb y 2050) ≡ false → (y < 1950) ⊎ (2050 ≤ y)
      outside y h = ground (arith, h)

  well_dated-permits : (t : Time) → IsWellDated t → permits_validity_date {E = E} t ≡ ok tt
  unfolding permits_validity_date
  well_dated-permits (utc_time t) h = refl
  well_dated-permits (generalized_time t) h =
      (refuse_if_iff (leb 1950 t.year && ltb t.year 2050) _).1 (outside t.year h)
    where
      outside : (y : ℕ) → (y < 1950) ⊎ (2050 ≤ y) → (leb 1950 y && ltb y 2050) ≡ false
      outside y h = ground (arith, h)

  pub IsBasic-only :
      (self : PolicyBase) (cert : Certificate)
      → permits_basic {E = E} self cert ≡ ok tt
      → IsBasic E self cert
  unfolding permits_basic
  IsBasic-only self cert h =
      let (version, t1) = refused (not (cert.tbs_cert.version == 2)) _ _ h in
      let (algorithms, t2) =
        refused
          (not
            (decide (AlgorithmIdentifier-discrete cert.signature_alg cert.tbs_cert.signature_alg)))
          _ _ t1 in
      let (serial, t3) = >>-eq-ok (permits_serial cert.tbs_cert.serial) _ t2 in
      let (range, negative) = serial_only cert.tbs_cert.serial serial in
      let (issuer, t4) = refused (is_empty cert.tbs_cert.issuer) _ _ t3 in
      let (before, t5) = >>-eq-ok (permits_validity_date cert.tbs_cert.validity.not_before) _ t4 in
      let (after, t6) = >>-eq-ok (permits_validity_date cert.tbs_cert.validity.not_after) _ t5 in
      let (early, late) = or-left-right _ _ ((refuse_if_iff _ _).0 t6) in
      (
        (==_iff cert.tbs_cert.version 2).0 ((not_iff _).0 version),
        (decide_iff (AlgorithmIdentifier-discrete cert.signature_alg cert.tbs_cert.signature_alg)).0
            ((not_iff _).0 algorithms),
        range.0,
        range.1,
        negative,
        issuer,
        well_dated cert.tbs_cert.validity.not_before before,
        well_dated cert.tbs_cert.validity.not_after after,
        early,
        late,
      )

  pub IsBasic-whenever :
      (self : PolicyBase) (cert : Certificate)
      → IsBasic E self cert
      → permits_basic {E = E} self cert ≡ ok tt
  unfolding permits_basic permits_serial refuse_if
  IsBasic-whenever self cert
        (version, algorithms, low, high, negative, issuer, before, after, early, late) =
      rw
        (
          (==_iff cert.tbs_cert.version 2).1 version,
          (decide_iff
                (AlgorithmIdentifier-discrete cert.signature_alg cert.tbs_cert.signature_alg)).1
              algorithms,
          le→leb 1 (length cert.tbs_cert.serial) low,
          le→leb (length cert.tbs_cert.serial) 21 high,
          negative,
          issuer,
          well_dated-permits cert.tbs_cert.validity.not_before before,
          well_dated-permits cert.tbs_cert.validity.not_after after,
          early,
          late,
        )
        refl

  pub depth_only :
      (d : ℕ) (o : Option Extension)
      → permits_basic_constraints {E = E} d o ≡ ok tt
      → AllowsDepth E d o
  unfolding permits_basic_constraints
  depth_only d none h = cc
  depth_only d (some ext) h =
      let (bc, parsed, k) =
        >>=-eq-ok (of_parse_error (asn1.basic_constraints ext.extn_value)) _ h in
      let (length, ca) = refused (exceeds d bc.path_length) _ _ k in
      (
        ext,
        bc,
        refl,
        map_err-eq-ok _ (asn1.basic_constraints ext.extn_value) parsed,
        within d bc.path_length length,
        (not_iff bc.ca).0 ((refuse_if_iff (not bc.ca) _).0 ca),
      )

  pub depth_whenever :
      (d : ℕ) (o : Option Extension)
      → AllowsDepth E d o
      → permits_basic_constraints {E = E} d o ≡ ok tt
  unfolding permits_basic_constraints refuse_if
  depth_whenever d o (ext, bc, p, parsed, length, ca) =
      rw (p, parsed, within-permits d bc.path_length length, ca) refl

  depth_iff :
      (d : ℕ) (o : Option Extension)
      → (permits_basic_constraints {E = E} d o ≡ ok tt) ↔ AllowsDepth E d o
  depth_iff d o = (depth_only d o, depth_whenever d o)

  pub key_size_only :
      (bits : ℕ) (spki : SubjectPublicKeyInfo)
      → permits_key_size {E = E} bits spki ≡ ok tt
      → IsLongEnough E bits spki
  unfolding permits_key_size
  key_size_only bits spki h rsa =
      let (n, parsed, k) =
        >>=-eq-ok (of_parse_error (asn1.rsa_modulus spki.subject_public_key.content)) _
          (rw (rsa, permits_key_size) at h) in
      (
        n,
        map_err-eq-ok _ (asn1.rsa_modulus spki.subject_public_key.content) parsed,
        ltb→le (length n * 8) bits ((refuse_if_iff _ _).0 k),
      )

  pub key_size_whenever :
      (bits : ℕ) (spki : SubjectPublicKeyInfo)
      → IsLongEnough E bits spki
      → permits_key_size {E = E} bits spki ≡ ok tt
  unfolding permits_key_size refuse_if
  key_size_whenever bits spki h = elim (Bool-cases (is_rsa spki.algorithm)) [
    | inl e ↦
        let (n, parsed, enough) = h e in
        rw (e, permits_key_size, parsed, le→ltb (length n * 8) bits enough) refl
    | inr e ↦ rw (e, permits_key_size) refl
  ]
