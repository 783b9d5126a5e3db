-- ===== src/Verify/Policy/Issuer.antt =====
-- What a policy accepts as an issuer.
use mathlib.Core.List.{Memᴰ}
use cryptography.Prelude.{ℕ, ◌≡◌, refl, ◌↔◌, true, Option, none, some}
use cryptography.Result.{ok, map_err, map_err-eq-ok, >>=-eq-ok, >>-eq-ok}
use cryptography.X509.Oid.{basic_constraints_oid}
use cryptography.X509.Certificate.{Certificate}
use cryptography.X509.Extensions.{Extensions, get_extension}
use cryptography.Verify.Asn1.{Asn1}
use cryptography.Verify.Errors.{set_cert}
use cryptography.Verify.Policy.Base.{CryptoOps}
use cryptography.Verify.Policy.Validators.{permits}
use cryptography.Verify.Policy.Webpki.{refuse_if}
use cryptography.Verify.Policy.{
  PolicyDefinition, permits_basic, permits_basic_constraints, permits_ca, permitted_or, issuer_key,
  permits_key_size, valid_issuer,
}
use cryptography.Verify.Policy.Checks.{
  IsBasic, AllowsDepth, IsLongEnough, IsBasic-only, IsBasic-whenever, permitted_or_iff, depth_only,
  depth_whenever, key_size_only, key_size_whenever, not_iff, refuse_if_iff,
}

-- What the acceptance of an issuer means, over the policy's tests on the issuer as a certificate.
module _ {E : Type 0} ⦃asn1 : Asn1 E⦄ {K : Type 0} (ops : CryptoOps K)
    (self : PolicyDefinition E) where
  abbrev pub IsIssuer : Certificate → Certificate → ℕ → Extensions → Type 0
  IsIssuer issuer child depth exts =
      (pk : K) × IsBasic E self.base issuer
      × AllowsDepth E depth (get_extension exts basic_constraints_oid)
      × (permits self.ca_extension_policy self.base issuer exts ≡ ok tt)
      × Memᴰ issuer.tbs_cert.spki.algorithm self.base.permitted_public_key_algorithms
      × Memᴰ child.signature_alg self.base.permitted_signature_algorithms
      × (ops.public_key issuer ≡ some pk)
      × IsLongEnough E self.base.minimum_rsa_modulus issuer.tbs_cert.spki
      × (ops.verify_signed_by child pk ≡ true)

  issuer_key-eq-ok : (o : Option K) {pk : K} → issuer_key {E = E} o ≡ ok pk → o ≡ some pk
  issuer_key-eq-ok none h = cc
  issuer_key-eq-ok (some k) h = cc

  ca_only :
      (issuer : Certificate) (depth : ℕ) (exts : Extensions)
      → permits_ca self issuer depth exts ≡ ok tt
      → IsBasic E self.base issuer
        × AllowsDepth E depth (get_extension exts basic_constraints_oid)
        × (permits self.ca_extension_policy self.base issuer exts ≡ ok tt)
  unfolding permits_ca
  ca_only issuer depth exts h =
      let (basic, k) = >>-eq-ok (permits_basic self.base issuer) _ h in
      let (deep, rest) =
        >>-eq-ok (permits_basic_constraints depth (get_extension exts basic_constraints_oid)) _ k in
      (IsBasic-only self.base issuer basic, depth_only depth _ deep, rest)

  valid_issuer_only :
      (issuer child : Certificate) (depth : ℕ) (exts : Extensions)
      → valid_issuer ops self issuer child depth exts ≡ ok tt
      → IsIssuer issuer child depth exts
  unfolding valid_issuer
  valid_issuer_only issuer child depth exts h =
      let (ca, t1) = >>-eq-ok (map_err (set_cert issuer) (permits_ca self issuer depth exts)) _ h in
      let (spki, t2) =
        >>-eq-ok
          (permitted_or _ self.base.permitted_public_key_algorithms issuer.tbs_cert.spki.algorithm)
          _ t1 in
      let (sig, t3) =
        >>-eq-ok (permitted_or _ self.base.permitted_signature_algorithms child.signature_alg) _
          t2 in
      let (pk, key, t4) = >>=-eq-ok (issuer_key (ops.public_key issuer)) _ t3 in
      let (size, t5) =
        >>-eq-ok (permits_key_size self.base.minimum_rsa_modulus issuer.tbs_cert.spki) _ t4 in
      let (basic, deep, exts') =
        ca_only issuer depth exts (map_err-eq-ok _ (permits_ca self issuer depth exts) ca) in
      (
        pk,
        basic,
        deep,
        exts',
        (permitted_or_iff {E = E} _ self.base.permitted_public_key_algorithms
              issuer.tbs_cert.spki.algorithm).0
            spki,
        (permitted_or_iff {E = E} _ self.base.permitted_signature_algorithms child.signature_alg).0
            sig,
        issuer_key-eq-ok (ops.public_key issuer) key,
        key_size_only self.base.minimum_rsa_modulus issuer.tbs_cert.spki size,
        (not_iff _).0 ((refuse_if_iff _ _).0 t5),
      )

  valid_issuer_whenever :
      (issuer child : Certificate) (depth : ℕ) (exts : Extensions)
      → IsIssuer issuer child depth exts
      → valid_issuer ops self issuer child depth exts ≡ ok tt
  unfolding valid_issuer permits_ca refuse_if
  valid_issuer_whenever issuer child depth exts
        (pk, basic, deep, exts', spki, sig, key, size, signed) =
      rw
        (
          IsBasic-whenever self.base issuer basic,
          depth_whenever depth (get_extension exts basic_constraints_oid) deep,
          exts',
          (permitted_or_iff {E = E} "Forbidden public key algorithm: {:?}"
                self.base.permitted_public_key_algorithms issuer.tbs_cert.spki.algorithm).1
              spki,
          (permitted_or_iff {E = E} "Forbidden signature algorithm: {:?}"
                self.base.permitted_signature_algorithms child.signature_alg).1
              sig,
          key,
          key_size_whenever self.base.minimum_rsa_modulus issuer.tbs_cert.spki size,
          signed,
        )
        refl

  -- A policy accepts a certificate as the issuer of another one at a depth if and only if: the issuer
  -- is a version 3 certificate with one signature algorithm, a serial number of 1 to 21 bytes that is
  -- not negative, an issuer name and a validity period that holds at the validation time and does not
  -- use GeneralizedTime for the years from 1950 to 2049; its basicConstraints extension asserts that it
  -- is a CA and has no path length that is less than the depth; its extensions are accepted; its key
  -- algorithm and the child's signature algorithm are permitted; an RSA key is long enough; and the
  -- child's signature verifies with the issuer's public key.
  pub valid_issuer_iff :
      (issuer child : Certificate) (depth : ℕ) (exts : Extensions)
      → (valid_issuer ops self issuer child depth exts ≡ ok tt) ↔ IsIssuer issuer child depth exts
  valid_issuer_iff issuer child depth exts =
      (valid_issuer_only issuer child depth exts, valid_issuer_whenever issuer child depth exts)
