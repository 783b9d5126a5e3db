-- ===== src/Verify/Policy/Leaf.antt =====
-- When a policy permits a certificate as an end entity.
use mathlib.Core.List.{Memᴰ}
use mathlib.Core.Option.{some-injective}
use cryptography.Prelude.{
  ◌≡◌, refl, sym, ap, ◌∙◌, ◌↔◌, inl, inr, Bool, true, ◌||◌, Option, none, some, List, [], ◌∷◌,
  arith, Bool-cases,
}
use cryptography.Result.{ok, map_err-eq-ok, ◌>>=◌, >>=-eq-ok, >>-eq-ok}
use cryptography.Names.Ia5.{Ia5}
use cryptography.X509.Oid.{subject_alternative_name_oid}
use cryptography.X509.Types.{GeneralName}
use cryptography.X509.Certificate.{Certificate, Extension}
use cryptography.X509.Extensions.{Extensions, get_extension}
use cryptography.Verify.Asn1.{Asn1}
use cryptography.Verify.Errors.{of_parse_error}
use cryptography.Verify.Policy.Validators.{permits}
use cryptography.Verify.Policy.Subjects.{Subject, matches, subject_alt_name_matches}
use cryptography.Verify.Policy.Webpki.{refuse_if}
use cryptography.Verify.Policy.Checks.{
  IsBasic, IsBasic-only, IsBasic-whenever, refuse_if_iff, not_iff,
}
use cryptography.Verify.Policy.{
  PolicyDefinition, permits_basic, permits_subject, permits_subject_alternative_name, parse_san,
  permits_ee,
}

or-right : (a b : Bool) → b ≡ true → (a || b) ≡ true
or-right a b h = ground arith

module _ ⦃ia5 : Ia5⦄ where
  matches_only :
      (subject : Subject) (san : List GeneralName)
      → matches subject san ≡ true
      → (name : GeneralName) × Memᴰ name san × (subject_alt_name_matches subject name ≡ true)
  unfolding matches
  matches_only subject [] h = cc
  matches_only subject (n ∷ ns) h = elim (Bool-cases (subject_alt_name_matches subject n)) [
    | inl e ↦ (n, Memᴰ.head refl, e)
    | inr e ↦ let (name, m, k) = matches_only subject ns (rw e at h) in (name, Memᴰ.tail m, k)
  ]

  matches_whenever :
      (subject : Subject) (san : List GeneralName) (name : GeneralName)
      → Memᴰ name san
      → subject_alt_name_matches subject name ≡ true
      → matches subject san ≡ true
  unfolding matches
  matches_whenever subject [] name m e = elim m [ ]
  matches_whenever subject (n ∷ ns) name (Memᴰ.head p) e = rw (sym p, e) refl
  matches_whenever subject (n ∷ ns) name (Memᴰ.tail m) e =
      or-right (subject_alt_name_matches subject n) (matches subject ns)
        (matches_whenever subject ns name m e)

module _ (E : Type 0) ⦃ia5 : Ia5⦄ ⦃asn1 : Asn1 E⦄ where
  -- The subject that the policy asks for, when it asks for one, matches a name of the certificate.
  abbrev pub IsNamed : Option Subject → Extensions → Type 0
  IsNamed none exts = Unit
  IsNamed (some subject) exts =
      (ext : Extension) × (san : List GeneralName) × (name : GeneralName) × (get_extension exts
          subject_alternative_name_oid
        ≡ some ext)
      × (asn1.subject_alternative_name ext.extn_value ≡ ok san)
      × Memᴰ name san
      × (subject_alt_name_matches subject name ≡ true)

module _ {E : Type 0} ⦃ia5 : Ia5⦄ ⦃asn1 : Asn1 E⦄ where
  listed_only :
      (subject : Subject) (o : Option (List GeneralName)) (san : List GeneralName)
      → o ≡ some san
      → permits_subject_alternative_name {E = E} subject o ≡ ok tt
      → matches subject san ≡ true
  unfolding permits_subject_alternative_name
  listed_only subject none san e h = cc
  listed_only subject (some names) san e h =
      let m : matches subject names ≡ true = (not_iff _).0 ((refuse_if_iff {E = E} _ _).0 h) in
      ap (λ (s : List GeneralName). matches subject s) (some-injective _ _ (sym e)) ∙ m

  found_only :
      (subject : Subject) (o : Option Extension)
      → (parse_san {E = E} o >>= λ san. permits_subject_alternative_name subject san) ≡ ok tt
      → (ext : Extension) × (san : List GeneralName) × (o ≡ some ext)
        × (asn1.subject_alternative_name ext.extn_value ≡ ok san)
        × (matches subject san ≡ true)
  unfolding permits_subject_alternative_name
  found_only subject none h = cc
  found_only subject (some ext) h =
      let (o, parsed, k) = >>=-eq-ok (parse_san {E = E} (some ext)) _ h in
      let (san, p, q) =
        >>=-eq-ok (of_parse_error (asn1.subject_alternative_name ext.extn_value)) _ parsed in
      (
        ext,
        san,
        refl,
        map_err-eq-ok _ (asn1.subject_alternative_name ext.extn_value) p,
        listed_only subject o san (cc) k,
      )

  subject_only :
      (o : Option Subject) (exts : Extensions)
      → permits_subject {E = E} o exts ≡ ok tt
      → IsNamed E o exts
  unfolding permits_subject
  subject_only none exts h = tt
  subject_only (some subject) exts h =
      let (ext, san, found, parsed, m) =
        found_only subject (get_extension exts subject_alternative_name_oid) h in
      let (name, mem, e) = matches_only subject san m in (ext, san, name, found, parsed, mem, e)

  subject_whenever :
      (o : Option Subject) (exts : Extensions)
      → IsNamed E o exts
      → permits_subject {E = E} o exts ≡ ok tt
  unfolding permits_subject permits_subject_alternative_name refuse_if
  subject_whenever none exts h = refl
  subject_whenever (some subject) exts (ext, san, name, found, parsed, mem, e) =
      rw (found, parsed, matches_whenever subject san name mem e) refl

  ee_only :
      (self : PolicyDefinition E) (cert : Certificate) (exts : Extensions)
      → permits_ee self cert exts ≡ ok tt
      → IsBasic E self.base cert
        × IsNamed E self.base.subject exts
        × (permits self.ee_extension_policy self.base cert exts ≡ ok tt)
  unfolding permits_ee
  ee_only self cert exts h =
      let (basic, k) = >>-eq-ok (permits_basic self.base cert) _ h in
      let (named, rest) = >>-eq-ok (permits_subject self.base.subject exts) _ k in
      (IsBasic-only self.base cert basic, subject_only self.base.subject exts named, rest)

  ee_whenever :
      (self : PolicyDefinition E) (cert : Certificate) (exts : Extensions)
      → IsBasic E self.base cert
        × IsNamed E self.base.subject exts
        × (permits self.ee_extension_policy self.base cert exts ≡ ok tt)
      → permits_ee self cert exts ≡ ok tt
  unfolding permits_ee
  ee_whenever self cert exts (basic, named, accepted) =
      rw
        (
          IsBasic-whenever self.base cert basic,
          subject_whenever self.base.subject exts named,
          accepted,
        )
        refl

  -- A policy permits a certificate as an end entity if and only if the certificate passes the tests
  -- that every certificate has to pass, the policy asks for no subject or the subject matches one of
  -- the alternative names that the certificate's extension lists, and the extension policy for end
  -- entities accepts its extensions.
  pub permits_ee_iff :
      (self : PolicyDefinition E) (cert : Certificate) (exts : Extensions)
      → (permits_ee self cert exts ≡ ok tt) ↔ (
          IsBasic E self.base cert
          × IsNamed E self.base.subject exts
          × (permits self.ee_extension_policy self.base cert exts ≡ ok tt))
  permits_ee_iff self cert exts = (ee_only self cert exts, ee_whenever self cert exts)
