-- ===== src/Verify/Store/Lookup.antt =====
-- What a lookup in a store returns.
use mathlib.Core.Bool.{decide_iff}
use mathlib.Core.List.{append-nil, append_assoc}
use cryptography.Prelude.{
  ◌≡◌, refl, sym, ap, ◌∙◌, ◌↔◌, inl, inr, true, List, [], ◌∷◌, ◌++◌, arith, if◌then◌else◌, any,
  Bool-cases,
}
use cryptography.X509.Types.{Name}
use cryptography.X509.Certificate.{Certificate, Name-discrete, Certificate-discrete}
use cryptography.Verify.Store.{
  name_eq, certificate_eq, push, push_all, new, get, get_by_subject, contains,
}

pub name_eq_iff : (a b : Name) → (name_eq a b ≡ true) ↔ (a ≡ b)
unfolding name_eq
name_eq_iff a b = decide_iff (Name-discrete a b)

pub certificate_eq_iff : (a b : Certificate) → (certificate_eq a b ≡ true) ↔ (a ≡ b)
unfolding certificate_eq
certificate_eq_iff a b = decide_iff (Certificate-discrete a b)

-- The certificates with the subject, in their order.
abbrev pub with_subject : Name → List Certificate → List Certificate
with_subject subject [] = []
with_subject subject (cert ∷ certs) =
    if name_eq cert.tbs_cert.subject subject
    then cert ∷ with_subject subject certs
    else with_subject subject certs

get-push :
    (s subject : Name) (cert : Certificate) (m : List (Name × List Certificate))
    → get s (push subject cert m) ≡ (if name_eq subject s then get s m ++ cert ∷ [] else get s m)
unfolding get push
get-push s subject cert [] = ground arith
get-push s subject cert ((name, certs) ∷ m) = ground (
  arith,
  name_eq_iff name subject,
  name_eq_iff name s,
  name_eq_iff subject s,
  get-push s subject cert m,
)

get-push_all :
    (s : Name) (certs : List Certificate) (m : List (Name × List Certificate))
    → get s (push_all certs m) ≡ get s m ++ with_subject s certs
unfolding push_all
get-push_all s [] m = sym (append-nil (get s m))
get-push_all s (cert ∷ certs) m =
    get-push_all s certs (push cert.tbs_cert.subject cert m)
    ∙ rw (get-push s cert.tbs_cert.subject cert m)
        (elim (Bool-cases (name_eq cert.tbs_cert.subject s)) [
          | inl e ↦ rw (e, append_assoc) refl
          | inr e ↦ rw e refl
        ])

-- A lookup returns the trusted certificates with that subject, in the order in which they were
-- given, and no others.
pub get_by_subject-new :
    (trusted : List Certificate) (subject : Name)
    → get_by_subject (new trusted) subject ≡ with_subject subject trusted
unfolding get_by_subject new
get_by_subject-new trusted subject = get-push_all subject trusted []

any-with_subject :
    (cert : Certificate) (certs : List Certificate)
    → any (certificate_eq cert) (with_subject cert.tbs_cert.subject certs)
      ≡ any (certificate_eq cert) certs
any-with_subject cert [] = refl
any-with_subject cert (c ∷ certs) = elim (Bool-cases (certificate_eq cert c)) [
  | inl t ↦
      let same =
        ap (λ (x : Certificate). x.tbs_cert.subject) (sym ((certificate_eq_iff cert c).0 t)) in
      rw ((name_eq_iff c.tbs_cert.subject cert.tbs_cert.subject).1 same, t) refl
  | inr f ↦ elim (Bool-cases (name_eq c.tbs_cert.subject cert.tbs_cert.subject)) [
    | inl e ↦ rw (e, f) (any-with_subject cert certs)
    | inr e ↦ rw (e, f) (any-with_subject cert certs)
  ]
]

-- A store contains a certificate if and only if an equal one was given.
pub contains-new :
    (trusted : List Certificate) (cert : Certificate)
    → contains (new trusted) cert ≡ any (certificate_eq cert) trusted
unfolding contains
contains-new trusted cert =
    ap (any (certificate_eq cert)) (get_by_subject-new trusted cert.tbs_cert.subject)
    ∙ any-with_subject cert trusted
