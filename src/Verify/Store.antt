-- ===== src/Verify/Store.antt =====
-- src/rust/cryptography-x509-verification/src/trust_store.rs: the trusted certificates by subject.
-- The program never iterates over the hash map, so it is an association list.
pub mod Lookup
use mathlib.Core.Bool.{decide}
use cryptography.Prelude.{Bool, List, [], ◌∷◌, ◌++◌, if◌then◌else◌, any}
use cryptography.X509.Types.{Name}
use cryptography.X509.Certificate.{Certificate, Name-discrete, Certificate-discrete}

pub record Store : Type 0 where
  pub by_subject : List (Name × List Certificate)

unfoldable pub name_eq : Name → Name → Bool
unfolding Name-discrete
name_eq a b = decide (Name-discrete a b)

-- PartialEq of VerificationCertificate compares the certificates alone.
unfoldable pub certificate_eq : Certificate → Certificate → Bool
unfolding Certificate-discrete
certificate_eq a b = decide (Certificate-discrete a b)

-- entry(subject).or_default().push(cert)
unfoldable pub push :
    Name → Certificate → List (Name × List Certificate) → List (Name × List Certificate)
unfolding name_eq
push subject cert [] = (subject, cert ∷ []) ∷ []
push subject cert ((name, certs) ∷ entries) =
    let rest = push subject cert entries in
    if name_eq name subject then (name, certs ++ cert ∷ []) ∷ entries else (name, certs) ∷ rest

unfoldable pub push_all :
    List Certificate → List (Name × List Certificate) → List (Name × List Certificate)
unfolding push
push_all [] entries = entries
push_all (cert ∷ trusted) entries = push_all trusted (push cert.tbs_cert.subject cert entries)

unfoldable pub new : List Certificate → Store
unfolding push_all
new trusted = record { by_subject = push_all trusted [] }

-- get(subject).unwrap_or_default()
unfoldable pub get : Name → List (Name × List Certificate) → List Certificate
unfolding name_eq
get subject [] = []
get subject ((name, certs) ∷ entries) =
    let rest = get subject entries in if name_eq name subject then certs else rest

unfoldable pub get_by_subject : Store → Name → List Certificate
unfolding get
get_by_subject self subject = get subject self.by_subject

unfoldable pub contains : Store → Certificate → Bool
unfolding get_by_subject certificate_eq
contains self cert = any (certificate_eq cert) (get_by_subject self cert.tbs_cert.subject)
