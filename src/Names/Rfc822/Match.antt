-- ===== src/Names/Rfc822/Match.antt =====
-- What an email constraint matches, described on the mailbox and on the labels of the domain.
use cryptography.Prelude.{
  ◌≡◌, ◌↔◌, List, ◌∷◌, ◌++◌, true, and-left, and-right, and-intro, list_eq_iff,
}
use cryptography.Str.{Str}
use cryptography.Names.Dns.Labels.{labels, eq_iff, is_subdomain_of_iff}
use cryptography.Names.Rfc822.{
  Rfc822Name, Rfc822Constraint, exact, on_domain, in_domain, constraint_matches,
}

-- An address: the same mailbox, case included, and the same domain. On a domain: that domain. In a
-- domain: the domain with at least one label added on the left. Domains are read up to ASCII case.
abbrev pub Allows : Rfc822Constraint → Rfc822Name → Type 0
Allows (exact pat) email = (pat.mailbox ≡ email.mailbox) × (labels pat.domain ≡ labels email.domain)
Allows (on_domain pat) email = labels email.domain ≡ labels pat
Allows (in_domain pat) email =
    (p : Str) × (ps : List Str) × (labels email.domain ≡ (p ∷ ps) ++ labels pat)

-- An email constraint matches an address if and only if it allows it.
pub mailbox_matches_iff :
    (c : Rfc822Constraint) (email : Rfc822Name)
    → (constraint_matches c email ≡ true) ↔ Allows c email
unfolding constraint_matches
mailbox_matches_iff (exact pat) email = (
  λ h. ((list_eq_iff _ _).0 (and-left _ _ h), (eq_iff pat.domain email.domain).0 (and-right _ _ h)),
  λ (m, d). and-intro _ _ ((list_eq_iff _ _).1 m) ((eq_iff pat.domain email.domain).1 d),
)
mailbox_matches_iff (on_domain pat) email = eq_iff email.domain pat
mailbox_matches_iff (in_domain pat) email = is_subdomain_of_iff email.domain pat
