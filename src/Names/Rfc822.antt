-- ===== src/Names/Rfc822.antt =====
-- src/rust/cryptography-x509-verification/src/types.rs: RFC822Name and RFC822Constraint.
pub mod Match
use cryptography.Prelude.{
  ℕ, Bool, true, false, ◌&&◌, ◌||◌, Option, none, some, List, [], ◌∷◌, ◌==◌, if◌then◌else◌,
  is_empty, all, any, list_eq,
}
use cryptography.Str.{Str, is_ascii_alphanumeric, split, split_once, strip_prefix}
use cryptography.Names.Ia5.{Ia5}
use cryptography.Names.Dns.{DnsName, is_subdomain_of}
use cryptography.Names.Dns

-- The characters !#$%&'*+-/=?^_`{|}~ in their order.
abbrev pub atext_chars : Str
atext_chars =
    33 ∷ 35 ∷ 36 ∷ 37 ∷ 38 ∷ 39 ∷ 42 ∷ 43 ∷ 45 ∷ 47 ∷ 61 ∷ 63 ∷ 94 ∷ 95 ∷ 96 ∷ 123 ∷ 124 ∷ 125 ∷ 126
    ∷ []

pub record Rfc822Name : Type 0 where
  pub mailbox : Str
  pub domain : DnsName

-- The test of the loop over the components of the local part.
unfoldable pub is_atom : Str → Bool
unfolding is_ascii_alphanumeric
is_atom component =
    if is_empty component
    then false
    else all (λ c. is_ascii_alphanumeric c || any (λ a. a == c) atext_chars) component

unfoldable pub with_domain : Str → Option DnsName → Option Rfc822Name
with_domain local_part none = none
with_domain local_part (some domain) = some (record { mailbox = local_part; domain = domain })

module _ ⦃ia5 : Ia5⦄ where
  unfoldable pub of_parts : Option (Str × Str) → Option Rfc822Name
  unfolding with_domain
  of_parts none = none
  of_parts (some (local_part, domain)) =
      if ia5.accepts local_part
      then (if all is_atom (split b'.' local_part)
          then with_domain local_part (Dns.new domain)
          else none)
      else none

  unfoldable pub new : Str → Option Rfc822Name
  unfolding of_parts
  new value = of_parts (split_once b'@' value)

-- The derived PartialEq: the mailbox byte for byte, the domain as a DNS name.
unfoldable pub eq : Rfc822Name → Rfc822Name → Bool
eq a b = list_eq a.mailbox b.mailbox && Dns.eq a.domain b.domain

pub data Rfc822Constraint : Type 0 where
  exact : Rfc822Name → Rfc822Constraint
  on_domain : DnsName → Rfc822Constraint
  in_domain : DnsName → Rfc822Constraint

unfoldable pub domain_constraint :
    (DnsName → Rfc822Constraint) → Option DnsName → Option Rfc822Constraint
domain_constraint f none = none
domain_constraint f (some domain) = some (f domain)

module _ ⦃ia5 : Ia5⦄ where
  unfoldable pub new_constraint : Str → Option Rfc822Constraint
  unfolding domain_constraint
  new_constraint constraint = elim (strip_prefix (b'.' ∷ []) constraint) [
    | some rest ↦ domain_constraint in_domain (Dns.new rest)
    | none ↦ elim (new constraint) [
      | some email ↦ some (exact email)
      | none ↦ domain_constraint on_domain (Dns.new constraint)
    ]
  ]

unfoldable pub constraint_matches : Rfc822Constraint → Rfc822Name → Bool
unfolding eq
constraint_matches (exact pat) email = eq pat email
constraint_matches (on_domain pat) email = Dns.eq email.domain pat
constraint_matches (in_domain pat) email = is_subdomain_of email.domain pat
