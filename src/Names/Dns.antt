-- ===== src/Names/Dns.antt =====
-- src/rust/cryptography-x509-verification/src/types.rs: DNSName, DNSPattern and DNSConstraint.
pub mod Labels
pub mod Label
pub mod Valid
use cryptography.Prelude.{
  ℕ, Bool, true, false, not, ◌&&◌, ◌||◌, Option, none, some, List, [], ◌∷◌, leb, ltb, ◌==◌,
  if◌then◌else◌, length, is_empty, all,
}
use cryptography.Str.{
  Str, is_ascii_alphanumeric, eq_ignore_ascii_case, split, rsplit, split_once, starts_with,
  ends_with, strip_prefix, zip_all,
}
use cryptography.Names.Ia5.{Ia5}

pub record DnsName : Type 0 where
  pub value : Str

-- The two tests of the loop over the labels; it goes on while neither of them fails.
unfoldable pub is_label : Str → Bool
unfolding is_ascii_alphanumeric
is_label label =
    if is_empty label || ltb 63 (length label) || starts_with b'-' label || ends_with b'-' label
    then false
    else all (λ c. is_ascii_alphanumeric c || c == b'-') label

module _ ⦃ia5 : Ia5⦄ where
  unfoldable pub new : Str → Option DnsName
  unfolding is_label split
  new value =
      if is_empty value || ltb 253 (length value)
      then none
      else if all is_label (split b'.' value)
      then (if ia5.accepts value then some (record { value = value }) else none)
      else none

  unfoldable pub parent_of : Option (Str × Str) → Option DnsName
  parent_of none = none
  parent_of (some (_, parent)) = new parent

  unfoldable pub parent : DnsName → Option DnsName
  unfolding new parent_of split_once
  parent name = parent_of (split_once b'.' name.value)

unfoldable pub rlabels : DnsName → List Str
unfolding split
rlabels name = rsplit b'.' name.value

-- PartialEq
unfoldable pub eq : DnsName → DnsName → Bool
unfolding eq_ignore_ascii_case
eq a b = eq_ignore_ascii_case a.value b.value

unfoldable pub is_subdomain_of : DnsName → DnsName → Bool
unfolding rlabels zip_all eq_ignore_ascii_case
is_subdomain_of self other =
    ltb (length other.value) (length self.value)
    && zip_all eq_ignore_ascii_case (rlabels self) (rlabels other)

pub data DnsPattern : Type 0 where
  exact : DnsName → DnsPattern
  wildcard : DnsName → DnsPattern

module _ ⦃ia5 : Ia5⦄ where
  unfoldable pub wrap : (DnsName → DnsPattern) → Option DnsName → Option DnsPattern
  wrap f none = none
  wrap f (some name) = some (f name)

  unfoldable pub new_pattern : Str → Option DnsPattern
  unfolding new wrap
  new_pattern pat = elim (strip_prefix (b'*' ∷ b'.' ∷ []) pat) [
    | some rest ↦ wrap wildcard (new rest)
    | none ↦ wrap exact (new pat)
  ]

  unfoldable pub pattern_matches : DnsPattern → DnsName → Bool
  unfolding eq parent
  pattern_matches (exact pat) name = eq pat name
  pattern_matches (wildcard pat) name = elim (parent name) [
    | some parent_name ↦ eq pat parent_name
    | none ↦ false
  ]

unfoldable pub inner_name : DnsPattern → DnsName
inner_name (exact name) = name
inner_name (wildcard name) = name

pub record DnsConstraint : Type 0 where
  pub name : DnsName

module _ ⦃ia5 : Ia5⦄ where
  unfoldable pub new_constraint : Str → Option DnsConstraint
  unfolding new
  new_constraint pattern_text = elim (new pattern_text) [
    | none ↦ none
    | some n ↦ some (record { name = n })
  ]

unfoldable pub constraint_matches : DnsConstraint → DnsName → Bool
unfolding rlabels zip_all eq_ignore_ascii_case
constraint_matches self name =
    leb (length self.name.value) (length name.value)
    && zip_all eq_ignore_ascii_case (rlabels self.name) (rlabels name)
