-- ===== src/Examples/Naming.antt =====
-- Names and addresses.
use cryptography.Prelude.{
  ℕ, length, take, drop, ◌+◌, ◌-◌, ◌/◌, ◌%◌, ◌^◌, ◌≡◌, ◌↔◌, refl, arith, true, none, some, List, [],
  ◌∷◌, ◌++◌,
}
use cryptography.Str.{Str, to_ascii_lowercase}
use cryptography.Words.{from_be_bytes, to_be_bytes, leading_ones, count_ones}
use cryptography.Words.Bytes.{from_be_bytes-to_be_bytes}
use cryptography.Names.Ia5.{ascii_ia5}
use cryptography.Names.Dns.{
  DnsName, wildcard, DnsConstraint, new, parent, is_subdomain_of, pattern_matches, inner_name,
  constraint_matches,
}
use cryptography.Names.Dns.Labels.{labels, constraint_matches_iff, is_subdomain_of_iff}
use cryptography.Names.Dns.Valid.{IsDomain, IsValid, new_iff, wildcard_iff, inner_name_sound}
use cryptography.Names.Ip.{
  IpAddress, IpConstraint, v4, as_prefix, mask, from_bytes, constraint_from_bytes,
}
use cryptography.Names.Ip
use cryptography.Names.Ip.Prefix.{IsAddress, SameFamily, network, value, width, matches_iff}
use cryptography.Names.Ip.Octets.{constraint_from_bytes-matches}
use cryptography.Names.Rfc822.{Rfc822Name, Rfc822Constraint, in_domain}
use cryptography.Names.Rfc822
use cryptography.Names.Rfc822.Match.{Allows, mailbox_matches_iff}
use cryptography.Examples.Data.{a_com, c_com}

abbrev host : DnsName
host = record { value = a_com }

abbrev top : DnsName
top = record { value = c_com }

abbrev constraint : DnsConstraint
constraint = record { name = top }

constraint_matches_iff_example :
    (constraint_matches constraint host ≡ true)
    ↔ ((ps : List Str) × (labels host ≡ ps ++ labels top))
constraint_matches_iff_example = constraint_matches_iff constraint host

is_subdomain_of_iff_example :
    (is_subdomain_of host top ≡ true)
    ↔ ((p : Str) × (ps : List Str) × (labels host ≡ (p ∷ ps) ++ labels top))
is_subdomain_of_iff_example = is_subdomain_of_iff host top

new_iff_example :
    (new ⦃ia5 = ascii_ia5⦄ a_com ≡ some host) ↔ ((host ≡ record { value = a_com }) × IsDomain a_com)
new_iff_example = new_iff ⦃ia5 = ascii_ia5⦄ a_com host

host-IsValid : IsValid ⦃ia5 = ascii_ia5⦄ host
unfolding new
host-IsValid = refl

top-IsValid : IsValid ⦃ia5 = ascii_ia5⦄ top
unfolding new
top-IsValid = refl

host-parent : parent ⦃ia5 = ascii_ia5⦄ host ≡ some top
unfolding parent
host-parent = refl

top-parent : parent ⦃ia5 = ascii_ia5⦄ top ≡ none
unfolding parent
top-parent = refl

wildcard_iff_example :
    (pattern_matches ⦃ia5 = ascii_ia5⦄ (wildcard top) host ≡ true)
    ↔ ((l : Str) × (labels host ≡ l ∷ labels top))
wildcard_iff_example = wildcard_iff ⦃ia5 = ascii_ia5⦄ top host host-IsValid

top_constrained : constraint_matches constraint (inner_name (wildcard top)) ≡ true
unfolding constraint_matches inner_name to_ascii_lowercase
top_constrained = refl

host_matched : pattern_matches ⦃ia5 = ascii_ia5⦄ (wildcard top) host ≡ true
unfolding pattern_matches to_ascii_lowercase
host_matched = refl

inner_name_sound_example : constraint_matches constraint host ≡ true
inner_name_sound_example =
    inner_name_sound ⦃ia5 = ascii_ia5⦄ constraint (wildcard top) host host-IsValid top_constrained
      host_matched

abbrev address : IpAddress
address = v4 (10 ∷ 1 ∷ 2 ∷ 3 ∷ [])

abbrev neighbour : IpAddress
neighbour = v4 (10 ∷ 9 ∷ 8 ∷ 7 ∷ [])

abbrev netmask : IpAddress
netmask = v4 (255 ∷ 255 ∷ 0 ∷ 0 ∷ [])

address-IsAddress : IsAddress address
address-IsAddress = (refl, (omega arith, (omega arith, (omega arith, (omega arith, tt)))))

neighbour-IsAddress : IsAddress neighbour
neighbour-IsAddress = (refl, (omega arith, (omega arith, (omega arith, (omega arith, tt)))))

netmask-IsAddress : IsAddress netmask
netmask-IsAddress = (refl, (omega arith, (omega arith, (omega arith, (omega arith, tt)))))

matches_iff_example :
    (Ip.constraint_matches (record { address = mask address 8; prefix = 8 }) neighbour ≡ true)
    ↔ (SameFamily address neighbour × (network address 8 ≡ network neighbour 8))
matches_iff_example = matches_iff address neighbour 8 address-IsAddress neighbour-IsAddress

netmask_prefix : as_prefix netmask ≡ some 16
unfolding as_prefix leading_ones count_ones from_be_bytes
netmask_prefix = refl

abbrev email : Rfc822Name
email = record { mailbox = b'a' ∷ []; domain = host }

mailbox_matches_iff_example :
    (Rfc822.constraint_matches (in_domain top) email ≡ true) ↔ Allows (in_domain top) email
mailbox_matches_iff_example = mailbox_matches_iff (in_domain top) email

from_be_bytes-to_be_bytes_example : from_be_bytes (to_be_bytes 2 70000) ≡ 70000 % 256 ^ 2
from_be_bytes-to_be_bytes_example = from_be_bytes-to_be_bytes 2 70000

abbrev network_octets : List ℕ
network_octets = 10 ∷ 1 ∷ 2 ∷ 3 ∷ 255 ∷ 255 ∷ 0 ∷ 0 ∷ []

abbrev network_constraint : IpConstraint
network_constraint = record { address = mask address 16; prefix = 16 }

octets_read : constraint_from_bytes network_octets ≡ some network_constraint
unfolding constraint_from_bytes as_prefix from_bytes leading_ones count_ones from_be_bytes
octets_read = refl

constraint_from_bytes-matches_example :
    (base : IpAddress) × (mask' : IpAddress) × (p : ℕ) × (from_bytes
        (take (length network_octets / 2) network_octets)
      ≡ some base)
    × (from_bytes (drop (length network_octets / 2) network_octets) ≡ some mask')
    × (value mask' + 2 ^ (width mask' - p) ≡ 2 ^ width mask')
    × ((Ip.constraint_matches network_constraint neighbour ≡ true)
        ↔ (SameFamily base neighbour × (network base p ≡ network neighbour p)))
constraint_from_bytes-matches_example =
    constraint_from_bytes-matches network_octets network_constraint neighbour
      (
        omega arith,
        (
          omega arith,
          (
            omega arith,
            (omega arith, (omega arith, (omega arith, (omega arith, (omega arith, tt))))),
          ),
        ),
      )
      neighbour-IsAddress octets_read
