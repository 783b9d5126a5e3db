-- ===== src/Verify/Policy/Subjects.antt =====
-- src/rust/cryptography-x509-verification/src/policy/mod.rs: Subject.
use cryptography.Prelude.{Bool, false, none, some, List, any}
use cryptography.Names.Ia5.{Ia5}
use cryptography.Names.Dns.{DnsName, DnsPattern}
use cryptography.Names.Dns
use cryptography.Names.Ip.{IpAddress}
use cryptography.Names.Ip
use cryptography.X509.Types.{GeneralName, dns_name, ip_address}

pub data Subject : Type 0 where
  dns : DnsName → Subject
  ip : IpAddress → Subject

module _ ⦃ia5 : Ia5⦄ where
  unfoldable pub subject_alt_name_matches : Subject → GeneralName → Bool
  subject_alt_name_matches (dns name) (dns_name pattern_text) =
      elim (Dns.new_pattern pattern_text) [ some p ↦ Dns.pattern_matches p name | none ↦ false ]
  subject_alt_name_matches (ip name) (ip_address addr) = elim (Ip.from_bytes addr) [
    | some a ↦ Ip.eq a name
    | none ↦ false
  ]
  subject_alt_name_matches _ _ = false

  unfoldable pub matches : Subject → List GeneralName → Bool
  unfolding subject_alt_name_matches
  matches self san = any (subject_alt_name_matches self) san
