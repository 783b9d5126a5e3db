-- ===== src/Verify/Asn1.antt =====
-- What the asn1 crate does for path validation. `E` is its parse error, which the program only hands
-- on; each field is one decoder or accessor that the program calls.
use cryptography.Prelude.{ℕ, Bool, List, [], ◌∷◌, ◌≡◌}
use cryptography.Str.{Str}
use cryptography.Result.{Result, ok}
use cryptography.X509.Oid.{Oid}
use cryptography.X509.Types.{
  GeneralName, BasicConstraints, NameConstraints, AuthorityKeyIdentifier, AccessDescription,
  BitString, DateTime,
}

pub record Asn1 (E : Type 0) : Type 0 where
  -- asn1::parse_single at the types that extensions hold
  pub subject_alternative_name : Str → Result E (List GeneralName)
  pub basic_constraints : Str → Result E BasicConstraints
  pub key_usage : Str → Result E BitString
  pub extended_key_usage : Str → Result E (List Oid)
  pub authority_key_identifier : Str → Result E AuthorityKeyIdentifier
  pub name_constraints : Str → Result E NameConstraints
  pub access_descriptions : Str → Result E (List AccessDescription)
  -- The modulus of a Pkcs1RsaPublicKey, as the bytes of a BigUint.
  pub rsa_modulus : Str → Result E Str
  pub has_bit_set : BitString → ℕ → Bool
  -- BigInt::is_negative
  pub is_negative : Str → Bool
  -- `<` on DateTime
  pub datetime_lt : DateTime → DateTime → Bool
  -- An empty SEQUENCE OF decodes to no names.
  pub empty_sequence : subject_alternative_name (0x30 ∷ 0x00 ∷ []) ≡ ok []
