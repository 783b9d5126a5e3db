-- ===== src/X509/Types.antt =====
-- src/rust/cryptography-x509/src/{common,name,extensions}.rs: the data types that certificates
-- hold. The byte strings, numbers and sequences of the asn1 crate are lists.
use cryptography.Prelude.{ℕ, Bool, Option, List}
use cryptography.Str.{Str}
use cryptography.X509.Oid.{Oid}

-- A value with its tag, not decoded.
pub record RawTlv : Type 0 where
  pub tag : ℕ
  pub value : Str

pub record AttributeTypeValue : Type 0 where
  pub type_id : Oid
  pub value : RawTlv

-- A sequence of sets.
abbrev pub Name : Type 0
Name = List (List AttributeTypeValue)

pub data GeneralName : Type 0 where
  other_name : Oid → Str → GeneralName
  rfc822_name dns_name x400_address : Str → GeneralName
  directory_name : Name → GeneralName
  edi_party_name uniform_resource_identifier ip_address : Str → GeneralName
  registered_id : Oid → GeneralName

-- asn1::DateTime by its accessors.
pub record DateTime : Type 0 where
  pub year : ℕ
  pub month : ℕ
  pub day : ℕ
  pub hour : ℕ
  pub minute : ℕ
  pub second : ℕ

pub data Time : Type 0 where
  utc_time : DateTime → Time
  generalized_time : DateTime → Time

abbrev pub as_datetime : Time → DateTime
as_datetime (utc_time t) = t
as_datetime (generalized_time t) = t

-- asn1::BitString
pub record BitString : Type 0 where
  pub content : Str
  pub padding_bits : ℕ

pub record BasicConstraints : Type 0 where
  pub ca : Bool
  pub path_length : Option ℕ

pub record GeneralSubtree : Type 0 where
  pub base : GeneralName
  pub minimum : ℕ
  pub maximum : Option ℕ

pub record NameConstraints : Type 0 where
  pub permitted_subtrees : Option (List GeneralSubtree)
  pub excluded_subtrees : Option (List GeneralSubtree)

pub record AuthorityKeyIdentifier : Type 0 where
  pub key_identifier : Option Str
  pub authority_cert_issuer : Option (List GeneralName)
  pub authority_cert_serial_number : Option Str

pub record AccessDescription : Type 0 where
  pub access_method : Oid
  pub access_location : GeneralName

-- The fields of an algorithm's parameters that are no algorithm identifiers themselves.
pub data SimpleParameters : Type 0 where
  absent null : SimpleParameters
  named_curve : Oid → SimpleParameters
  raw : Str → SimpleParameters

-- The enum AlgorithmParameters has one constructor for each object identifier (`defined_by`), so an
-- identifier with the parameters under it stands for the constructor.
pub record SimpleAlgorithm : Type 0 where
  pub oid : Oid
  pub params : SimpleParameters

pub record RsaPssParameters : Type 0 where
  pub hash_algorithm : SimpleAlgorithm
  pub mask_gen_oid : Oid
  pub mask_gen_params : SimpleAlgorithm
  pub salt_length : ℕ
  pub trailer_field : Option ℕ

pub data AlgorithmParameters : Type 0 where
  simple : SimpleParameters → AlgorithmParameters
  rsa_pss : Option RsaPssParameters → AlgorithmParameters

pub record AlgorithmIdentifier : Type 0 where
  pub oid : Oid
  pub params : AlgorithmParameters

pub record SubjectPublicKeyInfo : Type 0 where
  pub algorithm : AlgorithmIdentifier
  pub subject_public_key : BitString
