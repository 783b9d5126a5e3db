-- ===== src/Examples/Data.antt =====
-- A decoder, a signature scheme and certificates that are small enough to compute with. A value
-- that an extension holds is read as the bytes of one name, one flag or one key.
use cryptography.Prelude.{
  ℕ, refl, true, false, none, some, List, [], ◌∷◌, ltb, leb, ◌==◌, if◌then◌else◌, list_eq,
}
use cryptography.Str.{Str}
use cryptography.Result.{Result, ok, err}
use cryptography.X509.Oid.{
  ec_oid, ec_secp256r1, ecdsa_with_sha256_oid, eku_server_auth_oid, basic_constraints_oid,
  key_usage_oid, subject_alternative_name_oid, authority_key_identifier_oid, name_constraints_oid,
}
use cryptography.X509.Types.{
  Name, AlgorithmIdentifier, simple, absent, named_curve, DateTime, utc_time, dns_name,
  BasicConstraints, GeneralName,
}
use cryptography.X509.Certificate.{Certificate, Extension}
use cryptography.X509.Extensions.{Extensions}
use cryptography.X509.Types.{NameConstraints}
use cryptography.Verify.NameChain.{NameChain, leaf}
use cryptography.Verify.Asn1.{Asn1}
use cryptography.Verify.Policy.Base.{CryptoOps, PolicyBase}
use cryptography.Verify.Policy.Subjects.{dns}
use cryptography.Verify.Policy.Algorithms.{
  webpki_permitted_spki_algorithms, webpki_permitted_signature_algorithms,
}
use cryptography.Verify.Policy.Webpki.{new_default_webpki_ca, new_default_webpki_ee}
use cryptography.Verify.Policy.{PolicyDefinition}
use cryptography.Verify.Store.{Store}

abbrev pub a_com : Str
a_com = b'a' ∷ b'.' ∷ b'c' ∷ b'o' ∷ b'm' ∷ []

abbrev pub c_com : Str
c_com = b'c' ∷ b'o' ∷ b'm' ∷ []

abbrev names_in : Str → Result (Unit {0}) (List GeneralName)
names_in [] = err tt
names_in s = if list_eq s (0x30 ∷ 0x00 ∷ []) then ok [] else ok (dns_name s ∷ [])

abbrev constraints_in : Str → Result (Unit {0}) BasicConstraints
constraints_in [] = err tt
constraints_in (flag ∷ s) = ok (record { ca = flag == 1; path_length = none })

abbrev first_byte : Str → ℕ
first_byte [] = 0
first_byte (c ∷ s) = c

abbrev pub byte_asn1 : Asn1 (Unit {0})
byte_asn1 = record {
  subject_alternative_name = names_in;
  basic_constraints = constraints_in;
  key_usage = λ s. ok (record { content = s; padding_bits = 0 });
  extended_key_usage = λ s. ok (eku_server_auth_oid ∷ []);
  authority_key_identifier = λ s. ok (record {
    key_identifier = some s;
    authority_cert_issuer = none;
    authority_cert_serial_number = none;
  });
  name_constraints = λ s. ok (record {
    permitted_subtrees = some (record { base = dns_name s; minimum = 0; maximum = none } ∷ []);
    excluded_subtrees = none;
  });
  access_descriptions = λ s. ok [];
  rsa_modulus = λ s. ok s;
  has_bit_set = λ bits n. first_byte bits.content == n;
  is_negative = λ s. leb 128 (first_byte s);
  datetime_lt = λ s t. ltb s.year t.year;
  empty_sequence = refl;
}

-- A signature verifies if its bytes are those of the key.
abbrev pub byte_ops : CryptoOps Str
byte_ops = record {
  public_key = λ cert. some cert.tbs_cert.spki.subject_public_key.content;
  verify_signed_by = λ cert key. list_eq cert.signature.content key;
}

abbrev pub named : ℕ → Name
named c =
    (record { type_id = 2 ∷ 5 ∷ 4 ∷ 3 ∷ []; value = record { tag = 12; value = c ∷ [] } } ∷ []) ∷ []

abbrev year : ℕ → DateTime
year y = record { year = y; month = 1; day = 1; hour = 0; minute = 0; second = 0 }

abbrev ecdsa : AlgorithmIdentifier
ecdsa = record { oid = ecdsa_with_sha256_oid; params = simple absent }

-- A certificate from its subject, issuer, key, the key that signed it, and its extensions.
abbrev certificate : ℕ → ℕ → ℕ → ℕ → List Extension → Certificate
certificate subject issuer key signer exts = record {
  tbs_cert = record {
    version = 2;
    serial = 1 ∷ [];
    signature_alg = ecdsa;
    issuer = named issuer;
    validity = record { not_before = utc_time (year 2020); not_after = utc_time (year 2030) };
    subject = named subject;
    spki = record {
      algorithm = record { oid = ec_oid; params = simple (named_curve ec_secp256r1) };
      subject_public_key = record { content = key ∷ []; padding_bits = 0 };
    };
    issuer_unique_id = none;
    subject_unique_id = none;
    raw_extensions = some exts;
  };
  signature_alg = ecdsa;
  signature = record { content = signer ∷ []; padding_bits = 0 };
}

abbrev pub leaf_extensions : List Extension
leaf_extensions =
    record { extn_id = authority_key_identifier_oid; critical = false; extn_value = 7 ∷ [] }
    ∷ record { extn_id = subject_alternative_name_oid; critical = false; extn_value = a_com }
    ∷ []

-- A CA whose names are constrained to `com`.
abbrev pub root_extensions : List Extension
root_extensions =
    record { extn_id = basic_constraints_oid; critical = true; extn_value = 1 ∷ [] }
    ∷ record { extn_id = key_usage_oid; critical = true; extn_value = 5 ∷ [] }
    ∷ record { extn_id = name_constraints_oid; critical = true; extn_value = c_com }
    ∷ []

abbrev pub leaf_cert : Certificate
leaf_cert = certificate 1 2 10 20 leaf_extensions

abbrev pub root_cert : Certificate
root_cert = certificate 2 2 20 20 root_extensions

abbrev pub root_store : Store
root_store = record { by_subject = (named 2, root_cert ∷ []) ∷ [] }

-- A CA with the name and the key of the root, whose alternative names do not parse, before the root.
abbrev pub malformed_ca : Certificate
malformed_ca = certificate 2 3 20 30 (
    record { extn_id = basic_constraints_oid; critical = true; extn_value = 1 ∷ [] }
    ∷ record { extn_id = key_usage_oid; critical = true; extn_value = 5 ∷ [] }
    ∷ record { extn_id = authority_key_identifier_oid; critical = false; extn_value = 7 ∷ [] }
    ∷ record { extn_id = subject_alternative_name_oid; critical = false; extn_value = [] }
    ∷ [])

abbrev pub base_policy : PolicyBase
base_policy = record {
  max_chain_depth = 8;
  subject = some (dns (record { value = a_com }));
  validation_time = year 2025;
  extended_key_usage = eku_server_auth_oid;
  minimum_rsa_modulus = 2048;
  permitted_public_key_algorithms = webpki_permitted_spki_algorithms;
  permitted_signature_algorithms = webpki_permitted_signature_algorithms;
}

abbrev pub server_policy : PolicyDefinition (Unit {0})
server_policy = record {
  base = base_policy;
  ca_extension_policy = new_default_webpki_ca ⦃asn1 = byte_asn1⦄;
  ee_extension_policy = new_default_webpki_ee ⦃asn1 = byte_asn1⦄;
}

abbrev pub leaf_exts : Extensions
leaf_exts = record { raw = some leaf_extensions }

abbrev pub root_exts : Extensions
root_exts = record { raw = some root_extensions }

abbrev pub leaf_names : NameChain
leaf_names = leaf (dns_name a_com ∷ [])

abbrev pub com_constraints : NameConstraints
com_constraints = record {
  permitted_subtrees = some (record { base = dns_name c_com; minimum = 0; maximum = none } ∷ []);
  excluded_subtrees = none;
}

abbrev pub no_org_constraints : NameConstraints
no_org_constraints = record {
  permitted_subtrees = none;
  excluded_subtrees =
      some (record { base = dns_name (b'o' ∷ b'r' ∷ b'g' ∷ []); minimum = 0; maximum = none } ∷ []);
}
