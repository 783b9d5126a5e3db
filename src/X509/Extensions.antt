-- ===== src/X509/Extensions.antt =====
-- src/rust/cryptography-x509/src/extensions.rs: `Extensions`, whose constructor refuses a
-- duplicate.
pub mod Unique
use mathlib.Core.Bool.{decide}
use cryptography.Prelude.{Bool, true, false, Option, none, some, List, [], ◌∷◌, if◌then◌else◌, any}
use cryptography.Result.{Result, ok, err}
use cryptography.X509.Oid.{Oid}
use cryptography.X509.Certificate.{Extension, Certificate, TbsCertificate, Oid-discrete}

unfoldable pub oid_eq : Oid → Oid → Bool
unfolding Oid-discrete
oid_eq a b = decide (Oid-discrete a b)

pub record DuplicateExtensionsError : Type 0 where
  pub oid : Oid

pub record Extensions : Type 0 where
  pub raw : Option (List Extension)

-- The loop over the raw extensions: `insert` is false for an identifier that is there already.
unfoldable pub check_unique : List Oid → List Extension → Result DuplicateExtensionsError (Unit {0})
unfolding oid_eq
check_unique seen_oids [] = ok tt
check_unique seen_oids (ext ∷ exts) =
    let rest = check_unique (ext.extn_id ∷ seen_oids) exts in
    if any (oid_eq ext.extn_id) seen_oids then err (record { oid = ext.extn_id }) else rest

unfoldable pub with_raw :
    List Extension
    → Result DuplicateExtensionsError (Unit {0})
    → Result DuplicateExtensionsError Extensions
with_raw raw_exts (ok _) = ok (record { raw = some raw_exts })
with_raw raw_exts (err e) = err e

unfoldable pub from_raw_extensions :
    Option (List Extension) → Result DuplicateExtensionsError Extensions
unfolding with_raw check_unique
from_raw_extensions (some raw_exts) = with_raw raw_exts (check_unique [] raw_exts)
from_raw_extensions none = ok (record { raw = none })

abbrev pub entries : Option (List Extension) → List Extension
entries none = []
entries (some raw_exts) = raw_exts

abbrev pub iter : Extensions → List Extension
iter exts = entries exts.raw

-- The first extension with the identifier.
unfoldable pub find_extension : Oid → List Extension → Option Extension
unfolding oid_eq
find_extension oid [] = none
find_extension oid (ext ∷ exts) =
    let rest = find_extension oid exts in if oid_eq ext.extn_id oid then some ext else rest

unfoldable pub get_extension : Extensions → Oid → Option Extension
unfolding find_extension
get_extension self oid = find_extension oid (iter self)

unfoldable pub extensions : Certificate → Result DuplicateExtensionsError Extensions
unfolding from_raw_extensions
extensions cert = from_raw_extensions cert.tbs_cert.raw_extensions
