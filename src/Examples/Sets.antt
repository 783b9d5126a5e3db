-- ===== src/Examples/Sets.antt =====
-- Extension sets and the trust store.
use mathlib.Core.List.{Memᴰ}
use cryptography.Prelude.{◌≡◌, ◌↔◌, refl, false, some, [], ◌∷◌, ℕ_discrete}
use mathlib.Core.Bool.{decide}
use cryptography.Result.{ok}
use cryptography.X509.Oid.{authority_key_identifier_oid}
use cryptography.X509.Certificate.{Extension}
use cryptography.X509.Extensions.{Extensions, entries, from_raw_extensions, get_extension}
use cryptography.X509.Extensions.Unique.{Unique, from_raw_extensions_iff, get_extension-mem}
use cryptography.Verify.Store.{get_by_subject, new}
use cryptography.Verify.Store.Lookup.{with_subject, get_by_subject-new}
use cryptography.Examples.Data.{leaf_extensions, leaf_cert, root_cert, named}

abbrev leaf_set : Extensions
leaf_set = record { raw = some leaf_extensions }

from_raw_extensions_iff_example : (from_raw_extensions (some leaf_extensions) ≡ ok leaf_set) ↔ (
    (leaf_set ≡ record { raw = some leaf_extensions }) × Unique [] (entries (some leaf_extensions)))
from_raw_extensions_iff_example = from_raw_extensions_iff (some leaf_extensions) leaf_set

leaf_accepted : from_raw_extensions (some leaf_extensions) ≡ ok leaf_set
unfolding from_raw_extensions decide ℕ_discrete
leaf_accepted = refl

abbrev key_identifier : Extension
key_identifier = record {
  extn_id = authority_key_identifier_oid;
  critical = false;
  extn_value = 7 ∷ [];
}

get_extension-mem_example : get_extension leaf_set key_identifier.extn_id ≡ some key_identifier
get_extension-mem_example =
    get_extension-mem (some leaf_extensions) leaf_set key_identifier leaf_accepted (Memᴰ.head refl)

get_by_subject-new_example :
    get_by_subject (new (root_cert ∷ leaf_cert ∷ [])) (named 2)
    ≡ with_subject (named 2) (root_cert ∷ leaf_cert ∷ [])
get_by_subject-new_example = get_by_subject-new (root_cert ∷ leaf_cert ∷ []) (named 2)
