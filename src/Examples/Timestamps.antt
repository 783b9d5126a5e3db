-- ===== src/Examples/Timestamps.antt =====
-- A list of timestamps, encoded.
use cryptography.Prelude.{ℕ, ◌≡◌, ◌↔◌, refl, List, [], ◌∷◌, ◌++◌, length, replicate}
use cryptography.Result.{ok}
use cryptography.Words.{from_be_bytes}
use cryptography.Sct.{parse_scts, parse_loop, certificate, Sct, sha256, ecdsa, timestamp_parts}
use cryptography.Sct.Parse.{parse_scts_iff, IsSctEncoding}

-- One timestamp of 1700000000123 ms with no extensions and a signature of two bytes.
abbrev entry : List ℕ
entry =
    0
    ∷ (replicate 32 7
        ++ (0 ∷ 0 ∷ 1 ∷ 139 ∷ 207 ∷ 229 ∷ 104 ∷ 123 ∷ [])
        ++ (0 ∷ 0 ∷ 4 ∷ 3 ∷ 0 ∷ 2 ∷ 48 ∷ 49 ∷ []))

abbrev list : List ℕ
list = 0 ∷ length entry ∷ entry

abbrev encoded : List ℕ
encoded = 0 ∷ length list ∷ (list ++ 99 ∷ [])

abbrev parsed : Sct
parsed = record {
  log_id = replicate 32 7;
  timestamp = 1700000000123;
  entry_type = certificate;
  hash_algorithm = sha256;
  signature_algorithm = ecdsa;
  signature = 48 ∷ 49 ∷ [];
  extension_bytes = [];
  sct_data = entry;
}

parse_scts_test : parse_scts certificate encoded ≡ ok (parsed ∷ [])
unfolding parse_scts parse_loop from_be_bytes
parse_scts_test = refl

parts_test : timestamp_parts parsed ≡ (1700000000, 123000)
unfolding timestamp_parts
parts_test = refl

parse_scts_iff_example :
    (parse_scts certificate encoded ≡ ok (parsed ∷ []))
    ↔ IsSctEncoding certificate (parsed ∷ []) encoded
parse_scts_iff_example = parse_scts_iff certificate encoded (parsed ∷ [])
