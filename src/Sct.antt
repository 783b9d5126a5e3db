-- ===== src/Sct.antt =====
-- Signed certificate timestamps, src/x509/sct.rs of src/rust: the reader of TLS data, the algorithm
-- numbers, and the parser of a list of timestamps. The bytes that a reader has not read are its state:
-- a read returns what it has read and the bytes left.
pub mod Reader
pub mod Grammar
pub mod Parse
use cryptography.Prelude.{
  ℕ, zero, suc, ◌*◌, ◌/◌, ◌%◌, Bool, true, false, not, List, [], ◌∷◌, ◌++◌, length, take, drop,
  is_empty, list_eq, ltb, ◌==◌, if◌then◌else◌,
}
use cryptography.Result.{Result, ok, err, ◌>>=◌, ◌>>◌}
use cryptography.Words.{from_be_bytes}

-- What the parser raises. `index_panic` is Rust's index out of bounds, `no_fuel` the end of the fuel.
pub data SctError : Type 0 where
  invalid_length : SctError
  invalid_version : SctError
  invalid_hash_algorithm : ℕ → SctError
  invalid_signature_algorithm : ℕ → SctError
  index_panic : SctError
  no_fuel : SctError

unfoldable pub read_exact : ℕ → List ℕ → Result SctError (List ℕ × List ℕ)
read_exact count bytes =
    if ltb (length bytes) count then err invalid_length else ok (take count bytes, drop count bytes)

-- `[0]`
unfoldable pub index_zero : List ℕ → Result SctError ℕ
index_zero [] = err index_panic
index_zero (b ∷ bs) = ok b

unfoldable pub read_byte : List ℕ → Result SctError (ℕ × List ℕ)
unfolding read_exact index_zero
read_byte reader = do read ← read_exact 1 reader; byte ← index_zero (read.0); ok (byte, read.1)

unfoldable pub read_length_prefixed : List ℕ → Result SctError (List ℕ × List ℕ)
unfolding read_exact
read_length_prefixed reader = do
  read ← read_exact 2 reader
  read_exact (from_be_bytes (read.0)) (read.1)

pub data LogEntryType : Type 0 where
  certificate : LogEntryType
  pre_certificate : LogEntryType

pub data HashAlgorithm : Type 0 where
  md5 : HashAlgorithm
  sha1 : HashAlgorithm
  sha224 : HashAlgorithm
  sha256 : HashAlgorithm
  sha384 : HashAlgorithm
  sha512 : HashAlgorithm

pub data SignatureAlgorithm : Type 0 where
  rsa : SignatureAlgorithm
  dsa : SignatureAlgorithm
  ecdsa : SignatureAlgorithm

-- TryFrom<u8>
unfoldable pub hash_algorithm_of : ℕ → Result SctError HashAlgorithm
hash_algorithm_of value =
    if value == 1
    then ok md5
    else if value == 2
    then ok sha1
    else if value == 3
    then ok sha224
    else if value == 4
    then ok sha256
    else if value == 5
    then ok sha384
    else if value == 6
    then ok sha512
    else err (invalid_hash_algorithm value)

unfoldable pub signature_algorithm_of : ℕ → Result SctError SignatureAlgorithm
signature_algorithm_of value =
    if value == 1
    then ok rsa
    else if value == 2
    then ok dsa
    else if value == 3
    then ok ecdsa
    else err (invalid_signature_algorithm value)

pub record Sct : Type 0 where
  pub log_id : List ℕ
  pub timestamp : ℕ
  pub entry_type : LogEntryType
  pub hash_algorithm : HashAlgorithm
  pub signature_algorithm : SignatureAlgorithm
  pub signature : List ℕ
  pub extension_bytes : List ℕ
  pub sct_data : List ℕ

-- __eq__
unfoldable pub sct_eq : Sct → Sct → Bool
sct_eq s t = list_eq (s.sct_data) (t.sct_data)

-- What the getter `timestamp` gives to datetime: the seconds and then the microseconds.
unfoldable pub timestamp_parts : Sct → ℕ × ℕ
timestamp_parts s = (s.timestamp / 1000, s.timestamp % 1000 * 1000)

-- The body of the loop after the reader `sct_bytes` of one entry has been taken.
unfoldable pub parse_sct : LogEntryType → List ℕ → Result SctError Sct
unfolding read_byte read_exact read_length_prefixed hash_algorithm_of signature_algorithm_of
parse_sct entry sct_bytes = do
  version ← read_byte sct_bytes
  if version.0 == 0 then ok tt else err invalid_version
  log_id ← read_exact 32 (version.1)
  timestamp ← read_exact 8 (log_id.1)
  extension_bytes ← read_length_prefixed (timestamp.1)
  hash_byte ← read_byte (extension_bytes.1)
  hash_algorithm ← hash_algorithm_of (hash_byte.0)
  signature_byte ← read_byte (hash_byte.1)
  signature_algorithm ← signature_algorithm_of (signature_byte.0)
  signature ← read_length_prefixed (signature_byte.1)
  ok (record {
    log_id = log_id.0;
    timestamp = from_be_bytes (timestamp.0);
    entry_type = entry;
    hash_algorithm = hash_algorithm;
    signature_algorithm = signature_algorithm;
    signature = signature.0;
    extension_bytes = extension_bytes.0;
    sct_data = sct_bytes;
  })

-- The loop, with fuel for its rounds.
unfoldable pub parse_loop : ℕ → LogEntryType → List ℕ → Result SctError (List Sct)
unfolding parse_sct read_length_prefixed
parse_loop zero entry reader = if is_empty reader then ok [] else err no_fuel
parse_loop (suc fuel) entry reader = if is_empty reader then ok [] else do
  sct_bytes ← read_length_prefixed reader
  sct ← parse_sct entry (sct_bytes.0)
  scts ← parse_loop fuel entry (sct_bytes.1)
  ok (sct ∷ scts)

-- A round reads two bytes or more, so a round for each byte is enough.
unfoldable pub parse_scts : LogEntryType → List ℕ → Result SctError (List Sct)
unfolding parse_loop read_length_prefixed
parse_scts entry bytes = do
  reader ← read_length_prefixed bytes
  parse_loop (length (reader.0)) entry (reader.0)
