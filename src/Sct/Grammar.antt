-- ===== src/Sct/Grammar.antt =====
-- The format of a signed certificate timestamp, and parse_sct of src/x509/sct.rs against it.
use mathlib.Core.Path.{Path, subst, ap₂}
use cryptography.Prelude.{
  ℕ, ◌≡◌, refl, sym, ◌∙◌, ap, arith, List, ◌∷◌, ◌++◌, length, ◌==◌, if◌then◌else◌,
}
use cryptography.Result.{Result, ok, err, >>=-elim, >>=-ok, ok-injective}
use cryptography.Words.{from_be_bytes}
use cryptography.Sct.{
  SctError, read_exact, read_byte, read_length_prefixed, parse_sct, LogEntryType, Sct,
  HashAlgorithm, SignatureAlgorithm, hash_algorithm_of, signature_algorithm_of, md5, sha1, sha224,
  sha256, sha384, sha512, rsa, dsa, ecdsa, invalid_version,
}
use cryptography.Sct.Reader.{
  Prefixed, read_exact_sound, read_exact-append, read_byte_sound, read_byte-cons,
  read_length_prefixed_sound, read_length_prefixed-append,
}

-- The numbers of the algorithms.
abbrev pub hash_number : HashAlgorithm → ℕ
hash_number md5 = 1
hash_number sha1 = 2
hash_number sha224 = 3
hash_number sha256 = 4
hash_number sha384 = 5
hash_number sha512 = 6

abbrev pub signature_number : SignatureAlgorithm → ℕ
signature_number rsa = 1
signature_number dsa = 2
signature_number ecdsa = 3

hash_algorithm_of-number : (a : HashAlgorithm) → hash_algorithm_of (hash_number a) ≡ ok a
unfolding hash_algorithm_of
hash_algorithm_of-number md5 = refl
hash_algorithm_of-number sha1 = refl
hash_algorithm_of-number sha224 = refl
hash_algorithm_of-number sha256 = refl
hash_algorithm_of-number sha384 = refl
hash_algorithm_of-number sha512 = refl

signature_algorithm_of-number :
    (a : SignatureAlgorithm) → signature_algorithm_of (signature_number a) ≡ ok a
unfolding signature_algorithm_of
signature_algorithm_of-number rsa = refl
signature_algorithm_of-number dsa = refl
signature_algorithm_of-number ecdsa = refl

hash_algorithm_of_sound :
    (value : ℕ) {a : HashAlgorithm} → hash_algorithm_of value ≡ ok a → value ≡ hash_number a
unfolding hash_algorithm_of
hash_algorithm_of_sound value {a} h = ground (arith, h)

signature_algorithm_of_sound :
    (value : ℕ) {a : SignatureAlgorithm}
    → signature_algorithm_of value ≡ ok a
    → value ≡ signature_number a
unfolding signature_algorithm_of
signature_algorithm_of_sound value {a} h = ground (arith, h)

-- A timestamp and its encoding: version 0, the log's id, the time, the extensions, the algorithms and the
-- signature, and possibly more bytes after it.
pub record IsSct (entry : LogEntryType) (s : Sct) : Type 0 where
  pub time : List ℕ
  pub extensions : List ℕ
  pub signed : List ℕ
  pub junk : List ℕ
  pub log_id_size : length (s.log_id) ≡ 32
  pub time_size : length time ≡ 8
  pub time_value : from_be_bytes time ≡ s.timestamp
  pub extensions_prefixed : Prefixed (s.extension_bytes) extensions
  pub signed_prefixed : Prefixed (s.signature) signed
  pub entry_is : s.entry_type ≡ entry
  pub layout :
      s.sct_data
      ≡ 0
        ∷ (s.log_id
            ++ (time
                ++ (extensions
                    ++ (hash_number (s.hash_algorithm)
                        ∷ signature_number (s.signature_algorithm)
                        ∷ (signed ++ junk)))))

layout_of :
    (log time ext signed junk : List ℕ) {bytes r0 r1 r2 r3 r4 r5 : List ℕ} {v hb sb h g : ℕ}
    → bytes ≡ v ∷ r0
    → v ≡ 0
    → r0 ≡ log ++ r1
    → r1 ≡ time ++ r2
    → r2 ≡ ext ++ r3
    → r3 ≡ hb ∷ r4
    → hb ≡ h
    → r4 ≡ sb ∷ r5
    → sb ≡ g
    → r5 ≡ signed ++ junk
    → bytes ≡ 0 ∷ (log ++ (time ++ (ext ++ (h ∷ g ∷ (signed ++ junk)))))
layout_of log time ext signed junk a b c d e f g h i j = cc

zero_version :
    (v : ℕ)
    → Path (Result SctError (Unit {0})) (if v == 0 then ok tt else err invalid_version) (ok tt)
    → v ≡ 0
zero_version v h = ground (arith, h)

pub parse_sct_sound :
    (entry : LogEntryType) (bytes : List ℕ) {s : Sct}
    → parse_sct entry bytes ≡ ok s
    → IsSct entry s × (s.sct_data ≡ bytes)
unfolding parse_sct
parse_sct_sound entry bytes {s} h = >>=-elim (read_byte bytes) h λ version version_read h.
    >>=-elim (if version.0 == 0 then ok tt else err invalid_version) h λ _ version_is h.
      >>=-elim (read_exact 32 (version.1)) h λ log_id log_id_read h.
        >>=-elim (read_exact 8 (log_id.1)) h λ timestamp timestamp_read h.
          >>=-elim (read_length_prefixed (timestamp.1)) h λ extension extension_read h.
            >>=-elim (read_byte (extension.1)) h λ hash_byte hash_byte_read h.
              >>=-elim (hash_algorithm_of (hash_byte.0)) h λ hash hash_is h.
                >>=-elim (read_byte (hash_byte.1)) h λ sign_byte sign_byte_read h.
                  >>=-elim (signature_algorithm_of (sign_byte.0)) h λ sign sign_is h.
                    >>=-elim (read_length_prefixed (sign_byte.1)) h λ signature signature_read h.
                      let log_id_is = read_exact_sound 32 (version.1) log_id_read in
                      let time_is = read_exact_sound 8 (log_id.1) timestamp_read in
                      let extension_is = read_length_prefixed_sound (timestamp.1) extension_read in
                      let signature_is = read_length_prefixed_sound (sign_byte.1) signature_read in
                      let parsed : Sct = record {
                        log_id = log_id.0;
                        timestamp = from_be_bytes (timestamp.0);
                        entry_type = entry;
                        hash_algorithm = hash;
                        signature_algorithm = sign;
                        signature = signature.0;
                        extension_bytes = extension.0;
                        sct_data = bytes;
                      } in
                      subst (λ t. IsSct entry t × (t.sct_data ≡ bytes)) (ok-injective h)
                        (
                          record {
                            time = timestamp.0;
                            extensions = extension_is.0;
                            signed = signature_is.0;
                            junk = signature.1;
                            log_id_size = log_id_is.0;
                            time_size = time_is.0;
                            time_value = refl;
                            extensions_prefixed = extension_is.1;
                            signed_prefixed = signature_is.1;
                            entry_is = refl;
                            layout =
                                layout_of (log_id.0) (timestamp.0) (extension_is.0) (signature_is.0)
                                  (signature.1) (read_byte_sound bytes version_read)
                                  (zero_version (version.0) version_is) (log_id_is.1) (time_is.1)
                                  (extension_is.2) (read_byte_sound (extension.1) hash_byte_read)
                                  (hash_algorithm_of_sound (hash_byte.0) hash_is)
                                  (read_byte_sound (hash_byte.1) sign_byte_read)
                                  (signature_algorithm_of_sound (sign_byte.0) sign_is)
                                  (signature_is.2);
                          },
                          refl,
                        )

pub parse_sct_complete :
    (entry : LogEntryType) (s : Sct) → IsSct entry s → parse_sct entry (s.sct_data) ≡ ok s
unfolding parse_sct
parse_sct_complete entry s h =
    let after_signature = h.signed ++ h.junk in
    let after_hash = signature_number (s.signature_algorithm) ∷ after_signature in
    let after_extensions = hash_number (s.hash_algorithm) ∷ after_hash in
    let after_time = h.extensions ++ after_extensions in
    let after_id = h.time ++ after_time in
    >>=-ok (read_byte (s.sct_data)) _
      (ap read_byte (h.layout) ∙ read_byte-cons 0 (s.log_id ++ after_id))
      (>>=-ok (read_exact 32 (s.log_id ++ after_id)) _
        (read_exact-append 32 (s.log_id) after_id (h.log_id_size))
        (>>=-ok (read_exact 8 after_id) _ (read_exact-append 8 (h.time) after_time (h.time_size)) (
          >>=-ok (read_length_prefixed after_time) _
            (read_length_prefixed-append (s.extension_bytes) (h.extensions) after_extensions
              (h.extensions_prefixed))
            (>>=-ok (read_byte after_extensions) _
              (read_byte-cons (hash_number (s.hash_algorithm)) after_hash)
              (>>=-ok (hash_algorithm_of (hash_number (s.hash_algorithm))) _
                (hash_algorithm_of-number (s.hash_algorithm))
                (>>=-ok (read_byte after_hash) _
                  (read_byte-cons (signature_number (s.signature_algorithm)) after_signature)
                  (>>=-ok (signature_algorithm_of (signature_number (s.signature_algorithm))) _
                    (signature_algorithm_of-number (s.signature_algorithm))
                    (>>=-ok (read_length_prefixed after_signature) _
                      (read_length_prefixed-append (s.signature) (h.signed) (h.junk)
                        (h.signed_prefixed))
                      (ap₂
                        (λ (t : ℕ) (e : LogEntryType). ok (record {
                          log_id = s.log_id;
                          timestamp = t;
                          entry_type = e;
                          hash_algorithm = s.hash_algorithm;
                          signature_algorithm = s.signature_algorithm;
                          signature = s.signature;
                          extension_bytes = s.extension_bytes;
                          sct_data = s.sct_data;
                        }))
                        (h.time_value) (sym (h.entry_is)))))))))))
