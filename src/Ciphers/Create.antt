-- ===== src/Ciphers/Create.antt =====
-- create_encryption_ctx, create_decryption_ctx, cipher_supported and the functions that advance the
-- counters, of src/backend/ciphers.rs.
use cryptography.Prelude.{ℕ, Bool, true, false, Option, none, some, if◌then◌else◌}
use cryptography.Result.{Result, ok, err, map_err, ◌>>=◌}
use cryptography.Ciphers.Base.{openssl_error, Openssl, Algorithm, Mode, encrypt, decrypt}
use cryptography.Ciphers.Context.{CipherContext, Error, call}
use cryptography.Ciphers.Context
use cryptography.Ciphers.Python.{PyCipherContext}
use cryptography.Ciphers.Aead.{AeadContext, EncryptionContext, advance, advance_aad}

module _ (o : Openssl) where
  pub data AnyContext : Type 0 where
    cipher_context : PyCipherContext o → AnyContext
    aead_encryption : EncryptionContext o → AnyContext
    aead_decryption : AeadContext o → AnyContext

  -- The counters of a mode.
  unfoldable pub fresh : Mode → CipherContext o → AeadContext o
  fresh mode c = record {
    ctx = some c;
    updated = false;
    bytes_remaining = mode.max_encrypted_bytes;
    aad_bytes_remaining = mode.max_aad_bytes;
  }

  unfoldable pub create_encryption_ctx : Algorithm → Mode → Result (Error o) AnyContext
  unfolding fresh
  create_encryption_ctx algorithm mode = do
    c ← Context.new o algorithm mode encrypt
    ok (
        if mode.with_authentication_tag
        then aead_encryption (record { shared = fresh mode c; tag = none })
        else cipher_context (record { ctx = some c }))

  -- The tag of the mode, where there is one, is OpenSSL's from the start.
  unfoldable pub with_tag : Mode → CipherContext o → Result (Error o) (CipherContext o)
  with_tag mode c = elim (mode.tag) [
    | none ↦ ok c
    | some tag ↦
        let r = call o openssl_error (o.set_tag tag) c in
        elim (r.1) [ err e ↦ err e | ok done ↦ ok (r.0) ]
  ]

  unfoldable pub create_decryption_ctx : Algorithm → Mode → Result (Error o) AnyContext
  unfolding with_tag fresh
  create_decryption_ctx algorithm mode = do
    c ← Context.new o algorithm mode decrypt
    if mode.with_authentication_tag
        then (do c' ← with_tag mode c; ok (aead_decryption (fresh mode c')))
        else ok (cipher_context (record { ctx = some c }))

  unfoldable pub cipher_supported : Algorithm → Mode → Result (Error o) Bool
  cipher_supported algorithm mode = do
    found ← map_err openssl_error (o.get_cipher algorithm mode)
    ok (elim found [ none ↦ false | some cipher ↦ true ])

  -- _advance and _advance_aad leave a context without counters as it is. `none` is their panic.
  unfoldable pub advance_any : ℕ → AnyContext → Option AnyContext
  unfolding advance
  advance_any n (cipher_context p) = some (cipher_context p)
  advance_any n (aead_encryption e) = elim (advance o n (e.shared)) [
    | none ↦ none
    | some a ↦ some (aead_encryption (record { shared = a; tag = e.tag }))
  ]
  advance_any n (aead_decryption a) = elim (advance o n a) [
    | none ↦ none
    | some a' ↦ some (aead_decryption a')
  ]

  unfoldable pub advance_aad_any : ℕ → AnyContext → Option AnyContext
  unfolding advance_aad
  advance_aad_any n (cipher_context p) = some (cipher_context p)
  advance_aad_any n (aead_encryption e) = elim (advance_aad o n (e.shared)) [
    | none ↦ none
    | some a ↦ some (aead_encryption (record { shared = a; tag = e.tag }))
  ]
  advance_aad_any n (aead_decryption a) = elim (advance_aad o n a) [
    | none ↦ none
    | some a' ↦ some (aead_decryption a')
  ]
