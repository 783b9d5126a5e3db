-- ===== src/Ciphers/Calls.antt =====
-- Sequences of calls on an AEAD context, whatever they return.
use cryptography.Prelude.{ℕ, ◌+◌, Bool, true, false, none, List, [], ◌∷◌, length, if◌then◌else◌}
use cryptography.Result.{Result, ok, err}
use cryptography.Ciphers.Base.{Openssl}
use cryptography.Ciphers.Aead.{
  AeadContext, aead_update, aead_update_into, aead_authenticate_additional_data, aead_reset_nonce,
  decryption_finalize, finalize_with_tag, encryption_finalize,
}

-- The methods of both classes that change a context.
pub data Call : Type 0 where
  update : List ℕ → Call
  update_into : List ℕ → List ℕ → Call
  authenticate_additional_data : List ℕ → Call
  reset_nonce : List ℕ → Call
  finalize_encryption : Call
  finalize_decryption : Call
  finalize_with : List ℕ → Call

abbrev pub succeeds : {E A : Type 0} → Result E A → Bool
succeeds (ok a) = true
succeeds (err e) = false

-- The bytes to encrypt or decrypt, and the additional data.
abbrev pub data_bytes : Call → ℕ
data_bytes (update bytes) = length bytes
data_bytes (update_into bytes buf) = length bytes
data_bytes _ = 0

abbrev pub aad_bytes : Call → ℕ
aad_bytes (authenticate_additional_data bytes) = length bytes
aad_bytes _ = 0

module _ (o : Openssl) where
  -- The context that a method leaves, and if it succeeded.
  abbrev pub left : {A : Type 0} {E : Type 0} → AeadContext o × Result E A → AeadContext o × Bool
  left r = (r.0, succeeds (r.1))

  -- A call. finalize of an encryption context depends on what it shares with the other class only.
  unfoldable pub perform : Call → AeadContext o → AeadContext o × Bool
  unfolding aead_update aead_update_into aead_authenticate_additional_data aead_reset_nonce
      encryption_finalize decryption_finalize finalize_with_tag
  perform (update bytes) a = left (aead_update o bytes a)
  perform (update_into bytes buf) a = left (aead_update_into o bytes buf a)
  perform (authenticate_additional_data bytes) a =
      left (aead_authenticate_additional_data o bytes a)
  perform (reset_nonce nonce) a = left (aead_reset_nonce o nonce a)
  perform finalize_encryption a =
      let r = encryption_finalize o (record { shared = a; tag = none }) in
      (r.0.shared, succeeds (r.1))
  perform finalize_decryption a = left (decryption_finalize o a)
  perform (finalize_with tag) a = left (finalize_with_tag o tag a)

  unfoldable pub perform_all : List Call → AeadContext o → AeadContext o
  unfolding perform
  perform_all [] a = a
  perform_all (call ∷ calls) a = perform_all calls ((perform call a).0)

  -- The sum of `size` over the calls that succeed.
  unfoldable pub succeeded : (Call → ℕ) → List Call → AeadContext o → ℕ
  unfolding perform
  succeeded size [] a = 0
  succeeded size (call ∷ calls) a =
      let r = perform call a in (if r.1 then size call else 0) + succeeded size calls (r.0)
