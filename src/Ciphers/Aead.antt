-- ===== src/Ciphers/Aead.antt =====
-- PyAEADEncryptionContext and PyAEADDecryptionContext of src/backend/ciphers.rs. The fields and the methods
-- that both have, which read the same in both, are those of AeadContext; the encryption context also has
-- the tag.
use Prim.Native.Nat.{◌-◌}
use cryptography.Prelude.{ℕ, Bool, true, not, Option, none, some, List, length, ltb, if◌then◌else◌}
use cryptography.Result.{Result, ok, err, map_err}
use cryptography.Ciphers.Base.{
  already_finalized, already_updated, not_yet_finalized, exceeded_encrypted_byte_limit,
  exceeded_aad_byte_limit, tag_required, tag_only_once, tag_too_short, tag_too_long, openssl_error,
  Openssl, Method, ◌>>=◌, ◌>>◌, return,
}
use cryptography.Ciphers.Context.{
  CipherContext, Error, call, update, update_into, reset_nonce, finalize,
  authenticate_additional_data, is_some,
}
use cryptography.Ciphers.Python.{with_ctx, drop_after}

module _ (o : Openssl) where
  pub record AeadContext : Type 0 where
    pub ctx : Option (CipherContext o)
    pub updated : Bool
    pub bytes_remaining : ℕ
    pub aad_bytes_remaining : ℕ

  -- A method of the slot `ctx`.
  abbrev pub on_ctx :
      {A : Type 0} → Method (Option (CipherContext o)) (Error o) A → Method AeadContext (Error o) A
  on_ctx method a =
      let r = method (a.ctx) in
      (
        record {
          ctx = r.0;
          updated = a.updated;
          bytes_remaining = a.bytes_remaining;
          aad_bytes_remaining = a.aad_bytes_remaining;
        },
        r.1,
      )

  -- The start of `update` and `update_into`: the flag, and checked_sub of the bytes.
  unfoldable pub count_bytes : ℕ → Method AeadContext (Error o) (Unit {0})
  count_bytes len a =
      if ltb (a.bytes_remaining) len
      then (
        record {
          ctx = a.ctx;
          updated = true;
          bytes_remaining = a.bytes_remaining;
          aad_bytes_remaining = a.aad_bytes_remaining;
        },
        err exceeded_encrypted_byte_limit,
      )
      else (
        record {
          ctx = a.ctx;
          updated = true;
          bytes_remaining = a.bytes_remaining - len;
          aad_bytes_remaining = a.aad_bytes_remaining;
        },
        ok tt,
      )

  unfoldable pub aead_update : List ℕ → Method AeadContext (Error o) (List ℕ)
  unfolding count_bytes with_ctx update
  aead_update bytes = do count_bytes (length bytes); on_ctx (with_ctx o (update o bytes))

  unfoldable pub aead_update_into : List ℕ → List ℕ → Method AeadContext (Error o) (ℕ × List ℕ)
  unfolding count_bytes with_ctx update_into
  aead_update_into bytes buf = do
    count_bytes (length bytes)
    on_ctx (with_ctx o (update_into o bytes buf))

  -- checked_sub of the additional data
  unfoldable pub count_aad : ℕ → Method AeadContext (Error o) (Unit {0})
  count_aad len a = if ltb (a.aad_bytes_remaining) len then (a, err exceeded_aad_byte_limit) else (
    record {
      ctx = a.ctx;
      updated = a.updated;
      bytes_remaining = a.bytes_remaining;
      aad_bytes_remaining = a.aad_bytes_remaining - len;
    },
    ok tt,
  )

  -- get_mut_ctx(..)? at the start of a method that goes on with more than the context
  unfoldable pub require_ctx : Method AeadContext (Error o) (CipherContext o)
  require_ctx a = (a, elim (a.ctx) [ none ↦ err already_finalized | some c ↦ ok c ])

  unfoldable pub aead_authenticate_additional_data :
      List ℕ → Method AeadContext (Error o) (Unit {0})
  unfolding require_ctx count_aad with_ctx authenticate_additional_data
  aead_authenticate_additional_data bytes = do
    _ ← require_ctx
    λ a. (a, if a.updated then err already_updated else ok tt)
    count_aad (length bytes)
    on_ctx (with_ctx o (authenticate_additional_data o bytes))

  unfoldable pub aead_reset_nonce : List ℕ → Method AeadContext (Error o) (Unit {0})
  unfolding with_ctx reset_nonce
  aead_reset_nonce nonce = on_ctx (with_ctx o (reset_nonce o nonce))

  -- PyAEADDecryptionContext::finalize
  unfoldable pub decryption_finalize : Method AeadContext (Error o) (List ℕ)
  unfolding require_ctx with_ctx drop_after finalize
  decryption_finalize = do
    c ← require_ctx
    λ a. (a, if not (is_some (c.py_mode.tag)) then err tag_required else ok tt)
    on_ctx λ s. drop_after o (with_ctx o (finalize o) s)

  unfoldable pub check_tag : CipherContext o → List ℕ → Result (Error o) (Unit {0})
  check_tag c tag =
      if is_some (c.py_mode.tag)
      then err tag_only_once
      else if ltb (length tag) (c.py_mode.min_tag_length)
      then err tag_too_short
      else if ltb 16 (length tag)
      then err tag_too_long
      else ok tt

  unfoldable pub finalize_with_tag : List ℕ → Method AeadContext (Error o) (List ℕ)
  unfolding require_ctx check_tag with_ctx drop_after finalize
  finalize_with_tag tag = do
    c ← require_ctx
    λ a. (a, check_tag c tag)
    on_ctx (with_ctx o (call o openssl_error (o.set_tag tag)))
    on_ctx λ s. drop_after o (with_ctx o (finalize o) s)

  -- `bytes_remaining -= n` of _advance, and the same for the additional data: `none` is the panic on
  -- more than what remains, since the build checks for overflow.
  unfoldable pub advance : ℕ → AeadContext → Option AeadContext
  advance n a =
      if ltb (a.bytes_remaining) n
      then none
      else some (record {
        ctx = a.ctx;
        updated = a.updated;
        bytes_remaining = a.bytes_remaining - n;
        aad_bytes_remaining = a.aad_bytes_remaining;
      })

  unfoldable pub advance_aad : ℕ → AeadContext → Option AeadContext
  advance_aad n a =
      if ltb (a.aad_bytes_remaining) n
      then none
      else some (record {
        ctx = a.ctx;
        updated = a.updated;
        bytes_remaining = a.bytes_remaining;
        aad_bytes_remaining = a.aad_bytes_remaining - n;
      })

  pub record EncryptionContext : Type 0 where
    pub shared : AeadContext
    pub tag : Option (List ℕ)

  -- The end of the data and the tag.
  unfoldable pub finalize_and_tag : Method AeadContext (Error o) (List ℕ × List ℕ)
  unfolding require_ctx with_ctx finalize
  finalize_and_tag = do
    _ ← require_ctx
    result ← on_ctx (with_ctx o (finalize o))
    c ← require_ctx
    tag ← λ a. (a, map_err openssl_error (o.get_tag 16 (c.ctx)))
    return (result, tag)

  -- PyAEADEncryptionContext::finalize: a failure to read the tag leaves the context open.
  unfoldable pub encryption_finalize : Method EncryptionContext (Error o) (List ℕ)
  unfolding finalize_and_tag
  encryption_finalize e =
      let r = finalize_and_tag (e.shared) in
      elim (r.1) [
        | err failure ↦ (record { shared = r.0; tag = e.tag }, err failure)
        | ok (result, tag) ↦ (
          record {
            shared = record {
              ctx = none;
              updated = r.0.updated;
              bytes_remaining = r.0.bytes_remaining;
              aad_bytes_remaining = r.0.aad_bytes_remaining;
            };
            tag = some tag;
          },
          ok result,
        )
      ]

  -- The getter `tag`.
  unfoldable pub tag : EncryptionContext → Result (Error o) (List ℕ)
  tag e = elim (e.tag) [ none ↦ err not_yet_finalized | some t ↦ ok t ]

  -- The shared methods on an encryption context.
  abbrev pub on_shared :
      {A : Type 0} → Method AeadContext (Error o) A → Method EncryptionContext (Error o) A
  on_shared method e = let r = method (e.shared) in (record { shared = r.0; tag = e.tag }, r.1)
