-- ===== src/Ciphers/Context.antt =====
-- CipherContext of src/backend/ciphers.rs.
use cryptography.Prelude.{
  ℕ, zero, suc, ◌+◌, ◌-◌, ◌^◌, Bool, true, false, not, ◌&&◌, Option, none, some, List, [], ◌∷◌,
  ◌++◌, length, take, drop, replicate, ltb, ◌==◌, if◌then◌else◌,
}
use cryptography.Result.{Result, ok, err, map_err}
use cryptography.Result
use cryptography.Ciphers.Base.{
  CipherError, openssl_error, unsupported_cipher, nonce_reset_unsupported, nonce_length,
  buffer_too_small, xts_duplicated_keys, xts_short_first_update, invalid_tag,
  data_not_multiple_of_block, out_of_bounds, Side, Mode, Algorithm, Openssl, Method, ◌>>=◌, return,
}

abbrev pub is_some : Option (List ℕ) → Bool
is_some none = false
is_some (some x) = true

module _ (o : Openssl) where
  abbrev pub Error : Type 0
  Error = CipherError (o.Stack)

  pub record CipherContext : Type 0 where
    pub ctx : o.Ctx
    pub py_mode : Mode
    pub py_algorithm : Algorithm
    pub side : Side

  -- A call of OpenSSL on the context within, its errors named by `name`.
  abbrev pub call :
      {A : Type 0}
      → (o.Stack → Error)
      → (o.Ctx → o.Ctx × Result (o.Stack) A)
      → Method CipherContext Error A
  call name f c =
      let r = f (c.ctx) in
      (
        record { ctx = r.0; py_mode = c.py_mode; py_algorithm = c.py_algorithm; side = c.side },
        map_err name (r.1),
      )

  -- The first of the attributes that there is.
  unfoldable pub iv_nonce : Algorithm → Mode → Option (List ℕ)
  iv_nonce algorithm mode = elim (mode.initialization_vector) [
    | some iv ↦ some iv
    | none ↦ elim (mode.tweak) [
      | some tweak ↦ some tweak
      | none ↦ elim (mode.nonce) [ some nonce ↦ some nonce | none ↦ algorithm.chacha20_nonce ]
    ]
  ]

  unfoldable pub with_iv_length : o.Cipher → Option (List ℕ) → o.Ctx → Result (o.Stack) (o.Ctx)
  with_iv_length cipher none ctx = ok ctx
  with_iv_length cipher (some iv) ctx =
      if not (o.cipher_iv_length cipher == 0) && not (o.cipher_iv_length cipher == length iv)
      then o.set_iv_length (length iv) ctx
      else ok ctx

  unfoldable pub new : Algorithm → Mode → Side → Result Error CipherContext
  unfolding iv_nonce with_iv_length
  new algorithm mode side =
      Result.◌>>=◌ (map_err openssl_error (o.get_cipher algorithm mode)) λ found. elim found [
        | none ↦ err unsupported_cipher
        | some cipher ↦
            let iv = iv_nonce algorithm mode in
            Result.◌>>=◌ (map_err openssl_error (o.new_ctx)) λ ctx.
              Result.◌>>=◌ (map_err openssl_error (o.init_cipher side cipher ctx)) λ ctx.
                Result.◌>>=◌ (map_err openssl_error (o.set_key_length (length (algorithm.key)) ctx))
                  λ ctx. Result.◌>>=◌ (map_err openssl_error (with_iv_length cipher iv ctx)) λ ctx.
                    Result.◌>>=◌
                      (map_err (λ e. if mode.is_xts then xts_duplicated_keys else openssl_error e)
                        (o.init_key side (algorithm.key) iv ctx))
                      λ ctx. ok (record {
                        ctx = o.set_padding false ctx;
                        py_mode = mode;
                        py_algorithm = algorithm;
                        side = side;
                      })
      ]

  unfoldable pub reset_nonce : List ℕ → Method CipherContext Error (Unit {0})
  reset_nonce nonce c =
      if not (is_some (c.py_mode.nonce)) && not (is_some (c.py_algorithm.chacha20_nonce))
      then (c, err nonce_reset_unsupported)
      else if not (length nonce == o.iv_length (c.ctx))
      then (c, err nonce_length)
      else call openssl_error (o.init_nonce (c.side) nonce) c

  -- chunks, with a round of fuel for each element
  unfoldable pub chunks_with : ℕ → ℕ → List ℕ → List (List ℕ)
  chunks_with zero size xs = []
  chunks_with (suc fuel) size [] = []
  chunks_with (suc fuel) size (x ∷ xs) =
      take size (x ∷ xs) ∷ chunks_with fuel size (drop size (x ∷ xs))

  unfoldable pub chunks : ℕ → List ℕ → List (List ℕ)
  unfolding chunks_with
  chunks size xs = chunks_with (length xs) size xs

  -- What the call writes at an offset of the buffer.
  unfoldable pub write_at : ℕ → List ℕ → List ℕ → Result Error (List ℕ)
  write_at offset out buf =
      if ltb (length buf) (offset + length out)
      then err out_of_bounds
      else ok (take offset buf ++ (out ++ drop (offset + length out) buf))

  -- The loop of update_into: the bytes written so far and the buffer.
  unfoldable pub write_chunks : List (List ℕ) → ℕ → List ℕ → Method CipherContext Error (ℕ × List ℕ)
  unfolding write_at
  write_chunks [] total_written buf = return (total_written, buf)
  write_chunks (chunk ∷ rest) total_written buf = do
    out ← λ c.
        call (λ e. if c.py_mode.is_xts then xts_short_first_update else openssl_error e)
          (o.cipher_update chunk) c
    buf' ← λ c. (c, write_at total_written out buf)
    write_chunks rest (total_written + length out) buf'

  -- The number of bytes written, and the buffer.
  unfoldable pub update_into : List ℕ → List ℕ → Method CipherContext Error (ℕ × List ℕ)
  unfolding chunks write_chunks
  update_into bytes buf c =
      if ltb (length buf) (length bytes + o.block_size (c.ctx) - 1)
      then (c, err buffer_too_small)
      else write_chunks (chunks (2 ^ 29) bytes) 0 buf c

  unfoldable pub update : List ℕ → Method CipherContext Error (List ℕ)
  unfolding update_into
  update bytes c =
      (update_into bytes (replicate (length bytes + o.block_size (c.ctx)) 0) >>= λ written.
      return (take (written.0) (written.1)))
        c

  unfoldable pub authenticate_additional_data : List ℕ → Method CipherContext Error (Unit {0})
  authenticate_additional_data bytes = call openssl_error (o.update_aad bytes)

  unfoldable pub finalize : Method CipherContext Error (List ℕ)
  finalize c =
      call
        (λ e.
          if o.is_empty_stack e && c.py_mode.with_authentication_tag
          then invalid_tag
          else data_not_multiple_of_block)
        (o.cipher_final) c
