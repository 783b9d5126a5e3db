-- ===== src/Examples/Encrypted.antt =====
-- AEAD contexts over a stream cipher that copies its input.
use cryptography.Prelude.{
  ℕ, ◌+◌, ◌≤◌, ◌≡◌, refl, ap, arith, true, false, none, some, List, [], ◌∷◌, length,
}
use cryptography.Result.{ok, ok-injective}
use cryptography.Ciphers.Base.{Openssl, Buffers, Mode, encrypt}
use cryptography.Ciphers.Context.{CipherContext, update_into}
use cryptography.Ciphers.Create.{fresh}
use cryptography.Ciphers.Calls.{
  Call, update, authenticate_additional_data, finalize_encryption, data_bytes, aad_bytes, perform,
  perform_all, succeeded,
}
use cryptography.Ciphers.Calls
use cryptography.Ciphers.Buffer.{Within, update_into-Within}
use cryptography.Ciphers.Accounting.{fresh-limits, aad_after_update-refused}
use cryptography.Ciphers.Closed.{finalized-fails}

abbrev copying : Openssl
copying = record {
  Stack = ℕ;
  Ctx = ℕ;
  Cipher = ℕ;
  is_empty_stack = λ e. false;
  get_cipher = λ algorithm mode. ok (some 0);
  cipher_iv_length = λ cipher. 12;
  new_ctx = ok 0;
  init_cipher = λ side cipher ctx. ok ctx;
  init_key = λ side key iv ctx. ok ctx;
  init_nonce = λ side nonce ctx. (ctx, ok tt);
  set_key_length = λ n ctx. ok ctx;
  set_iv_length = λ n ctx. ok ctx;
  set_padding = λ on ctx. ctx;
  block_size = λ ctx. 1;
  iv_length = λ ctx. 12;
  cipher_update = λ bytes ctx. (ctx + length bytes, ok bytes);
  update_aad = λ bytes ctx. (ctx, ok tt);
  cipher_final = λ ctx. (ctx, ok []);
  get_tag = λ n ctx. ok (ctx ∷ []);
  set_tag = λ tag ctx. (ctx, ok tt);
}

copying_buffers : Buffers copying
copying_buffers = record {
  held = λ c. 0;
  held_lt = λ c. omega arith;
  same_block_size = λ bytes c. refl;
  writes = λ bytes out c h. omega (arith, ap length (ok-injective h));
}

abbrev gcm : Mode
gcm = record {
  initialization_vector = some (1 ∷ 2 ∷ []);
  tweak = none;
  nonce = none;
  is_xts = false;
  with_authentication_tag = true;
  tag = none;
  min_tag_length = 16;
  max_encrypted_bytes = 5;
  max_aad_bytes = 3;
}

abbrev context : CipherContext copying
context = record {
  ctx = 0;
  py_mode = gcm;
  py_algorithm = record { key = 1 ∷ []; chacha20_nonce = none };
  side = encrypt;
}

abbrev calls : List Call
calls =
    authenticate_additional_data (9 ∷ []) ∷ update (1 ∷ 2 ∷ 3 ∷ []) ∷ update (4 ∷ 5 ∷ 6 ∷ []) ∷ []

update_into-Within_example :
    Within copying 2 (update_into copying (1 ∷ 2 ∷ []) (0 ∷ 0 ∷ []) context).1
update_into-Within_example =
    update_into-Within copying copying_buffers context (1 ∷ 2 ∷ []) (0 ∷ 0 ∷ [])

fresh-limits_example :
    (succeeded copying data_bytes calls (fresh copying gcm context) ≤ 5)
    × (succeeded copying aad_bytes calls (fresh copying gcm context) ≤ 3)
fresh-limits_example = fresh-limits copying gcm context calls

aad_after_update-refused_example :
    ((perform copying (authenticate_additional_data (8 ∷ [])) (
        perform_all copying calls
          (perform copying (update (1 ∷ [])) (fresh copying gcm context)).0)).1
      ≡ false)
    × ((perform copying (authenticate_additional_data (8 ∷ [])) (
          perform_all copying calls
            (perform copying
              (Calls.update_into (1 ∷ []) (0 ∷ []))
              (fresh copying gcm context)).0)).1
        ≡ false)
aad_after_update-refused_example =
    aad_after_update-refused copying (fresh copying gcm context) (1 ∷ []) (0 ∷ []) (8 ∷ []) calls

finalizes : (perform copying finalize_encryption (fresh copying gcm context)).1 ≡ true
unfolding perform fresh
finalizes = refl

finalized-fails_example :
    (perform copying (update (1 ∷ [])) (
      perform_all copying calls
        (perform copying finalize_encryption (fresh copying gcm context)).0)).1
    ≡ false
finalized-fails_example =
    finalized-fails copying finalize_encryption (update (1 ∷ [])) calls (fresh copying gcm context)
      refl finalizes
