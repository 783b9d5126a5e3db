-- ===== src/Ciphers/Base.antt =====
-- What src/backend/ciphers.rs uses of OpenSSL and of the Python objects, its errors, and the methods that
-- change a context and may raise.
use cryptography.Prelude.{ℕ, ◌+◌, ◌≤◌, ◌<◌, ◌≡◌, Bool, Option, List, length}
use cryptography.Result.{Result, ok, err}

pub data CipherError (Stack : Type 0) : Type 0 where
  openssl_error : Stack → CipherError Stack
  unsupported_cipher : CipherError Stack
  nonce_reset_unsupported : CipherError Stack
  nonce_length : CipherError Stack
  buffer_too_small : CipherError Stack
  xts_duplicated_keys : CipherError Stack
  xts_short_first_update : CipherError Stack
  invalid_tag : CipherError Stack
  data_not_multiple_of_block : CipherError Stack
  already_finalized : CipherError Stack
  already_updated : CipherError Stack
  not_yet_finalized : CipherError Stack
  exceeded_encrypted_byte_limit : CipherError Stack
  exceeded_aad_byte_limit : CipherError Stack
  tag_required : CipherError Stack
  tag_only_once : CipherError Stack
  tag_too_short : CipherError Stack
  tag_too_long : CipherError Stack
  -- a write beyond the end of a buffer
  out_of_bounds : CipherError Stack

-- openssl::symm::Mode
pub data Side : Type 0 where
  encrypt : Side
  decrypt : Side

-- The attributes of a mode that the contexts read. An attribute that only the instances of a class have is
-- `none` for the other modes.
pub record Mode : Type 0 where
  pub initialization_vector : Option (List ℕ)
  pub tweak : Option (List ℕ)
  pub nonce : Option (List ℕ)
  pub is_xts : Bool
  pub with_authentication_tag : Bool
  pub tag : Option (List ℕ)
  pub min_tag_length : ℕ
  pub max_encrypted_bytes : ℕ
  pub max_aad_bytes : ℕ

pub record Algorithm : Type 0 where
  pub key : List ℕ
  -- the nonce of a ChaCha20 key, and `none` for the other algorithms
  pub chacha20_nonce : Option (List ℕ)

-- openssl::cipher_ctx::CipherCtx and the registry of ciphers. A call that writes gives the bytes that it
-- writes.
pub record Openssl : Type 1 where
  pub Stack : Type 0
  pub Ctx : Type 0
  pub Cipher : Type 0
  pub is_empty_stack : Stack → Bool
  pub get_cipher : Algorithm → Mode → Result Stack (Option Cipher)
  pub cipher_iv_length : Cipher → ℕ
  pub new_ctx : Result Stack Ctx
  pub init_cipher : Side → Cipher → Ctx → Result Stack Ctx
  pub init_key : Side → List ℕ → Option (List ℕ) → Ctx → Result Stack Ctx
  pub init_nonce : Side → List ℕ → Ctx → Ctx × Result Stack (Unit {0})
  pub set_key_length : ℕ → Ctx → Result Stack Ctx
  pub set_iv_length : ℕ → Ctx → Result Stack Ctx
  pub set_padding : Bool → Ctx → Ctx
  pub block_size : Ctx → ℕ
  pub iv_length : Ctx → ℕ
  pub cipher_update : List ℕ → Ctx → Ctx × Result Stack (List ℕ)
  pub update_aad : List ℕ → Ctx → Ctx × Result Stack (Unit {0})
  pub cipher_final : Ctx → Ctx × Result Stack (List ℕ)
  pub get_tag : ℕ → Ctx → Result Stack (List ℕ)
  pub set_tag : List ℕ → Ctx → Ctx × Result Stack (Unit {0})

-- EVP_CipherUpdate's contract: a context holds back less than a block, and writes no more than it held back
-- and was given.
pub record Buffers (o : Openssl) : Type 0 where
  pub held : o.Ctx → ℕ
  pub held_lt : (c : o.Ctx) → held c < o.block_size c
  pub same_block_size :
      (xs : List ℕ) (c : o.Ctx) → o.block_size ((o.cipher_update xs c).0) ≡ o.block_size c
  pub writes :
      (xs out : List ℕ) (c : o.Ctx)
      → (o.cipher_update xs c).1 ≡ ok out
      → length out + held ((o.cipher_update xs c).0) ≤ held c + length xs

-- Methods: the state that is left and the result.
abbrev pub Method : Type 0 → Type 0 → Type 0 → Type 0
Method S E A = S → S × Result E A

-- `?` in a method.
abbrev pub after : {S E A B : Type 0} → S × Result E A → (A → Method S E B) → S × Result E B
after (s, ok a) next = next a s
after (s, err e) next = (s, err e)

infixl 5 ◌>>=◌ ◌>>◌
abbrev pub ◌>>=◌ : {S E A B : Type 0} → Method S E A → (A → Method S E B) → Method S E B
(m >>= next) s = after (m s) next

abbrev pub ◌>>◌ : {S E B : Type 0} → Method S E (Unit {0}) → Method S E B → Method S E B
m >> next = m >>= λ _. next

abbrev pub return : {S E A : Type 0} → A → Method S E A
return a s = (s, ok a)

abbrev pub raise : {S E A : Type 0} → E → Method S E A
raise e s = (s, err e)
