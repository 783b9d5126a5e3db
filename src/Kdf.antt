-- ===== src/Kdf.antt =====
-- The key derivations of src/rust/cryptography-crypto: src/encoding.rs, src/pbkdf1.rs and src/pkcs12.rs.
-- OpenSSL's hash and the UTF-16 encoding are parameters.
pub mod Hex
pub mod Legacy
pub mod Blocks
use Prim.Native.Nat.{bit_or}
use cryptography.Prelude.{
  ℕ, zero, suc, ◌+◌, ◌-◌, ◌*◌, ◌/◌, ◌%◌, ◌^◌, min, Bool, true, false, not, ◌&&◌, Option, none, some,
  List, [], ◌∷◌, ◌++◌, length, take, drop, replicate, reverse, is_empty, ltb, leb, ◌==◌,
  if◌then◌else◌,
}
use cryptography.Result.{Result, ok, err, ◌>>=◌, map_err}

-- A match arm of hex_decode.
unfoldable pub hex_digit : ℕ → Option ℕ
hex_digit b =
    if leb 48 b && leb b 57
    then some (b - 48)
    else if leb 97 b && leb b 102
    then some (b - 97 + 10)
    else if leb 65 b && leb b 70
    then some (b - 65 + 10)
    else none

abbrev pub and_then : {A B : Type 0} → Option A → (A → Option B) → Option B
and_then none f = none
and_then (some a) f = f a

-- The loop of hex_decode, two bytes in a round.
unfoldable pub hex_pairs : List ℕ → Option (List ℕ)
unfolding hex_digit
hex_pairs [] = some []
hex_pairs (h ∷ []) = none
hex_pairs (h ∷ l ∷ rest) = and_then (hex_digit h) λ high.
    and_then (hex_digit l)
      λ low. and_then (hex_pairs rest) λ bytes. some (bit_or (high * 2 ^ 4 % 2 ^ 8) low ∷ bytes)

unfoldable pub hex_decode : List ℕ → Option (List ℕ)
unfolding hex_pairs
hex_decode v = if not (length v % 2 == 0) then none else hex_pairs v

-- openssl::hash: a digest by its name, what it gives or how it fails.
pub record MessageDigest (Stack : Type 0) : Type 0 where
  pub size : ℕ
  pub block_size : ℕ
  pub hash : List ℕ → Result Stack (List ℕ)

-- What a derivation raises: OpenSSL's errors, Rust's panics, and the end of the fuel.
pub data KdfError (Stack : Type 0) : Type 0 where
  openssl_error : Stack → KdfError Stack
  panic : KdfError Stack
  no_fuel : KdfError Stack

-- `xs[i % xs.len()]` for the first `n` positions, of which there are none where `xs` is empty.
unfoldable pub cycle_from : ℕ → ℕ → List ℕ → List ℕ
cycle_from zero i xs = []
cycle_from (suc n) i xs = take 1 (drop (i % length xs) xs) ++ cycle_from n (i + 1) xs

unfoldable pub cycle : ℕ → List ℕ → List ℕ
unfolding cycle_from
cycle n xs = cycle_from n 0 xs

-- The number of bytes rounded up to whole blocks.
unfoldable pub padded_len : ℕ → ℕ → ℕ
padded_len block_size len = block_size * ((len + block_size - 1) / block_size)

-- The inner loop of step C on the bytes of a block and of B, the last bytes first: the new bytes, the
-- last one first.
unfoldable pub add_carry : ℕ → List ℕ → List ℕ → List ℕ
add_carry carry [] bs = []
add_carry carry (i ∷ is) [] = i ∷ is
add_carry carry (i ∷ is) (b ∷ bs) =
    let sum = carry + (i + b) in sum % 256 ∷ add_carry (sum / 256) is bs

unfoldable pub add_block : List ℕ → List ℕ → List ℕ
unfolding add_carry
add_block i b = reverse (add_carry 1 (reverse i) (reverse b))

-- Step C on all blocks.
unfoldable pub add_blocks : ℕ → ℕ → List ℕ → List ℕ → List ℕ
unfolding add_block
add_blocks zero block_size b init_key = []
add_blocks (suc fuel) block_size b [] = []
add_blocks (suc fuel) block_size b (x ∷ xs) =
    add_block (take block_size (x ∷ xs)) b
    ++ add_blocks fuel block_size b (drop block_size (x ∷ xs))

-- What the bytes are for.
abbrev pub kdf_encryption_key_id : ℕ
kdf_encryption_key_id = 1

abbrev pub kdf_iv_id : ℕ
kdf_iv_id = 2

abbrev pub kdf_mac_key_id : ℕ
kdf_mac_key_id = 3

-- to_be_bytes of each unit
unfoldable pub utf16_bytes : List ℕ → List ℕ
utf16_bytes [] = []
utf16_bytes (u ∷ us) = u / 256 % 256 ∷ u % 256 ∷ utf16_bytes us

module _ (Stack : Type 0) where
  -- The part of the key that the next round hashes: `&key[key.len() - size..]`.
  unfoldable pub previous : MessageDigest Stack → List ℕ → Result (KdfError Stack) (List ℕ)
  previous md key =
      if is_empty key
      then ok []
      else if ltb (length key) (md.size)
      then err panic
      else ok (drop (length key - md.size) key)

  unfoldable pub openssl_kdf_loop :
      ℕ → MessageDigest Stack → List ℕ → List ℕ → ℕ → List ℕ → Result (KdfError Stack) (List ℕ)
  unfolding previous
  openssl_kdf_loop zero md password salt len key =
      if ltb (length key) len then err no_fuel else ok key
  openssl_kdf_loop (suc fuel) md password salt len key =
      if ltb (length key) len
      then (do
        prefix ← previous md key
        digest ← map_err openssl_error (md.hash (prefix ++ (password ++ salt)))
        openssl_kdf_loop fuel md password salt len
            (key ++ take (min (length digest) (len - length key)) digest))
      else ok key

  -- A round adds a byte or more where the digests have any, so a round for each byte is enough.
  unfoldable pub openssl_kdf :
      MessageDigest Stack → List ℕ → List ℕ → ℕ → Result (KdfError Stack) (List ℕ)
  unfolding openssl_kdf_loop
  openssl_kdf md password salt len = openssl_kdf_loop len md password salt len []

  -- `for _ in 1..rounds`: hashing the digest `n` more times.
  unfoldable pub rehash : ℕ → MessageDigest Stack → List ℕ → Result (KdfError Stack) (List ℕ)
  rehash zero md a = ok a
  rehash (suc n) md a = do a' ← map_err openssl_error (md.hash a); rehash n md a'

  -- The loop, with what it has written to the result.
  unfoldable pub kdf_loop :
      ℕ → MessageDigest Stack → List ℕ → ℕ → ℕ → List ℕ → List ℕ → Result (KdfError Stack) (List ℕ)
  unfolding rehash cycle add_blocks
  kdf_loop zero md d rounds key_len init_key result = err no_fuel
  kdf_loop (suc fuel) md d rounds key_len init_key result = do
    first ← map_err openssl_error (md.hash (d ++ init_key))
    a ← rehash (rounds - 1) md first
    let result' = result ++ take (min (length a) (key_len - length result)) a in
        if length result' == key_len
        then ok result'
        else if length a == 0
        then err panic
        else (let b = cycle (md.block_size) a in
            kdf_loop fuel md d rounds key_len
              (add_blocks (length init_key) (md.block_size) b init_key) result')

  -- `utf16` are the units that `encode_utf16` gives of the password.
  unfoldable pub kdf :
      List ℕ → List ℕ → ℕ → ℕ → ℕ → MessageDigest Stack → Result (KdfError Stack) (List ℕ)
  unfolding padded_len cycle kdf_loop utf16_bytes
  kdf utf16 salt id rounds key_len md =
      let pass = utf16_bytes (utf16 ++ 0 ∷ []) in
      if md.block_size == 0
      then err panic
      else (let d = replicate (md.block_size) id in
          let init_key =
            cycle (padded_len (md.block_size) (length salt)) salt
            ++ cycle (padded_len (md.block_size) (length pass)) pass in
          kdf_loop (key_len + 1) md d rounds key_len init_key [])
