-- ===== src/Kdf/Blocks.antt =====
-- The addition on blocks of kdf in src/pkcs12.rs, and the length of what kdf gives.
use native.Mathlib.Nat.{pow-succ', mod-eq_of_lt, add-mul-mod_self_right}
use mathlib.Core.List.{reverse-reverse}
use cryptography.Prelude.{
  ℕ, zero, suc, ◌+◌, ◌-◌, ◌*◌, ◌/◌, ◌%◌, ◌^◌, ◌≤◌, ◌<◌, ◌≡◌, refl, sym, ◌∙◌, ap, arith, min, false,
  List, [], ◌∷◌, ◌++◌, length, take, reverse, reverse-cons, length-reverse, length-append,
  length-take, ◌==◌, ==_iff, Bool-cases, inl, inr, replicate,
}
use cryptography.Result.{ok}
use cryptography.Words.{from_be_bytes}
use cryptography.Words.Bytes.{from_be_bytes-nil, from_be_bytes-snoc}
use cryptography.Kdf.{
  MessageDigest, add_carry, add_block, add_blocks, rehash, kdf_loop, kdf, cycle, padded_len,
  utf16_bytes,
}

-- The number that bytes stand for, the lowest byte first.
little : List ℕ → ℕ
little [] = 0
little (b ∷ bs) = b + 256 * little bs

from_be_bytes-reverse : (bs : List ℕ) → from_be_bytes (reverse bs) ≡ little bs
unfolding little
from_be_bytes-reverse [] = from_be_bytes-nil
from_be_bytes-reverse (b ∷ bs) =
    ap from_be_bytes (reverse-cons b bs)
    ∙ from_be_bytes-snoc (reverse bs) b
    ∙ omega (arith, from_be_bytes-reverse bs)

little-reverse : (bs : List ℕ) → little (reverse bs) ≡ from_be_bytes bs
little-reverse bs = sym (from_be_bytes-reverse (reverse bs)) ∙ ap from_be_bytes (reverse-reverse bs)

length-add_carry :
    (c : ℕ) (is bs : List ℕ) → length is ≡ length bs → length (add_carry c is bs) ≡ length is
unfolding add_carry
length-add_carry c [] bs e = refl
length-add_carry c (i ∷ is) [] e = absurd (omega arith)
length-add_carry c (i ∷ is) (b ∷ bs) e =
    omega (arith, length-add_carry ((c + (i + b)) / 256) is bs (omega arith))

-- The sum, but for what is carried out of the last byte.
add_carry_sum :
    (c : ℕ) (is bs : List ℕ)
    → length is ≡ length bs
    → (k : ℕ) × (little (add_carry c is bs) + k * 256 ^ length is ≡ c + little is + little bs)
      × (little (add_carry c is bs) < 256 ^ length is)
unfolding add_carry little
add_carry_sum c [] [] e = (c, omega arith, omega arith)
add_carry_sum c [] (b ∷ bs) e = absurd (omega arith)
add_carry_sum c (i ∷ is) [] e = absurd (omega arith)
add_carry_sum c (i ∷ is) (b ∷ bs) e =
    let rest = add_carry_sum ((c + (i + b)) / 256) is bs (omega arith) in
    let power = pow-succ' 256 (length is) in
    let scaled = ap (λ (t : ℕ). rest.0 * t) power in
    (rest.0, omega (arith, rest.1, scaled), omega (arith, rest.2, power))

-- add_block sets a block to the sum of its number, the number of B and one, big-endian and modulo 2 to the
-- number of its bits, if B has the block's length, and keeps that length.
pub add_block-value :
    (block b : List ℕ)
    → length block ≡ length b
    → (length (add_block block b) ≡ length block)
      × (from_be_bytes (add_block block b)
          ≡ (from_be_bytes block + from_be_bytes b + 1) % 256 ^ length block)
unfolding add_block
add_block-value block b e =
    let same : length (reverse block) ≡ length (reverse b) =
      length-reverse block ∙ e ∙ sym (length-reverse b) in
    let sum = add_carry 1 (reverse block) (reverse b) in
    let parts = add_carry_sum 1 (reverse block) (reverse b) same in
    let width = length-reverse block in
    let bound : little sum < 256 ^ length block = rw width at (parts.2) in
    let total : little sum + parts.0 * 256 ^ length block
        ≡ from_be_bytes block + from_be_bytes b + 1 =
      omega (
        arith,
        parts.1,
        ap (λ k. parts.0 * 256 ^ k) width,
        little-reverse block,
        little-reverse b,
      ) in
    (
      length-reverse sum ∙ length-add_carry 1 (reverse block) (reverse b) same ∙ width,
      from_be_bytes-reverse sum
          ∙ sym (mod-eq_of_lt bound)
          ∙ sym (add-mul-mod_self_right (little sum) (parts.0) (256 ^ length block))
          ∙ ap (λ (t : ℕ). t % 256 ^ length block) total,
    )

not_zero : (k : ℕ) → 1 ≤ k → (k == 0) ≡ false
not_zero k h = ground arith

less_than : (k n : ℕ) → (k == n) ≡ false → k ≤ n → k < n
less_than k n h le = ground arith

module _ (Stack : Type 0) (md : MessageDigest Stack) (hash : List ℕ → List ℕ)
    (succeeds : (m : List ℕ) → md.hash m ≡ ok (hash m))
    (sized : (m : List ℕ) → length (hash m) ≡ md.size) (positive : 1 ≤ md.size) where
  rehash-sized :
      (n : ℕ) (a : List ℕ)
      → length a ≡ md.size
      → (a' : List ℕ) × (rehash Stack n md a ≡ ok a') × (length a' ≡ md.size)
  unfolding rehash
  rehash-sized zero a e = (a, refl, e)
  rehash-sized (suc n) a e =
      let rest = rehash-sized n (hash a) (sized a) in (rest.0, rw (succeeds a) (rest.1), rest.2)

  kdf_loop-length :
      (fuel : ℕ) (d init_key result : List ℕ) (rounds key_len : ℕ)
      → length result ≤ key_len
      → key_len < fuel + length result
      → (key : List ℕ) × (kdf_loop Stack fuel md d rounds key_len init_key result ≡ ok key)
        × (length key ≡ key_len)
  unfolding kdf_loop
  kdf_loop-length zero d init_key result rounds key_len room enough = absurd (omega arith)
  kdf_loop-length (suc fuel) d init_key result rounds key_len room enough =
      let a = rehash-sized (rounds - 1) (hash (d ++ init_key)) (sized (d ++ init_key)) in
      let n = min (length (a.0)) (key_len - length result) in
      let result' = result ++ take n (a.0) in
      let longer : length result' ≡ length result + n =
        omega (arith, length-append result (take n (a.0)), length-take n (a.0)) in
      elim (Bool-cases (length result' == key_len)) [
        | inl done ↦ (
          result',
          rw (kdf_loop, succeeds (d ++ init_key), a.1, done) refl,
          (==_iff (length result') key_len).0 done,
        )
        | inr more ↦
            let nonzero : (length (a.0) == 0) ≡ false =
              not_zero (length (a.0)) (omega (arith, a.2, positive)) in
            let short = less_than (length result') key_len more (omega (arith, longer)) in
            let rest =
              kdf_loop-length fuel d
                (add_blocks (length init_key) (md.block_size) (cycle (md.block_size) (a.0))
                  init_key)
                result' rounds key_len (omega (arith, longer))
                (omega (arith, longer, short, a.2, positive)) in
            (rest.0, rw (kdf_loop, succeeds (d ++ init_key), a.1, more, nonzero) (rest.1), rest.2)
      ]

-- For a hash that succeeds with digests of its size, of one byte at least, and blocks of one byte or more,
-- kdf succeeds with a key of the length asked for, whatever the password, salt, purpose and rounds.
pub kdf-length :
    (Stack : Type 0) (md : MessageDigest Stack) (hash : List ℕ → List ℕ)
    → ((m : List ℕ) → md.hash m ≡ ok (hash m))
    → ((m : List ℕ) → length (hash m) ≡ md.size)
    → 1 ≤ md.size
    → 1 ≤ md.block_size
    → (utf16 salt : List ℕ) (id rounds key_len : ℕ)
    → (key : List ℕ) × (kdf Stack utf16 salt id rounds key_len md ≡ ok key) × (length key ≡ key_len)
unfolding kdf
kdf-length Stack md hash succeeds sized positive blocks utf16 salt id rounds key_len =
    let proper = not_zero (md.block_size) blocks in
    let pass = utf16_bytes (utf16 ++ 0 ∷ []) in
    let init_key =
      cycle (padded_len (md.block_size) (length salt)) salt
      ++ cycle (padded_len (md.block_size) (length pass)) pass in
    let result =
      kdf_loop-length Stack md hash succeeds sized positive (key_len + 1)
        (replicate (md.block_size) id) init_key [] rounds key_len (omega arith) (omega arith) in
    (result.0, rw (kdf, proper) (result.1), result.2)
