-- ===== src/Words.antt =====
-- Rust's fixed-width unsigned integers, a `w`-bit word as the number below 2 ^ w: the operations of
-- `u32` and `u128` that the program calls.
pub mod Masks
pub mod Bytes
pub mod Bits
use Prim.Native.Nat.{bit_and}
use cryptography.Prelude.{
  ℕ, zero, suc, ◌+◌, ◌-◌, ◌*◌, ◌/◌, ◌%◌, ◌^◌, Bool, Option, none, some, List, [], ◌∷◌, ltb, ◌==◌,
  if◌then◌else◌,
}

-- from_be_bytes, with the number read so far.
pub from_be_acc : ℕ → List ℕ → ℕ
from_be_acc acc [] = acc
from_be_acc acc (b ∷ bs) = from_be_acc (acc * 256 + b) bs

unfoldable pub from_be_bytes : List ℕ → ℕ
unfolding from_be_acc
from_be_bytes = from_be_acc 0

-- to_be_bytes of a word of `k` bytes
unfoldable pub to_be_bytes : ℕ → ℕ → List ℕ
to_be_bytes zero n = []
to_be_bytes (suc k) n = (n / 256 ^ k % 256) ∷ to_be_bytes k n

-- leading_ones of the lowest `w` bits
unfoldable pub leading_ones : ℕ → ℕ → ℕ
leading_ones zero x = 0
leading_ones (suc w) x = let rest = leading_ones w x in if x / 2 ^ w % 2 == 1 then suc rest else 0

-- count_ones of the lowest `w` bits
unfoldable pub count_ones : ℕ → ℕ → ℕ
count_ones zero x = 0
count_ones (suc w) x = x / 2 ^ w % 2 + count_ones w x

-- checked_shr and checked_shl: `none` if the shift is as wide as the word.
unfoldable pub checked_shr : ℕ → ℕ → ℕ → Option ℕ
checked_shr w x k = if ltb k w then some (x / 2 ^ k) else none

unfoldable pub checked_shl : ℕ → ℕ → ℕ → Option ℕ
checked_shl w x k = if ltb k w then some (x * 2 ^ k % 2 ^ w) else none

abbrev pub unwrap_or : ℕ → Option ℕ → ℕ
unwrap_or d none = d
unwrap_or d (some x) = x

-- wrapping_sub of words of `w` bits
abbrev pub wrapping_sub : ℕ → ℕ → ℕ → ℕ
wrapping_sub w a b = (a + (2 ^ w - b)) % 2 ^ w
