-- ===== src/Names/Ip.antt =====
-- src/rust/cryptography-x509-verification/src/types.rs: IPAddress and IPConstraint. An address of
-- the standard library is its family with its octets in network order.
pub mod Prefix
pub mod Octets
use Prim.Native.Nat.{bit_and}
use cryptography.Prelude.{
  ℕ, ◌+◌, ◌-◌, ◌*◌, ◌/◌, ◌%◌, ◌^◌, Bool, true, false, not, ◌&&◌, Option, none, some, List, [], ◌∷◌,
  ◌==◌, if◌then◌else◌, length, take, drop, list_eq,
}
use cryptography.Words.{
  from_be_bytes, to_be_bytes, leading_ones, count_ones, checked_shr, checked_shl, unwrap_or,
}

pub data IpAddress : Type 0 where
  v4 : List ℕ → IpAddress
  v6 : List ℕ → IpAddress

-- The derived PartialEq
unfoldable pub eq : IpAddress → IpAddress → Bool
eq (v4 a) (v4 b) = list_eq a b
eq (v6 a) (v6 b) = list_eq a b
eq (v4 a) (v6 b) = false
eq (v6 a) (v4 b) = false

unfoldable pub from_bytes : List ℕ → Option IpAddress
from_bytes b = if length b == 4 then some (v4 b) else if length b == 16 then some (v6 b) else none

-- The two counts, and the cast of the result to u8.
unfoldable pub prefix_of : ℕ → ℕ → Option ℕ
prefix_of leading total = if not (leading == total) then none else some (leading % 256)

unfoldable pub as_prefix : IpAddress → Option ℕ
unfolding prefix_of
as_prefix (v4 a) = let d = from_be_bytes a in prefix_of (leading_ones 32 d) (count_ones 32 d)
as_prefix (v6 a) = let d = from_be_bytes a in prefix_of (leading_ones 128 d) (count_ones 128 d)

-- The word of `w` bits that the address is and-ed with.
unfoldable pub mask_word : ℕ → ℕ → ℕ
unfolding checked_shr checked_shl
mask_word w shift =
    unwrap_or 0 (checked_shl w (unwrap_or 0 (checked_shr w (2 ^ w - 1) shift)) shift)

-- The masked octets always have the length that `from_bytes` asks for, so its `unwrap` is not
-- reached with `none`; the model names the family at once.
unfoldable pub mask : IpAddress → ℕ → IpAddress
mask (v4 a) prefix = v4 (to_be_bytes 4 (bit_and (from_be_bytes a) (mask_word 32 (32 - prefix))))
mask (v6 a) prefix = v6 (to_be_bytes 16 (bit_and (from_be_bytes a) (mask_word 128 (128 - prefix))))

pub record IpConstraint : Type 0 where
  pub address : IpAddress
  pub prefix : ℕ

-- The body of `IPConstraint::from_bytes` once the split index is known.
unfoldable pub split_at : List ℕ → ℕ → Option IpConstraint
unfolding from_bytes
split_at b slice_idx = elim (from_bytes (drop slice_idx b)) [
  | none ↦ none
  | some netmask ↦ elim (as_prefix netmask) [
    | none ↦ none
    | some p ↦ elim (from_bytes (take slice_idx b)) [
      | none ↦ none
      | some base ↦ some (record { address = mask base p; prefix = p })
    ]
  ]
]

unfoldable pub constraint_from_bytes : List ℕ → Option IpConstraint
unfolding split_at
constraint_from_bytes b =
    if length b == 8 then split_at b 4 else if length b == 32 then split_at b 16 else none

unfoldable pub constraint_matches : IpConstraint → IpAddress → Bool
unfolding eq
constraint_matches self addr = eq self.address (mask addr self.prefix)
