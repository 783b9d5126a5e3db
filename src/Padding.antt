-- ===== src/Padding.antt =====
-- Block padding, src/padding.rs of src/rust: the constant-time checks of PKCS #7 and ANSI X9.23, and
-- the contexts that pad and unpad a message that arrives in pieces. A byte is a number below 256 and
-- a `usize` has 64 bits. A method returns the context that it leaves beside its result.
pub mod ConstantTime
pub mod Mismatch
pub mod Pkcs7
pub mod Ansix923
pub mod Streams
pub mod RoundTrip
pub mod Schemes
pub mod Contexts
use Prim.Native.Nat.{bit_and, bit_or, bit_xor}
use cryptography.Prelude.{
  ℕ, ◌+◌, ◌-◌, ◌*◌, ◌/◌, ◌%◌, ◌^◌, Bool, true, false, not, Option, none, some, List, [], ◌∷◌, ◌++◌,
  reverse, length, take, drop, replicate, last?, ltb, ◌==◌, if◌then◌else◌,
}
use cryptography.Result.{Result, ok, err}
use cryptography.Words.{wrapping_sub}

-- What a method raises: an exception, or a panic of Rust.
pub data PaddingError : Type 0 where
  already_finalized : PaddingError
  invalid_padding_bytes : PaddingError
  panic : PaddingError

unfoldable pub duplicate_msb_to_all : ℕ → ℕ
duplicate_msb_to_all a = wrapping_sub 8 0 (a / 2 ^ 7)

unfoldable pub constant_time_lt : ℕ → ℕ → ℕ
unfolding duplicate_msb_to_all
constant_time_lt a b =
    duplicate_msb_to_all (bit_xor a (bit_or (bit_xor a b) (bit_xor (wrapping_sub 8 a b) b)))

-- `!` of a byte
abbrev pub complement : ℕ → ℕ
complement a = 255 - a

-- The range test and the folding of all bits into the lowest one, which both checks end with.
unfoldable pub conclude : ℕ → ℕ → ℕ → Bool
unfolding constant_time_lt
conclude len pad_size mismatch =
    let m0 = bit_or mismatch (complement (constant_time_lt 0 pad_size)) in
    let m1 = bit_or m0 (constant_time_lt len pad_size) in
    let m2 = bit_or m1 (m1 / 2 ^ 4) in
    let m3 = bit_or m2 (m2 / 2 ^ 2) in let m4 = bit_or m3 (m3 / 2 ^ 1) in bit_and m4 1 == 0

-- The loop of check_pkcs7_padding from position `i` on the reversed data: `zip` pairs each byte with
-- its position.
unfoldable pub pkcs7_mismatch : ℕ → ℕ → ℕ → List ℕ → ℕ
unfolding constant_time_lt
pkcs7_mismatch pad_size i mismatch [] = mismatch
pkcs7_mismatch pad_size i mismatch (b ∷ bs) =
    pkcs7_mismatch pad_size (i + 1)
      (bit_or mismatch (bit_and (constant_time_lt i pad_size) (bit_xor pad_size b))) bs

-- `none` is the panic on no data and on more than 255 bytes.
unfoldable pub check_pkcs7_padding : List ℕ → Option Bool
unfolding pkcs7_mismatch conclude
check_pkcs7_padding bytes = elim (last? bytes) [
  | none ↦ none
  | some pad_size ↦
      if ltb (length bytes) 256
      then some (conclude (length bytes) pad_size (pkcs7_mismatch pad_size 0 0 (reverse bytes)))
      else none
]

-- The loop of check_ansix923_padding.
unfoldable pub ansix923_mismatch : ℕ → ℕ → ℕ → List ℕ → ℕ
unfolding constant_time_lt
ansix923_mismatch pad_size i mismatch [] = mismatch
ansix923_mismatch pad_size i mismatch (b ∷ bs) =
    ansix923_mismatch pad_size (i + 1) (bit_or mismatch (bit_and (constant_time_lt i pad_size) b))
      bs

unfoldable pub check_ansix923_padding : List ℕ → Option Bool
unfolding ansix923_mismatch conclude
check_ansix923_padding bytes = elim (last? bytes) [
  | none ↦ none
  | some pad_size ↦
      if ltb (length bytes) 256
      then some (
          conclude (length bytes) pad_size
            (ansix923_mismatch pad_size 1 0 (reverse (take (length bytes - 1) bytes))))
      else none
]

-- PKCS7PaddingContext and ANSIX923PaddingContext have the same fields.
pub record PaddingContext : Type 0 where
  pub block_size : ℕ
  pub length_seen : Option ℕ

unfoldable pub new_padding : ℕ → PaddingContext
new_padding block_size = record { block_size = block_size / 8; length_seen = some 0 }

-- update of either: the bytes go through as they are. A count of bytes beyond a `usize` panics, since the
-- build checks for overflow, and stays as it was.
unfoldable pub pad_update : PaddingContext → List ℕ → PaddingContext × Result PaddingError (List ℕ)
pad_update ctx buf = elim (ctx.length_seen) [
  | none ↦ (ctx, err already_finalized)
  | some v ↦
      if ltb (v + length buf) (2 ^ 64)
      then (record { block_size = ctx.block_size; length_seen = some (v + length buf) }, ok buf)
      else (ctx, err panic)
]

-- The padding of a message of `v` bytes, which panics for blocks of no bytes.
unfoldable pub pkcs7_pad : ℕ → ℕ → Result PaddingError (List ℕ)
pkcs7_pad block_size v =
    if block_size == 0
    then err panic
    else (let pad_size = block_size - v % block_size in ok (replicate pad_size (pad_size % 256)))

unfoldable pub ansix923_pad : ℕ → ℕ → Result PaddingError (List ℕ)
ansix923_pad block_size v =
    if block_size == 0
    then err panic
    else (let pad_size = block_size - v % block_size in
        ok (replicate (pad_size - 1) 0 ++ pad_size % 256 ∷ []))

-- finalize of a padding context, with the padding that is its own.
unfoldable pub pad_finalize :
    (ℕ → ℕ → Result PaddingError (List ℕ))
    → PaddingContext
    → PaddingContext × Result PaddingError (List ℕ)
pad_finalize pad ctx = elim (ctx.length_seen) [
  | none ↦ (ctx, err already_finalized)
  | some v ↦ (record { block_size = ctx.block_size; length_seen = none }, pad (ctx.block_size) v)
]

unfoldable pub pkcs7_pad_finalize : PaddingContext → PaddingContext × Result PaddingError (List ℕ)
unfolding pad_finalize pkcs7_pad
pkcs7_pad_finalize = pad_finalize pkcs7_pad

unfoldable pub ansix923_pad_finalize :
    PaddingContext → PaddingContext × Result PaddingError (List ℕ)
unfolding pad_finalize ansix923_pad
ansix923_pad_finalize = pad_finalize ansix923_pad

-- PKCS7UnpaddingContext and ANSIX923UnpaddingContext have the same fields.
pub record UnpaddingContext : Type 0 where
  pub block_size : ℕ
  pub buffer : Option (List ℕ)

unfoldable pub new_unpadding : ℕ → UnpaddingContext
new_unpadding block_size = record { block_size = block_size / 8; buffer = some [] }

-- update of either: all full blocks but the last one leave the buffer.
unfoldable pub unpad_update :
    UnpaddingContext → List ℕ → UnpaddingContext × Result PaddingError (List ℕ)
unpad_update ctx buf = elim (ctx.buffer) [
  | none ↦ (ctx, err already_finalized)
  | some held ↦
      let v = held ++ buf in
      let bs = ctx.block_size in
      if bs == 0
      then (record { block_size = bs; buffer = some v }, err panic)
      else (let finished_blocks = length v / bs - 1 in
          let result_size = finished_blocks * bs in
          (record { block_size = bs; buffer = some (drop result_size v) }, ok (take result_size v)))
]

-- The message without its padding, where the check has passed.
unfoldable pub strip : List ℕ → Result PaddingError (List ℕ)
strip v = elim (last? v) [
  | none ↦ err panic
  | some pad_size ↦ if ltb (length v) pad_size then err panic else ok (take (length v - pad_size) v)
]

-- The last block of a message, unpadded.
unfoldable pub unpad_last : (List ℕ → Option Bool) → ℕ → List ℕ → Result PaddingError (List ℕ)
unfolding strip
unpad_last check block_size v =
    if not (length v == block_size) then err invalid_padding_bytes else elim (check v) [
      | none ↦ err panic
      | some false ↦ err invalid_padding_bytes
      | some true ↦ strip v
    ]

unfoldable pub unpad_finalize :
    (List ℕ → Option Bool) → UnpaddingContext → UnpaddingContext × Result PaddingError (List ℕ)
unfolding unpad_last
unpad_finalize check ctx = elim (ctx.buffer) [
  | none ↦ (ctx, err already_finalized)
  | some v ↦
      (record { block_size = ctx.block_size; buffer = none }, unpad_last check (ctx.block_size) v)
]

unfoldable pub pkcs7_unpad_finalize :
    UnpaddingContext → UnpaddingContext × Result PaddingError (List ℕ)
unfolding unpad_finalize check_pkcs7_padding
pkcs7_unpad_finalize = unpad_finalize check_pkcs7_padding

unfoldable pub ansix923_unpad_finalize :
    UnpaddingContext → UnpaddingContext × Result PaddingError (List ℕ)
unfolding unpad_finalize check_ansix923_padding
ansix923_unpad_finalize = unpad_finalize check_ansix923_padding
