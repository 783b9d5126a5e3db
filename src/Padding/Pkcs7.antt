-- ===== src/Padding/Pkcs7.antt =====
-- The check of PKCS #7 padding against its definition.
use Prim.Native.Nat.{bit_xor}
use mathlib.Core.Option.{some-injective}
use cryptography.Prelude.{
  last?-All, last?-append, last?-replicate, replicate-ends_with, ℕ, zero, suc, ◌+◌, ◌≤◌, ◌<◌, ◌≡◌,
  refl, sym, ◌∙◌, ap, arith, Bool, true, List, [], ◌∷◌, ◌++◌, reverse, length, replicate, last?,
  some, All, inl, inr, ◌↔◌, lt→ltb, snoc-cases, last?-snoc, length-reverse, All-reverse,
  ends_with_replicate, length-replicate, length-append,
}
use cryptography.Words.Bytes.{IsByte}
use cryptography.Words.Bits.{bit_xor-IsByte, bit_xor-zero, bit_xor-same}
use cryptography.Padding.{pkcs7_mismatch, check_pkcs7_padding}
use cryptography.Padding.Mismatch.{mismatch_of, Fits, verdict_iff}

-- A message that ends with the padding: `size` bytes, each of them `size`.
unfoldable pub IsPkcs7Padded : List ℕ → Type 0
IsPkcs7Padded bytes =
    (size : ℕ) × (front : List ℕ) × (1 ≤ size) × (bytes ≡ front ++ replicate size size)

pkcs7_mismatch-loop :
    (size i m : ℕ) (bs : List ℕ)
    → pkcs7_mismatch size i m bs ≡ mismatch_of (bit_xor size) size i m bs
unfolding pkcs7_mismatch
pkcs7_mismatch-loop size i m [] = refl
pkcs7_mismatch-loop size i m (b ∷ bs) = pkcs7_mismatch-loop size (i + 1) _ bs

cost_zero : (size b : ℕ) → bit_xor size b ≡ 0 → b ≡ size
cost_zero size b h = sym (bit_xor-zero size b h)

module _ (bytes : List ℕ) (size : ℕ) (ends : last? bytes ≡ some size) (fits : length bytes < 256)
    (small : All IsByte bytes) where
  -- The size is well formed, and the last `size` bytes are it.
  abbrev Sized : Type 0
  Sized = (1 ≤ size) × (size ≤ length bytes) × Fits size size (reverse bytes)

  check-Sized : (b : Bool) × (check_pkcs7_padding bytes ≡ some b) × ((b ≡ true) ↔ Sized)
  unfolding check_pkcs7_padding
  check-Sized =
      let size_byte = last?-All IsByte bytes small ends in
      let short = lt→ltb (length bytes) 256 fits in
      (
        _,
        rw (check_pkcs7_padding, ends, short, pkcs7_mismatch-loop size 0 0 (reverse bytes)) refl,
        verdict_iff (bit_xor size) size (cost_zero size) (bit_xor-same size)
            (λ b h. bit_xor-IsByte size b size_byte h) (length bytes) size 0 size (reverse bytes)
            (omega arith) fits size_byte (omega (arith, length-reverse bytes))
            (All-reverse IsByte bytes small),
      )

  padded_iff : Sized ↔ IsPkcs7Padded bytes
  unfolding IsPkcs7Padded
  padded_iff = (λ h. (size, _, h.0, ends_with_replicate size size bytes (h.1) (h.2)), from)
    where
      from : IsPkcs7Padded bytes → Sized
      from (zero, front, positive, e) = absurd (omega arith)
      from (suc n, front, positive, e) =
          let ending : last? bytes ≡ some (suc n) =
            rw e (last?-append front (suc n) (replicate n (suc n)) ∙ last?-replicate n (suc n)) in
          let same : suc n ≡ size = some-injective (suc n) size (sym ending ∙ ends) in
          let long : length bytes ≡ length front + suc n = rw e (
            length-append front (replicate (suc n) (suc n))
            ∙ ap (λ k. length front + k) (length-replicate (suc n) (suc n))) in
          let same_bytes : Fits (suc n) (suc n) (reverse bytes) =
            rw e (replicate-ends_with (suc n) (suc n) front) in
          (omega arith, omega (arith, long, same), rw same at same_bytes)

-- On 1 to 255 bytes check_pkcs7_padding returns, and what it returns is true if and only if the bytes
-- end with PKCS #7 padding: `size` bytes of the value `size`, at least one.
pub check_pkcs7_padding_iff :
    (bytes : List ℕ)
    → 1 ≤ length bytes
    → length bytes < 256
    → All IsByte bytes
    → (b : Bool) × (check_pkcs7_padding bytes ≡ some b) × ((b ≡ true) ↔ IsPkcs7Padded bytes)
check_pkcs7_padding_iff bytes some_bytes fits small = elim (snoc-cases bytes) [
  | inl e ↦ absurd (omega (arith, ap length e))
  | inr (front, size, e) ↦
      let ends : last? bytes ≡ some size = rw e (last?-snoc front size) in
      let check = check-Sized bytes size ends fits small in
      let padded = padded_iff bytes size ends fits small in
      (check.0, check.1, (λ h. padded.0 (check.2.0 h), λ h. check.2.1 (padded.1 h)))
]
