-- ===== src/Names/Ip/Prefix.antt =====
-- Masks and CIDR matching of types.rs, described on the numbers that the addresses stand for.
use Prim.Native.Nat.{bit_and}
use native.Mathlib.Nat.{div-mul-le_self, mod-eq_of_lt, eq_of_mul-eq-mul_right}
use mathlib.Core.Option.{some-injective}
use cryptography.Prelude.{
  ℕ, zero, suc, ◌+◌, ◌-◌, ◌*◌, ◌/◌, ◌%◌, ◌^◌, ◌≤◌, ◌<◌, ◌≡◌, ◌↔◌, refl, sym, ap, ◌∙◌, Bool, true,
  ◌&&◌, some, List, arith, All, length, ◌==◌, ==_iff, list_eq_iff, Bool-cases, inl, inr,
}
use cryptography.Words.{from_be_bytes, to_be_bytes, leading_ones, count_ones}
use cryptography.Words.Masks.{bit_and_mask, leading-le, leading-eq-count, pow_pos}
use cryptography.Words.Bytes.{
  IsByte, from_be_bytes-to_be_bytes, length-to_be_bytes, to_be_bytes-IsByte, from_be_bytes_lt,
}
use cryptography.Names.Ip.{
  IpAddress, v4, v6, prefix_of, as_prefix, mask_word, mask, constraint_matches,
}

-- The width in bits, the number, and the octets that an address must have.
abbrev pub width : IpAddress → ℕ
width (v4 a) = 32
width (v6 a) = 128

abbrev pub value : IpAddress → ℕ
value (v4 a) = from_be_bytes a
value (v6 a) = from_be_bytes a

abbrev pub IsAddress : IpAddress → Type 0
IsAddress (v4 a) = (length a ≡ 4) × All IsByte a
IsAddress (v6 a) = (length a ≡ 16) × All IsByte a

-- The mask of each prefix, by evaluation.
all_below : ℕ → (ℕ → Bool) → Bool
all_below zero p = true
all_below (suc n) p = p n && all_below n p

at_below : (n : ℕ) (p : ℕ → Bool) (x : ℕ) → all_below n p ≡ true → x < n → p x ≡ true
unfolding all_below
at_below zero p x h lt = absurd (omega arith)
at_below (suc n) p x h lt = ground (arith, at_below n p x)

masks_32 : all_below 33 (λ s. mask_word 32 s == 2 ^ 32 - 2 ^ s) ≡ true
unfolding all_below mask_word
masks_32 = refl

masks_128 : all_below 129 (λ s. mask_word 128 s == 2 ^ 128 - 2 ^ s) ≡ true
unfolding all_below mask_word
masks_128 = refl

mask_word_32 : (p : ℕ) → mask_word 32 (32 - p) ≡ 2 ^ 32 - 2 ^ (32 - p)
mask_word_32 p = (==_iff _ _).0 (at_below 33 _ (32 - p) masks_32 (omega arith))

mask_word_128 : (p : ℕ) → mask_word 128 (128 - p) ≡ 2 ^ 128 - 2 ^ (128 - p)
mask_word_128 p = (==_iff _ _).0 (at_below 129 _ (128 - p) masks_128 (omega arith))

cleared : (w p x : ℕ) → x < 2 ^ w → x / 2 ^ p * 2 ^ p < 2 ^ w
cleared w p x h = omega (arith, div-mul-le_self x (2 ^ p))

-- The word that `mask` encodes.
and_32 :
    (a : List ℕ) (p : ℕ)
    → IsAddress (v4 a)
    → bit_and (from_be_bytes a) (mask_word 32 (32 - p))
      ≡ from_be_bytes a / 2 ^ (32 - p) * 2 ^ (32 - p)
and_32 a p (len, bytes) =
    rw (mask_word_32 p)
      (bit_and_mask 32 (32 - p) (from_be_bytes a) (omega arith) (from_be_bytes_lt 4 a len bytes))

and_128 :
    (a : List ℕ) (p : ℕ)
    → IsAddress (v6 a)
    → bit_and (from_be_bytes a) (mask_word 128 (128 - p))
      ≡ from_be_bytes a / 2 ^ (128 - p) * 2 ^ (128 - p)
and_128 a p (len, bytes) =
    rw (mask_word_128 p)
      (bit_and_mask 128 (128 - p) (from_be_bytes a) (omega arith) (from_be_bytes_lt 16 a len bytes))

-- A masked address is an address, and its number is the address's with all but the first `p` bits
-- cleared.
pub mask-value :
    (a : IpAddress) (p : ℕ)
    → IsAddress a
    → IsAddress (mask a p) × (value (mask a p) ≡ value a / 2 ^ (width a - p) * 2 ^ (width a - p))
unfolding mask
mask-value (v4 a) p h = (
  (length-to_be_bytes 4 _, to_be_bytes-IsByte 4 _),
  from_be_bytes-to_be_bytes 4 _
      ∙ rw (and_32 a p h)
          (mod-eq_of_lt (cleared 32 (32 - p) (from_be_bytes a) (from_be_bytes_lt 4 a h.0 h.1))),
)
mask-value (v6 a) p h = (
  (length-to_be_bytes 16 _, to_be_bytes-IsByte 16 _),
  from_be_bytes-to_be_bytes 16 _
      ∙ rw (and_128 a p h)
          (mod-eq_of_lt (cleared 128 (128 - p) (from_be_bytes a) (from_be_bytes_lt 16 a h.0 h.1))),
)

-- Two addresses of one family.
abbrev pub SameFamily : IpAddress → IpAddress → Type 0
SameFamily (v4 a) (v4 b) = Unit
SameFamily (v6 a) (v6 b) = Unit
SameFamily (v4 a) (v6 b) = ⊥
SameFamily (v6 a) (v4 b) = ⊥

-- The number whose bits are the first `p` bits of the address.
abbrev pub network : IpAddress → ℕ → ℕ
network a p = value a / 2 ^ (width a - p)

scaled_eq : (m n p : ℕ) → m * 2 ^ p ≡ n * 2 ^ p → m ≡ n
scaled_eq m n p h = eq_of_mul-eq-mul_right (2 ^ p) (pow_pos p) m n h

family_of_matches :
    (base addr : IpAddress) (p : ℕ)
    → constraint_matches (record { address = mask base p; prefix = p }) addr ≡ true
    → SameFamily base addr × (mask base p ≡ mask addr p)
unfolding constraint_matches mask
family_of_matches (v4 a) (v4 b) p h = (tt, ap v4 ((list_eq_iff _ _).0 h))
family_of_matches (v6 a) (v6 b) p h = (tt, ap v6 ((list_eq_iff _ _).0 h))
family_of_matches (v4 a) (v6 b) p h = cc
family_of_matches (v6 a) (v4 b) p h = cc

same_width : (a b : IpAddress) → SameFamily a b → width a ≡ width b
same_width (v4 a) (v4 b) h = refl
same_width (v6 a) (v6 b) h = refl
same_width (v4 a) (v6 b) h = absurd h
same_width (v6 a) (v4 b) h = absurd h

network_of_mask :
    (base addr : IpAddress) (p : ℕ)
    → IsAddress base
    → IsAddress addr
    → SameFamily base addr
    → mask base p ≡ mask addr p
    → network base p ≡ network addr p
network_of_mask base addr p ha hb f h =
    scaled_eq (network base p) (network addr p) (width base - p) (
      sym (mask-value base p ha).1
      ∙ ap value h
      ∙ (mask-value addr p hb).1
      ∙ ap (λ (w : ℕ). network addr p * 2 ^ (w - p)) (sym (same_width base addr f)))

matches_of_network :
    (base addr : IpAddress) (p : ℕ)
    → IsAddress base
    → IsAddress addr
    → SameFamily base addr × (network base p ≡ network addr p)
    → constraint_matches (record { address = mask base p; prefix = p }) addr ≡ true
unfolding constraint_matches mask
matches_of_network (v4 a) (v4 b) p ha hb (f, h) =
    (list_eq_iff _ _).1 (
      ap (to_be_bytes 4) (and_32 a p ha ∙ ap (λ (t : ℕ). t * 2 ^ (32 - p)) h ∙ sym (and_32 b p hb)))
matches_of_network (v6 a) (v6 b) p ha hb (f, h) = (list_eq_iff _ _).1 (
    ap (to_be_bytes 16)
      (and_128 a p ha ∙ ap (λ (t : ℕ). t * 2 ^ (128 - p)) h ∙ sym (and_128 b p hb)))
matches_of_network (v4 a) (v6 b) p ha hb (f, h) = absurd f
matches_of_network (v6 a) (v4 b) p ha hb (f, h) = absurd f

-- A constraint matches an address if and only if they are of one family and the first `prefix`
-- bits of the constraint's base address and of the address are the same.
pub matches_iff :
    (base addr : IpAddress) (p : ℕ)
    → IsAddress base
    → IsAddress addr
    → (constraint_matches (record { address = mask base p; prefix = p }) addr ≡ true)
      ↔ (SameFamily base addr × (network base p ≡ network addr p))
matches_iff base addr p ha hb = (
  λ h. let (f, e) = family_of_matches base addr p h in (f, network_of_mask base addr p ha hb f e),
  matches_of_network base addr p ha hb,
)

prefix_sound :
    (w x p : ℕ)
    → w ≤ 128
    → x < 2 ^ w
    → prefix_of (leading_ones w x) (count_ones w x) ≡ some p
    → (p ≤ w) × (x + 2 ^ (w - p) ≡ 2 ^ w)
unfolding prefix_of
prefix_sound w x p h lt e = elim (Bool-cases (leading_ones w x == count_ones w x)) [
  | inl same ↦
      let small : leading_ones w x ≤ w = leading-le w x in
      let q : leading_ones w x % 256 ≡ p = some-injective _ _ (rw same at e) in
      let r : leading_ones w x ≡ p = omega arith in
      (
        omega arith,
        rw (← r) (
            ap (λ (t : ℕ). t + 2 ^ (w - leading_ones w x)) (sym (mod-eq_of_lt lt))
            ∙ leading-eq-count w x ((==_iff _ _).0 same)),
      )
  | inr other ↦ cc (rw other at e)
]

-- A netmask has a prefix only if its bits are that many ones and then only zeros.
pub as_prefix_sound :
    (a : IpAddress) (p : ℕ)
    → IsAddress a
    → as_prefix a ≡ some p
    → (p ≤ width a) × (value a + 2 ^ (width a - p) ≡ 2 ^ width a)
unfolding as_prefix
as_prefix_sound (v4 a) p h e =
    prefix_sound 32 (from_be_bytes a) p (omega arith) (from_be_bytes_lt 4 a h.0 h.1) e
as_prefix_sound (v6 a) p h e =
    prefix_sound 128 (from_be_bytes a) p (omega arith) (from_be_bytes_lt 16 a h.0 h.1) e
