-- ===== src/Words/Bits.antt =====
-- The operations `|`, `^` and `!` of Rust on bytes: half of a result is the result on the halves, and
-- when a result is zero.
use Prim.Native.Nat.{
  bit_and, bit_or, bit_xor, bit_and-bitwise, bit_or-bitwise, bit_xor-bitwise, digits, bitwise,
  differ, max,
}
use cryptography.Prelude.{
  ℕ, zero, suc, ◌+◌, ◌*◌, ◌/◌, ◌%◌, ◌≤◌, ◌<◌, ◌≡◌, refl, ap, arith, Bool, true, ◌==◌, ==_iff, ◌&&◌,
  Bool-cases, ◌⊎◌, inl, inr, sym, ◌∙◌,
}

-- A test at every number below a bound.
abbrev pub all_below : ℕ → (ℕ → Bool) → Bool
all_below zero p = true
all_below (suc n) p = p n && all_below n p

pub all_below_sound : (n : ℕ) (p : ℕ → Bool) (x : ℕ) → all_below n p ≡ true → x < n → p x ≡ true
all_below_sound zero p x h small = absurd (omega arith)
all_below_sound (suc n) p x h small = ground (arith, all_below_sound n p x)

-- The recursion on digits that the native operations stand for, for any operation on two digits.
module _ (absent : ℕ → ℕ) (pair : ℕ → ℕ → ℕ)
    (runs_out : (b : ℕ) → absent b ≡ absent (b / 2) * 2 + pair 0 (b % 2)) where
  any_count : (a b k l : ℕ) → a ≤ k → a ≤ l → digits absent pair l a b ≡ digits absent pair k a b
  any_count (suc a) b (suc k) (suc l) in_k in_l =
      let halves = any_count (suc a / 2) (b / 2) k l (omega arith) (omega arith) in
      ap (λ (high : ℕ). high * 2 + pair (suc a % 2) (b % 2)) halves
  any_count (suc a) b (suc k) zero in_k in_l = absurd (omega arith)
  any_count (suc a) b zero l in_k in_l = absurd (omega arith)
  any_count zero b (suc k) (suc l) in_k in_l = refl
  any_count zero b (suc k) zero in_k in_l = refl
  any_count zero b zero (suc l) in_k in_l = refl
  any_count zero b zero zero in_k in_l = refl

  -- The lowest digit and the digits of the halves.
  lowest :
      (a b : ℕ)
      → bitwise absent pair a b ≡ bitwise absent pair (a / 2) (b / 2) * 2 + pair (a % 2) (b % 2)
  lowest zero b = runs_out b
  lowest (suc a) b =
      let halves = any_count (suc a / 2) (b / 2) (suc a / 2) a (omega arith) (omega arith) in
      ap (λ (high : ℕ). high * 2 + pair (suc a % 2) (b % 2)) halves

bit_or_step : (a b : ℕ) → bit_or a b ≡ bit_or (a / 2) (b / 2) * 2 + max (a % 2) (b % 2)
bit_or_step a b =
    let law = lowest (λ b. b) max (λ b. omega arith) a b in
    bit_or-bitwise a b ∙ law ∙ rw (bit_or-bitwise (a / 2) (b / 2)) refl

bit_xor_step : (a b : ℕ) → bit_xor a b ≡ bit_xor (a / 2) (b / 2) * 2 + differ (a % 2) (b % 2)
bit_xor_step a b =
    let law = lowest (λ b. b) differ (λ b. omega arith) a b in
    bit_xor-bitwise a b ∙ law ∙ rw (bit_xor-bitwise (a / 2) (b / 2)) refl

-- One binary digit.
digit-cases : (a : ℕ) → (a % 2 ≡ 0) ⊎ (a % 2 ≡ 1)
digit-cases a = elim (Bool-cases (a % 2 == 1)) [
  | inl e ↦ inr ((==_iff _ 1).0 e)
  | inr e ↦ inl (grind arith)
]

bit_or-zero_fuel : (n a b : ℕ) → a ≤ n → bit_or a b ≡ 0 → (a ≡ 0) × (b ≡ 0)
bit_or-zero_fuel n zero b p h = (refl, sym (bit_or-bitwise 0 b) ∙ h)
bit_or-zero_fuel zero (suc a) b p h = absurd (omega arith)
bit_or-zero_fuel (suc n) (suc a) b p h =
    let step = bit_or_step (suc a) b in
    let halves = bit_or-zero_fuel n (suc a / 2) (b / 2) (omega arith) (omega (arith, step)) in
    (omega (arith, step, halves.0), omega (arith, step, halves.1))

-- An `|` is zero just if both sides are.
pub bit_or-zero : (a b : ℕ) → bit_or a b ≡ 0 → (a ≡ 0) × (b ≡ 0)
bit_or-zero a b h = bit_or-zero_fuel a a b (omega arith) h

differ-cases : (a b : ℕ) → (a % 2 ≡ b % 2) ⊎ (differ (a % 2) (b % 2) ≡ 1)
differ-cases a b = elim (digit-cases a) [
  | inl p ↦ elim (digit-cases b) [ inl q ↦ inl (omega (arith, p, q)) | inr q ↦ inr (rw (p, q)) ]
  | inr p ↦ elim (digit-cases b) [ inl q ↦ inr (rw (p, q)) | inr q ↦ inl (omega (arith, p, q)) ]
]

bit_xor-zero_fuel : (n a b : ℕ) → a ≤ n → bit_xor a b ≡ 0 → a ≡ b
bit_xor-zero_fuel n zero b p h = sym (sym (bit_xor-bitwise 0 b) ∙ h)
bit_xor-zero_fuel zero (suc a) b p h = absurd (omega arith)
bit_xor-zero_fuel (suc n) (suc a) b p h =
    let step = bit_xor_step (suc a) b in
    let halves = bit_xor-zero_fuel n (suc a / 2) (b / 2) (omega arith) (omega (arith, step)) in
    elim (differ-cases (suc a) b) [ inl e ↦ omega arith | inr e ↦ absurd (omega arith) ]

-- An `^` is zero just if both sides are the same.
pub bit_xor-zero : (a b : ℕ) → bit_xor a b ≡ 0 → a ≡ b
bit_xor-zero a b h = bit_xor-zero_fuel a a b (omega arith) h

bit_xor-same_fuel : (n a : ℕ) → a ≤ n → bit_xor a a ≡ 0
bit_xor-same_fuel n zero p = refl
bit_xor-same_fuel zero (suc a) p = absurd (omega arith)
bit_xor-same_fuel (suc n) (suc a) p =
    let halves = bit_xor-same_fuel n (suc a / 2) (omega arith) in
    elim (digit-cases (suc a)) [
      | inl e ↦ bit_xor_step (suc a) (suc a) ∙ rw (halves, e)
      | inr e ↦ bit_xor_step (suc a) (suc a) ∙ rw (halves, e)
    ]

pub bit_xor-same : (a : ℕ) → bit_xor a a ≡ 0
bit_xor-same a = bit_xor-same_fuel a a (omega arith)

differ-bit : (a b : ℕ) → differ (a % 2) (b % 2) ≤ 1
differ-bit a b = elim (digit-cases a) [
  | inl p ↦ elim (digit-cases b) [
    | inl q ↦ rw (p, q) (omega arith)
    | inr q ↦ rw (p, q) (omega arith)
  ]
  | inr p ↦ elim (digit-cases b) [
    | inl q ↦ rw (p, q) (omega arith)
    | inr q ↦ rw (p, q) (omega arith)
  ]
]

bit_or-half : (a b : ℕ) → bit_or a b / 2 ≡ bit_or (a / 2) (b / 2)
bit_or-half a b = omega (arith, bit_or_step a b)

bit_xor-half : (a b : ℕ) → bit_xor a b / 2 ≡ bit_xor (a / 2) (b / 2)
bit_xor-half a b = omega (arith, bit_xor_step a b, differ-bit a b)

-- The bits from the (k + 1)-th on.
pub high : ℕ → ℕ → ℕ
high zero a = a
high (suc k) a = high k (a / 2)

high-bit_or : (k a b : ℕ) → high k (bit_or a b) ≡ bit_or (high k a) (high k b)
unfolding high
high-bit_or zero a b = refl
high-bit_or (suc k) a b = rw (bit_or-half a b) (high-bit_or k (a / 2) (b / 2))

high-bit_xor : (k a b : ℕ) → high k (bit_xor a b) ≡ bit_xor (high k a) (high k b)
unfolding high
high-bit_xor zero a b = refl
high-bit_xor (suc k) a b = rw (bit_xor-half a b) (high-bit_xor k (a / 2) (b / 2))

high_seven : (a : ℕ) → high 7 a ≡ a / 128
unfolding high
high_seven a = omega arith

-- The top bit of a byte.
pub top-bit_or : (a b : ℕ) → bit_or a b / 128 ≡ bit_or (a / 128) (b / 128)
top-bit_or a b = sym (high_seven (bit_or a b)) ∙ high-bit_or 7 a b ∙ rw (high_seven a, high_seven b)

pub top-bit_xor : (a b : ℕ) → bit_xor a b / 128 ≡ bit_xor (a / 128) (b / 128)
top-bit_xor a b =
    sym (high_seven (bit_xor a b)) ∙ high-bit_xor 7 a b ∙ rw (high_seven a, high_seven b)

-- On bytes both stay bytes.
pub bit_or-IsByte : (a b : ℕ) → a < 256 → b < 256 → bit_or a b < 256
bit_or-IsByte a b p q =
    let none_a : a / 128 / 2 ≡ 0 = omega arith in
    let none_b : b / 128 / 2 ≡ 0 = omega arith in
    let above : bit_or (a / 128) (b / 128) / 2 ≡ 0 =
      bit_or-half (a / 128) (b / 128) ∙ rw (none_a, none_b) in
    omega (arith, top-bit_or a b, above)

pub bit_xor-IsByte : (a b : ℕ) → a < 256 → b < 256 → bit_xor a b < 256
bit_xor-IsByte a b p q =
    let none_a : a / 128 / 2 ≡ 0 = omega arith in
    let none_b : b / 128 / 2 ≡ 0 = omega arith in
    let above : bit_xor (a / 128) (b / 128) / 2 ≡ 0 =
      bit_xor-half (a / 128) (b / 128) ∙ rw (none_a, none_b) in
    omega (arith, top-bit_xor a b, above)

and_table : all_below 256 (λ x. bit_and 255 x == x) ≡ true
and_table = refl

-- `&` with 0xFF on bytes, and with 0.
pub bit_and-ones : (x : ℕ) → x < 256 → bit_and 255 x ≡ x
bit_and-ones x small =
    (==_iff _ x).0 (all_below_sound 256 (λ x. bit_and 255 x == x) x and_table small)

pub bit_and-none : (x : ℕ) → bit_and 0 x ≡ 0
bit_and-none x = bit_and-bitwise 0 x
