-- ===== src/Padding/ConstantTime.antt =====
-- What the constant-time operations of src/padding.rs compute.
use Prim.Native.Nat.{bit_and, bit_or, bit_xor}
use cryptography.Prelude.{
  ℕ, zero, suc, ◌/◌, ◌^◌, ◌≤◌, ◌<◌, ◌≡◌, refl, ◌∙◌, ap, arith, true, ltb, ◌==◌, ==_iff, ltb→lt,
  ltb→le, Bool-cases, ◌⊎◌, inl, inr, ◌↔◌, if◌then◌else◌,
}
use cryptography.Words.{wrapping_sub}
use cryptography.Words.Bits.{
  top-bit_or, top-bit_xor, all_below, all_below_sound, bit_or-IsByte, bit_or-zero,
}
use cryptography.Padding.{duplicate_msb_to_all, constant_time_lt, conclude, complement}

top-cases : (a : ℕ) → a < 256 → (a / 128 ≡ 0) ⊎ (a / 128 ≡ 1)
top-cases a small = elim (Bool-cases (a / 128 == 0)) [
  | inl e ↦ inl ((==_iff _ 0).0 e)
  | inr e ↦ inr (grind arith)
]

-- The top bit that constant_time_lt spreads, from those of its arguments and their difference.
top_bit : ℕ → ℕ → ℕ → ℕ
top_bit a b s = bit_xor a (bit_or (bit_xor a b) (bit_xor s b))

constant_time_lt-top :
    (a b : ℕ)
    → constant_time_lt a b
      ≡ wrapping_sub 8 0 (top_bit (a / 128) (b / 128) (wrapping_sub 8 a b / 128))
unfolding constant_time_lt duplicate_msb_to_all top_bit
constant_time_lt-top a b = ap (wrapping_sub 8 0) (
    top-bit_xor a (bit_or (bit_xor a b) (bit_xor (wrapping_sub 8 a b) b))
    ∙ ap (bit_xor (a / 128)) (
        top-bit_or (bit_xor a b) (bit_xor (wrapping_sub 8 a b) b)
        ∙ rw (top-bit_xor a b, top-bit_xor (wrapping_sub 8 a b) b)))

pub lt_constant_time : (a b : ℕ) → a < b → b < 256 → constant_time_lt a b ≡ 255
unfolding top_bit
lt_constant_time a b less small = constant_time_lt-top a b ∙ elim (top-cases a (omega arith)) [
  | inl p ↦ elim (top-cases b small) [
    | inl q ↦ let r : wrapping_sub 8 a b / 128 ≡ 1 = omega arith in rw (p, q, r)
    | inr q ↦ elim (top-cases (wrapping_sub 8 a b) (omega arith)) [
      | inl r ↦ rw (p, q, r)
      | inr r ↦ rw (p, q, r)
    ]
  ]
  | inr p ↦ elim (top-cases b small) [
    | inl q ↦ absurd (omega arith)
    | inr q ↦ let r : wrapping_sub 8 a b / 128 ≡ 1 = omega arith in rw (p, q, r)
  ]
]

pub ge_constant_time : (a b : ℕ) → b ≤ a → a < 256 → constant_time_lt a b ≡ 0
unfolding top_bit
ge_constant_time a b greater small = constant_time_lt-top a b ∙ elim (top-cases a small) [
  | inl p ↦ elim (top-cases b (omega arith)) [
    | inl q ↦ let r : wrapping_sub 8 a b / 128 ≡ 0 = omega arith in rw (p, q, r)
    | inr q ↦ absurd (omega arith)
  ]
  | inr p ↦ elim (top-cases b (omega arith)) [
    | inl q ↦ elim (top-cases (wrapping_sub 8 a b) (omega arith)) [
      | inl r ↦ rw (p, q, r)
      | inr r ↦ rw (p, q, r)
    ]
    | inr q ↦ let r : wrapping_sub 8 a b / 128 ≡ 0 = omega arith in rw (p, q, r)
  ]
]

-- On bytes the constant-time comparison is the comparison: 0xFF for less, else 0.
pub constant_time_lt-value :
    (a b : ℕ) → a < 256 → b < 256 → constant_time_lt a b ≡ (if ltb a b then 255 else 0)
constant_time_lt-value a b p q = elim (Bool-cases (ltb a b)) [
  | inl e ↦ rw e (lt_constant_time a b (ltb→lt a b e) q)
  | inr e ↦ rw e (ge_constant_time a b (ltb→le a b e) p)
]

-- Folding a byte's bits into the lowest one, as `conclude` does.
fold_bits : ℕ → ℕ
fold_bits m =
    let m2 = bit_or m (m / 2 ^ 4) in
    let m3 = bit_or m2 (m2 / 2 ^ 2) in let m4 = bit_or m3 (m3 / 2 ^ 1) in bit_and m4 1

fold_table : all_below 255 (λ m. fold_bits (suc m) == 1) ≡ true
unfolding fold_bits
fold_table = refl

fold_bits-suc : (m : ℕ) → m < 255 → fold_bits (suc m) ≡ 1
fold_bits-suc m small =
    (==_iff _ 1).0 (all_below_sound 255 (λ x. fold_bits (suc x) == 1) m fold_table small)

fold_bits-zero : (m : ℕ) → m < 256 → (fold_bits m == 0) ≡ true → m ≡ 0
fold_bits-zero zero small h = refl
fold_bits-zero (suc m) small h =
    absurd (omega (arith, fold_bits-suc m (omega arith), (==_iff _ 0).0 h))

pub lt_cases :
    (a b : ℕ)
    → a < 256
    → b < 256
    → ((a < b) × (constant_time_lt a b ≡ 255)) ⊎ ((b ≤ a) × (constant_time_lt a b ≡ 0))
lt_cases a b p q = elim (Bool-cases (ltb a b)) [
  | inl e ↦ inl (ltb→lt a b e, lt_constant_time a b (ltb→lt a b e) q)
  | inr e ↦ inr (ltb→le a b e, ge_constant_time a b (ltb→le a b e) p)
]

-- The verdict is positive just if no byte differed and the size is between 1 and the length.
pub conclude_iff :
    (len pad_size mismatch : ℕ)
    → len < 256
    → pad_size < 256
    → mismatch < 256
    → (conclude len pad_size mismatch ≡ true) ↔ ((mismatch ≡ 0) × (1 ≤ pad_size) × (pad_size ≤ len))
unfolding conclude fold_bits
conclude_iff len pad_size mismatch sl sp sm = (to, from)
  where
    to : conclude len pad_size mismatch ≡ true → (mismatch ≡ 0) × (1 ≤ pad_size) × (pad_size ≤ len)
    to h =
        let below = lt_cases 0 pad_size (omega arith) sp in
        let above = lt_cases len pad_size sl sp in
        let small0 : constant_time_lt len pad_size < 256 = elim above [
          | inl c ↦ omega (arith, c.1)
          | inr c ↦ omega (arith, c.1)
        ] in
        let m0 = bit_or mismatch (complement (constant_time_lt 0 pad_size)) in
        let byte0 =
          bit_or-IsByte mismatch (complement (constant_time_lt 0 pad_size)) sm (omega arith) in
        let byte1 = bit_or-IsByte m0 (constant_time_lt len pad_size) byte0 small0 in
        let zeros = bit_or-zero m0 (constant_time_lt len pad_size) (fold_bits-zero _ byte1 h) in
        let first = bit_or-zero mismatch (complement (constant_time_lt 0 pad_size)) (zeros.0) in
        (
          first.0,
          elim below [ inl c ↦ c.0 | inr c ↦ absurd (omega (arith, c.1, first.1)) ],
          elim above [ inl c ↦ absurd (omega (arith, c.1, zeros.1)) | inr c ↦ c.0 ],
        )

    from :
        (mismatch ≡ 0) × (1 ≤ pad_size) × (pad_size ≤ len) → conclude len pad_size mismatch ≡ true
    from (none, positive, fits) =
        rw (none, lt_constant_time 0 pad_size positive sp, ge_constant_time len pad_size fits sl)
