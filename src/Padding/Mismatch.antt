-- ===== src/Padding/Mismatch.antt =====
-- The loop that both checks of src/padding.rs run over the reversed data: it ends with no mismatch just
-- if the bytes at the positions below the size are the ones wanted.
use Prim.Native.Nat.{bit_and, bit_or}
use cryptography.Prelude.{
  ℕ, zero, suc, ◌+◌, ◌-◌, ◌≤◌, ◌<◌, ◌≡◌, refl, sym, ◌∙◌, ap, arith, true, List, [], ◌∷◌, length,
  take, All, ◌⊎◌, inl, inr, ◌↔◌,
}
use cryptography.Words.Bytes.{IsByte}
use cryptography.Words.Bits.{bit_or-IsByte, bit_or-zero, bit_and-ones, bit_and-none}
use cryptography.Padding.{constant_time_lt, conclude}
use cryptography.Padding.ConstantTime.{lt_cases, conclude_iff}

-- The loop, with what a byte adds to the mismatch.
abbrev pub mismatch_of : (ℕ → ℕ) → ℕ → ℕ → ℕ → List ℕ → ℕ
mismatch_of cost size i m [] = m
mismatch_of cost size i m (b ∷ bs) =
    mismatch_of cost size (i + 1) (bit_or m (bit_and (constant_time_lt i size) (cost b))) bs

take-nil : (n : ℕ) → take {A = ℕ} n [] ≡ []
take-nil zero = refl
take-nil (suc n) = refl

-- The first `n` bytes are the one wanted.
abbrev pub Fits : ℕ → ℕ → List ℕ → Type 0
Fits wanted n bs = All (λ b. b ≡ wanted) (take n bs)

Fits-nil : (wanted n : ℕ) → Fits wanted n []
Fits-nil wanted n = rw (take-nil n) tt

module _ (cost : ℕ → ℕ) (wanted : ℕ) (zero_cost : (b : ℕ) → cost b ≡ 0 → b ≡ wanted)
    (no_cost : cost wanted ≡ 0) (byte_cost : (b : ℕ) → b < 256 → cost b < 256) where
  -- One round: a byte at a position below the size has to be the one wanted.
  round :
      (size i b : ℕ)
      → i < 256
      → size < 256
      → b < 256
      → ((i < size) × (bit_and (constant_time_lt i size) (cost b) ≡ cost b))
        ⊎ ((size ≤ i) × (bit_and (constant_time_lt i size) (cost b) ≡ 0))
  round size i b si ss sb = elim (lt_cases i size si ss) [
    | inl c ↦ inl (c.0, rw (c.1) (bit_and-ones (cost b) (byte_cost b sb)))
    | inr c ↦ inr (c.0, rw (c.1) (bit_and-none (cost b)))
  ]

  round-IsByte :
      (size i b : ℕ)
      → i < 256
      → size < 256
      → b < 256
      → bit_and (constant_time_lt i size) (cost b) < 256
  round-IsByte size i b si ss sb = elim (round size i b si ss sb) [
    | inl c ↦ omega (arith, c.1, byte_cost b sb)
    | inr c ↦ omega (arith, c.1)
  ]

  pub mismatch-IsByte :
      (size i m : ℕ) (bs : List ℕ)
      → size < 256
      → i + length bs ≤ 256
      → m < 256
      → All IsByte bs
      → mismatch_of cost size i m bs < 256
  mismatch-IsByte size i m [] ss room sm small = sm
  mismatch-IsByte size i m (b ∷ bs) ss room sm (sb, small) =
      mismatch-IsByte size (i + 1) _ bs ss (omega arith)
        (bit_or-IsByte m (bit_and (constant_time_lt i size) (cost b)) sm
          (round-IsByte size i b (omega arith) ss sb))
        small

  pub mismatch_sound :
      (size i m : ℕ) (bs : List ℕ)
      → size < 256
      → i + length bs ≤ 256
      → All IsByte bs
      → mismatch_of cost size i m bs ≡ 0
      → (m ≡ 0) × Fits wanted (size - i) bs
  mismatch_sound size i m [] ss room small h = (h, Fits-nil wanted (size - i))
  mismatch_sound size i m (b ∷ bs) ss room (sb, small) h =
      let rest = mismatch_sound size (i + 1) _ bs ss (omega arith) small h in
      let both = bit_or-zero m (bit_and (constant_time_lt i size) (cost b)) (rest.0) in
      let all_left : Fits wanted (size - i) (b ∷ bs) = elim (round size i b (omega arith) ss sb) [
        | inl c ↦
            let count : size - i ≡ suc (size - (i + 1)) = omega (arith, c.0) in
            rw count (zero_cost b (sym (c.1) ∙ both.1), rest.1)
        | inr c ↦ let count : size - i ≡ 0 = omega (arith, c.0) in rw count tt
      ] in
      (both.0, all_left)

  pub mismatch_complete :
      (size i : ℕ) (bs : List ℕ)
      → size < 256
      → i + length bs ≤ 256
      → All IsByte bs
      → Fits wanted (size - i) bs
      → mismatch_of cost size i 0 bs ≡ 0
  mismatch_complete size i [] ss room small h = refl
  mismatch_complete size i (b ∷ bs) ss room (sb, small) h =
      elim (round size i b (omega arith) ss sb) [
        | inl c ↦
            let count : size - i ≡ suc (size - (i + 1)) = omega (arith, c.0) in
            let fits : Fits wanted (suc (size - (i + 1))) (b ∷ bs) = rw count at h in
            let nothing : cost b ≡ 0 = ap cost (fits.0) ∙ no_cost in
            rw (c.1, nothing) (mismatch_complete size (i + 1) bs ss (omega arith) small (fits.1))
        | inr c ↦
            let none_left : size - (i + 1) ≡ 0 = omega (arith, c.0) in
            rw (c.1) (mismatch_complete size (i + 1) bs ss (omega arith) small (rw none_left tt))
      ]

  -- The verdict on a loop that starts with no mismatch.
  pub verdict_iff :
      (len size i k : ℕ) (bs : List ℕ)
      → size - i ≡ k
      → len < 256
      → size < 256
      → i + length bs ≤ 256
      → All IsByte bs
      → (conclude len size (mismatch_of cost size i 0 bs) ≡ true)
        ↔ ((1 ≤ size) × (size ≤ len) × Fits wanted k bs)
  verdict_iff len size i k bs count sl ss room small =
      let byte = mismatch-IsByte size i 0 bs ss room (omega arith) small in
      let verdict = conclude_iff len size (mismatch_of cost size i 0 bs) sl ss byte in
      (
        λ h.
            let facts = verdict.0 h in
            (
              facts.1,
              facts.2,
              rw count at ((mismatch_sound size i 0 bs ss room small (facts.0)).1),
            ),
        λ h. verdict.1 (mismatch_complete size i bs ss room small (rw count (h.2)), h.0, h.1),
      )
