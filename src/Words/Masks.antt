-- ===== src/Words/Masks.antt =====
-- Contiguous masks: what `&` with one keeps, and when the counts of a word show one.
use Prim.Native.Nat.{bit_and, bit_and-bitwise, digits}
use native.Mathlib.Nat.{
  two-pow-succ, pow-succ', pow-suc, div-div-eq-div-mul, div-add-mod', suc-sub-suc, sub-zero,
}
use mathlib.Core.Path.{ap₂}
use cryptography.Prelude.{
  ℕ, zero, suc, ◌+◌, ◌-◌, ◌*◌, ◌/◌, ◌%◌, ◌^◌, ◌≤◌, ◌<◌, ◌≡◌, refl, sym, ap, ◌∙◌, arith, min, ◌==◌,
  ==_iff, Bool-cases, inl, inr,
}
use cryptography.Words.{leading_ones, count_ones}

-- `a & b`, digit by digit, on words of `w` bits.
ands : ℕ → ℕ → ℕ → ℕ
ands zero a b = 0
ands (suc w) a b = ands w (a / 2) (b / 2) * 2 + min (a % 2) (b % 2)

pub pow_pos : (w : ℕ) → 0 < 2 ^ w
pow_pos zero = omega arith
pow_pos (suc w) = omega (arith, pow_pos w, two-pow-succ w)

digits-ands : (w n a b : ℕ) → a ≤ n → a < 2 ^ w → digits (λ _. zero) min n a b ≡ ands w a b
unfolding ands
digits-ands zero zero a b p q = refl
digits-ands zero (suc n) zero b p q = refl
digits-ands zero (suc n) (suc a) b p q = absurd (omega arith)
digits-ands (suc w) zero zero b p q =
    omega (arith, digits-ands w 0 0 (b / 2) (omega arith) (pow_pos w))
digits-ands (suc w) zero (suc a) b p q = absurd (omega arith)
digits-ands (suc w) (suc n) zero b p q =
    omega (arith, digits-ands w 0 0 (b / 2) (omega arith) (pow_pos w))
digits-ands (suc w) (suc n) (suc a) b p q =
    omega (arith, digits-ands w n (suc a / 2) (b / 2) (omega arith) (omega (arith, two-pow-succ w)))

-- Half of a mask is the mask of one bit less.
half_mask :
    (w p : ℕ) → ((2 ^ suc w - 2 ^ suc p) / 2 ≡ 2 ^ w - 2 ^ p) × ((2 ^ suc w - 2 ^ suc p) % 2 ≡ 0)
half_mask w p =
    (omega (arith, two-pow-succ w, two-pow-succ p), omega (arith, two-pow-succ w, two-pow-succ p))

half_ones : (w : ℕ) → ((2 ^ suc w - 2 ^ 0) / 2 ≡ 2 ^ w - 2 ^ 0) × ((2 ^ suc w - 2 ^ 0) % 2 ≡ 1)
half_ones w = (omega (arith, two-pow-succ w, pow_pos w), omega (arith, two-pow-succ w, pow_pos w))

ands-mask : (w p x : ℕ) → p ≤ w → x < 2 ^ w → ands w x (2 ^ w - 2 ^ p) ≡ x / 2 ^ p * 2 ^ p
unfolding ands
ands-mask zero zero x h lt = omega arith
ands-mask zero (suc p) x h lt = absurd (omega arith)
ands-mask (suc w) zero x h lt =
    rw ((half_ones w).0, (half_ones w).1)
      (omega (arith, ands-mask w zero (x / 2) (omega arith) (omega (arith, two-pow-succ w))))
ands-mask (suc w) (suc p) x h lt =
    rw ((half_mask w p).0, (half_mask w p).1)
      (omega (
        arith,
        ands-mask w p (x / 2) (omega arith) (omega (arith, two-pow-succ w)),
        ap (λ (t : ℕ). t * 2 ^ suc p) (halves x p),
        ap (λ (t : ℕ). x / 2 / 2 ^ p * t) (two-pow-succ p),
      ))
  where
    halves : (x p : ℕ) → x / 2 / 2 ^ p ≡ x / 2 ^ suc p
    halves x p = div-div-eq-div-mul x 2 (2 ^ p) ∙ ap (λ (t : ℕ). x / t) (sym (pow-succ' 2 p))

-- And-ing a word with a mask of `w - p` leading ones clears its lowest `p` bits.
pub bit_and_mask : (w p x : ℕ) → p ≤ w → x < 2 ^ w → bit_and x (2 ^ w - 2 ^ p) ≡ x / 2 ^ p * 2 ^ p
bit_and_mask w p x h lt =
    bit_and-bitwise x (2 ^ w - 2 ^ p)
    ∙ digits-ands w x x (2 ^ w - 2 ^ p) (omega arith) lt
    ∙ ands-mask w p x h lt

pub leading-le : (w x : ℕ) → leading_ones w x ≤ w
unfolding leading_ones
leading-le zero x = omega arith
leading-le (suc w) x = ground (arith, leading-le w x)

mod_pow_suc : (w x : ℕ) → x % 2 ^ suc w ≡ x / 2 ^ w % 2 * 2 ^ w + x % 2 ^ w
mod_pow_suc w x = omega (
  arith,
  div-add-mod' x (2 ^ w),
  div-add-mod' x (2 ^ suc w),
  ap₂ ◌*◌ (ap (λ (t : ℕ). x / t) (pow-suc 2 w) ∙ sym (div-div-eq-div-mul x (2 ^ w) 2))
      (two-pow-succ w),
  ap (λ (t : ℕ). t * 2 ^ w) (div-add-mod' (x / 2 ^ w) 2),
)

count_zero : (w x : ℕ) → count_ones w x ≡ 0 → x % 2 ^ w ≡ 0
unfolding count_ones
count_zero zero x h = omega arith
count_zero (suc w) x h =
    let top : x / 2 ^ w % 2 ≡ 0 = omega arith in
    omega (arith, mod_pow_suc w x, ap (λ (t : ℕ). t * 2 ^ w) top, count_zero w x (omega arith))

-- If the leading ones of a word are all its ones, the word is a mask of that many leading ones.
pub leading-eq-count :
    (w x : ℕ) → leading_ones w x ≡ count_ones w x → x % 2 ^ w + 2 ^ (w - leading_ones w x) ≡ 2 ^ w
unfolding leading_ones count_ones
leading-eq-count zero x h = omega arith
leading-eq-count (suc w) x h = elim (Bool-cases (x / 2 ^ w % 2 == 1)) [
  | inl e ↦
      let top : x / 2 ^ w % 2 ≡ 1 = (==_iff _ 1).0 e in
      let same : leading_ones w x ≡ count_ones w x = omega (arith, rw e at h, top) in
      rw (e, suc-sub-suc w (leading_ones w x))
        (omega (
          arith,
          mod_pow_suc w x,
          ap (λ (t : ℕ). t * 2 ^ w) top,
          leading-eq-count w x same,
          two-pow-succ w,
        ))
  | inr e ↦
      let no_ones : 0 ≡ count_ones (suc w) x = rw e at h in
      rw (e, sub-zero (suc w)) (omega (arith, count_zero (suc w) x (sym no_ones)))
]
