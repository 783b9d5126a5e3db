-- ===== src/Words/Bytes.antt =====
-- The big-endian encoding of a word and its inverse.
use native.Mathlib.Nat.{pow-suc, pow-succ', div-add-mod', div-div-eq-div-mul}
use mathlib.Core.Path.{ap₂}
use cryptography.Prelude.{
  ℕ, zero, suc, ◌+◌, ◌*◌, ◌/◌, ◌%◌, ◌^◌, ◌≤◌, ◌<◌, ◌≡◌, refl, sym, ap, ◌∙◌, List, [], ◌∷◌, ◌++◌,
  arith, All, length,
}
use cryptography.Words.{from_be_acc, from_be_bytes, to_be_bytes}

abbrev pub IsByte : ℕ → Type 0
IsByte b = b < 256

byte_split : (k n : ℕ) → n % 256 ^ suc k ≡ n / 256 ^ k % 256 * 256 ^ k + n % 256 ^ k
byte_split k n = omega (
  arith,
  div-add-mod' n (256 ^ k),
  div-add-mod' n (256 ^ suc k),
  ap₂ ◌*◌ (ap (λ (t : ℕ). n / t) (pow-suc 256 k) ∙ sym (div-div-eq-div-mul n (256 ^ k) 256))
      (pow-succ' 256 k),
  ap (λ (t : ℕ). t * 256 ^ k) (div-add-mod' (n / 256 ^ k) 256),
)

from_be_acc-to_be_bytes :
    (k acc n : ℕ) → from_be_acc acc (to_be_bytes k n) ≡ acc * 256 ^ k + n % 256 ^ k
unfolding from_be_acc to_be_bytes
from_be_acc-to_be_bytes zero acc n = omega arith
from_be_acc-to_be_bytes (suc k) acc n =
    from_be_acc-to_be_bytes k (acc * 256 + n / 256 ^ k % 256) n
    ∙ omega (arith, byte_split k n, ap (λ (t : ℕ). acc * t) (pow-succ' 256 k))

-- Decoding the `k` bytes of a number gives its residue.
pub from_be_bytes-to_be_bytes : (k n : ℕ) → from_be_bytes (to_be_bytes k n) ≡ n % 256 ^ k
unfolding from_be_bytes
from_be_bytes-to_be_bytes k n = omega (arith, from_be_acc-to_be_bytes k 0 n)

pub length-to_be_bytes : (k n : ℕ) → length (to_be_bytes k n) ≡ k
unfolding to_be_bytes
length-to_be_bytes zero n = refl
length-to_be_bytes (suc k) n = ap suc (length-to_be_bytes k n)

pub to_be_bytes-IsByte : (k n : ℕ) → All IsByte (to_be_bytes k n)
unfolding to_be_bytes
to_be_bytes-IsByte zero n = tt
to_be_bytes-IsByte (suc k) n = (omega arith, to_be_bytes-IsByte k n)

from_be_acc_lt :
    (acc : ℕ) (bs : List ℕ) → All IsByte bs → from_be_acc acc bs < (acc + 1) * 256 ^ length bs
unfolding from_be_acc
from_be_acc_lt acc [] h = omega arith
from_be_acc_lt acc (b ∷ bs) (small, h) = omega (
  arith,
  from_be_acc_lt (acc * 256 + b) bs h,
  scale b (256 ^ length bs) small,
  ap (λ (t : ℕ). (acc + 1) * t) (pow-succ' 256 (length bs)),
)
  where
    scale : (b p : ℕ) → b < 256 → b * p ≤ 255 * p
    scale b p h = grind arith

pub from_be_bytes_lt :
    (k : ℕ) (bs : List ℕ) → length bs ≡ k → All IsByte bs → from_be_bytes bs < 256 ^ k
unfolding from_be_bytes
from_be_bytes_lt k bs e h = omega (arith, rw e at (from_be_acc_lt 0 bs h))

-- One more byte at the end.
from_be_acc-snoc :
    (acc : ℕ) (bs : List ℕ) (b : ℕ) → from_be_acc acc (bs ++ b ∷ []) ≡ from_be_acc acc bs * 256 + b
unfolding from_be_acc
from_be_acc-snoc acc [] b = refl
from_be_acc-snoc acc (x ∷ xs) b = from_be_acc-snoc (acc * 256 + x) xs b

pub from_be_bytes-snoc :
    (bs : List ℕ) (b : ℕ) → from_be_bytes (bs ++ b ∷ []) ≡ from_be_bytes bs * 256 + b
unfolding from_be_bytes
from_be_bytes-snoc bs b = from_be_acc-snoc 0 bs b

pub from_be_bytes-nil : from_be_bytes [] ≡ 0
unfolding from_be_bytes from_be_acc
from_be_bytes-nil = refl
