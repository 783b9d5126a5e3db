-- ===== src/Kdf/Hex.antt =====
-- hex_decode of src/encoding.rs against an encoder.
use Prim.Native.Nat.{bit_or}
use mathlib.Core.List.{tail-eq_of_cons-eq, head-eq_of_cons-eq}
use mathlib.Core.Path.{subst}
use mathlib.Core.Option.{some-injective}
use cryptography.Prelude.{
  ℕ, ◌+◌, ◌*◌, ◌/◌, ◌%◌, ◌^◌, ◌<◌, ◌≡◌, refl, sym, ◌∙◌, ap, arith, true, Option, none, some, List,
  [], ◌∷◌, length, map, All, ltb, ◌==◌, ==_iff, ◌↔◌, if◌then◌else◌, Bool-cases, inl, inr,
}
use cryptography.Str.{to_ascii_lowercase}
use cryptography.Words.Bytes.{IsByte}
use cryptography.Words.Bits.{all_below, all_below_sound}
use cryptography.Kdf.{hex_digit, hex_pairs, hex_decode, and_then}

-- The lowercase digit of a number below 16, and the digits of bytes.
abbrev pub digit_char : ℕ → ℕ
digit_char d = if ltb d 10 then 48 + d else 87 + d

abbrev pub hex_encode : List ℕ → List ℕ
hex_encode [] = []
hex_encode (b ∷ bs) = digit_char (b / 16) ∷ digit_char (b % 16) ∷ hex_encode bs

hex_digit_sound :
    (b : ℕ) {d : ℕ} → hex_digit b ≡ some d → (d < 16) × (to_ascii_lowercase b ≡ digit_char d)
unfolding hex_digit to_ascii_lowercase
hex_digit_sound b {d} h = (ground (arith, h), ground (arith, h))

hex_digit_complete : (b d : ℕ) → d < 16 → to_ascii_lowercase b ≡ digit_char d → hex_digit b ≡ some d
unfolding hex_digit to_ascii_lowercase
hex_digit_complete b d small h = ground (arith, small, h)

nibbles_table : all_below 256 (λ x. bit_or (x / 16 * 2 ^ 4 % 2 ^ 8) (x % 16) == x) ≡ true
nibbles_table = refl

nibbles : (h l : ℕ) → h < 16 → l < 16 → bit_or (h * 2 ^ 4 % 2 ^ 8) l ≡ h * 16 + l
nibbles h l p q =
    let x = h * 16 + l in
    let high : x / 16 ≡ h = omega arith in
    let low : x % 16 ≡ l = omega arith in
    let entry =
      all_below_sound 256 (λ x. bit_or (x / 16 * 2 ^ 4 % 2 ^ 8) (x % 16) == x) x nibbles_table
        (omega arith) in
    rw (high, low) at ((==_iff (bit_or (x / 16 * 2 ^ 4 % 2 ^ 8) (x % 16)) x).0 entry)

and_then-some :
    {A B : Type 0} (o : Option A) (f : A → Option B) {y : B}
    → and_then o f ≡ some y
    → (x : A) × (o ≡ some x) × (f x ≡ some y)
and_then-some (some x) f h = (x, refl, h)
and_then-some none f h = absurd (cc)

and_then-eq :
    {A B : Type 0} (o : Option A) (f : A → Option B) {x : A} {y : Option B}
    → o ≡ some x
    → f x ≡ y
    → and_then o f ≡ y
and_then-eq o f e h = ap (λ t. and_then t f) e ∙ h

hex_pairs_sound :
    (v bs : List ℕ)
    → hex_pairs v ≡ some bs
    → All IsByte bs × (map to_ascii_lowercase v ≡ hex_encode bs)
unfolding hex_pairs
hex_pairs_sound [] [] h = (tt, refl)
hex_pairs_sound [] (b ∷ bs) h = absurd (cc)
hex_pairs_sound (h ∷ []) bs e = absurd (cc)
hex_pairs_sound (h ∷ l ∷ rest) bs e =
    let high = and_then-some (hex_digit h) _ e in
    let low = and_then-some (hex_digit l) _ (high.2) in
    let more = and_then-some (hex_pairs rest) _ (low.2) in
    let high_is = hex_digit_sound h (high.1) in
    let low_is = hex_digit_sound l (low.1) in
    let tail = hex_pairs_sound rest (more.0) (more.1) in
    let value = nibbles (high.0) (low.0) (high_is.0) (low_is.0) in
    let byte = high.0 * 16 + low.0 in
    let whole : byte ∷ more.0 ≡ bs =
      ap (λ b. b ∷ more.0) (sym value) ∙ some-injective _ bs (more.2) in
    let upper : byte / 16 ≡ high.0 = omega (arith, high_is.0, low_is.0) in
    let lower : byte % 16 ≡ low.0 = omega (arith, high_is.0, low_is.0) in
    let encoded : map to_ascii_lowercase (h ∷ l ∷ rest) ≡ hex_encode (byte ∷ more.0) =
      rw (high_is.1, low_is.1, tail.1, upper, lower) in
    subst (λ t. All IsByte t × (map to_ascii_lowercase (h ∷ l ∷ rest) ≡ hex_encode t)) whole
      ((omega (arith, high_is.0, low_is.0), tail.0), encoded)

hex_pairs_complete :
    (v bs : List ℕ)
    → All IsByte bs
    → map to_ascii_lowercase v ≡ hex_encode bs
    → (hex_pairs v ≡ some bs) × (length v ≡ 2 * length bs)
unfolding hex_pairs
hex_pairs_complete [] [] small e = (refl, omega arith)
hex_pairs_complete (h ∷ []) [] small e = absurd (cc)
hex_pairs_complete (h ∷ l ∷ rest) [] small e = absurd (cc)
hex_pairs_complete [] (b ∷ bs) small e = absurd (cc)
hex_pairs_complete (h ∷ []) (b ∷ bs) small e = absurd (let short = tail-eq_of_cons-eq e in (cc))
hex_pairs_complete (h ∷ l ∷ rest) (b ∷ bs) (byte, small) e =
    let after_high = tail-eq_of_cons-eq e in
    let high = hex_digit_complete h (b / 16) (omega arith) (head-eq_of_cons-eq e) in
    let low = hex_digit_complete l (b % 16) (omega arith) (head-eq_of_cons-eq after_high) in
    let more = hex_pairs_complete rest bs small (tail-eq_of_cons-eq after_high) in
    let value : bit_or (b / 16 * 2 ^ 4 % 2 ^ 8) (b % 16) ≡ b =
      nibbles (b / 16) (b % 16) (omega arith) (omega arith) ∙ omega arith in
    (
      and_then-eq (hex_digit h) _ high (
          and_then-eq (hex_digit l) _ low
            (and_then-eq (hex_pairs rest) _ (more.0) (ap (λ x. some (x ∷ bs)) value))),
      omega (arith, more.1),
    )

-- Decoding a string gives bytes if and only if the string, in lower case, is their encoding in hexadecimal
-- digits, two for each byte: strings of odd length and other characters are refused.
pub hex_decode_iff :
    (v bs : List ℕ)
    → (hex_decode v ≡ some bs) ↔ (All IsByte bs × (map to_ascii_lowercase v ≡ hex_encode bs))
unfolding hex_decode
hex_decode_iff v bs = (
  λ h. elim (Bool-cases (length v % 2 == 0)) [
    | inl e ↦ hex_pairs_sound v bs (rw (hex_decode, e) at h)
    | inr e ↦ absurd (let refused = rw (hex_decode, e) at h in (cc))
  ],
  λ h.
      let pairs = hex_pairs_complete v bs (h.0) (h.1) in
      let even : (length v % 2 == 0) ≡ true =
        (==_iff (length v % 2) 0).1 (omega (arith, pairs.1)) in
      rw (hex_decode, even) (pairs.0),
)
