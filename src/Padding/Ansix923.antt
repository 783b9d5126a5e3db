-- ===== src/Padding/Ansix923.antt =====
-- The check of ANSI X9.23 padding against its definition.
use mathlib.Core.List.{append_assoc}
use cryptography.Prelude.{
  ℕ, suc, ◌+◌, ◌-◌, ◌≤◌, ◌<◌, ◌≡◌, refl, sym, ◌∙◌, ap, arith, Bool, true, List, [], ◌∷◌, ◌++◌,
  reverse, length, take, drop, replicate, some, All, inl, inr, ◌↔◌, snoc-injective, lt→ltb,
  snoc-cases, last?-snoc, length-reverse, take-append-eq, All-reverse, All-right, All-left,
  ends_with_replicate, length-replicate, length-append, replicate-ends_with,
}
use cryptography.Words.Bytes.{IsByte}
use cryptography.Padding.{ansix923_mismatch, check_ansix923_padding}
use cryptography.Padding.Mismatch.{mismatch_of, Fits, verdict_iff}

-- A message that ends with the padding: zero bytes and then the size of the padding, itself included.
unfoldable pub IsAnsix923Padded : List ℕ → Type 0
IsAnsix923Padded bytes =
    (size : ℕ) × (front : List ℕ) × (1 ≤ size)
    × (bytes ≡ front ++ (replicate (size - 1) 0 ++ size ∷ []))

ansix923_mismatch-loop :
    (size i m : ℕ) (bs : List ℕ) → ansix923_mismatch size i m bs ≡ mismatch_of (λ b. b) size i m bs
unfolding ansix923_mismatch
ansix923_mismatch-loop size i m [] = refl
ansix923_mismatch-loop size i m (b ∷ bs) = ansix923_mismatch-loop size (i + 1) _ bs

length-snoc : (front : List ℕ) (x : ℕ) → length (front ++ x ∷ []) ≡ suc (length front)
length-snoc front x = omega (arith, length-append front (x ∷ []))

module _ (front : List ℕ) (size : ℕ) (fits : length front < 255)
    (small : All IsByte (front ++ size ∷ [])) where
  -- The size is well formed, and the `size - 1` bytes before it are zero.
  abbrev Sized : Type 0
  Sized = (1 ≤ size) × (size ≤ suc (length front)) × Fits 0 (size - 1) (reverse front)

  check-Sized :
      (b : Bool) × (check_ansix923_padding (front ++ size ∷ []) ≡ some b) × ((b ≡ true) ↔ Sized)
  unfolding check_ansix923_padding
  check-Sized =
      let long = length-snoc front size in
      let short = lt→ltb (suc (length front)) 256 (omega arith) in
      let before : take (suc (length front) - 1) (front ++ size ∷ []) ≡ front =
        take-append-eq (suc (length front) - 1) front (size ∷ []) (omega arith) in
      (
        _,
        rw
            (
              check_ansix923_padding,
              last?-snoc front size,
              long,
              short,
              before,
              ansix923_mismatch-loop size 1 0 (reverse front),
            )
            refl,
        verdict_iff (λ b. b) 0 (λ b h. h) refl (λ b h. h) (suc (length front)) size 1 (size - 1)
            (reverse front) refl (omega arith) ((All-right IsByte front (size ∷ []) small).0)
            (omega (arith, length-reverse front))
            (All-reverse IsByte front (All-left IsByte front (size ∷ []) small)),
      )

  padded_iff : Sized ↔ IsAnsix923Padded (front ++ size ∷ [])
  unfolding IsAnsix923Padded
  padded_iff = (to, from)
    where
      to : Sized → IsAnsix923Padded (front ++ size ∷ [])
      to (positive, room, zeros) =
          let split = ends_with_replicate (size - 1) 0 front (omega arith) zeros in
          (
            size,
            reverse (drop (size - 1) (reverse front)),
            positive,
            ap (λ f. f ++ size ∷ []) split
                ∙ append_assoc (reverse (drop (size - 1) (reverse front))) (replicate (size - 1) 0)
                    (size ∷ []),
          )

      from : IsAnsix923Padded (front ++ size ∷ []) → Sized
      from (n, rest, positive, e) =
          let parts =
            snoc-injective front (rest ++ replicate (n - 1) 0) size n
              (e ∙ sym (append_assoc rest (replicate (n - 1) 0) (n ∷ []))) in
          let long : length front ≡ length rest + (n - 1) = rw (parts.0) (
            length-append rest (replicate (n - 1) 0)
            ∙ ap (λ k. length rest + k) (length-replicate (n - 1) 0)) in
          let zeros : Fits 0 (n - 1) (reverse front) =
            rw (parts.0) (replicate-ends_with (n - 1) 0 rest) in
          (omega (arith, parts.1), omega (arith, parts.1, long), rw (sym (parts.1)) at zeros)

-- On 1 to 255 bytes check_ansix923_padding returns, and what it returns is true if and only if the bytes
-- end with ANSI X9.23 padding: zero bytes and then the size of the padding, itself included.
pub check_ansix923_padding_iff :
    (bytes : List ℕ)
    → 1 ≤ length bytes
    → length bytes < 256
    → All IsByte bytes
    → (b : Bool) × (check_ansix923_padding bytes ≡ some b) × ((b ≡ true) ↔ IsAnsix923Padded bytes)
check_ansix923_padding_iff bytes some_bytes fits small = elim (snoc-cases bytes) [
  | inl e ↦ absurd (omega (arith, ap length e))
  | inr (front, size, e) ↦
      let room : length front < 255 = omega (arith, ap length e, length-snoc front size) in
      let byte : All IsByte (front ++ size ∷ []) = rw e at small in
      let check = check-Sized front size room byte in
      let padded = padded_iff front size room byte in
      rw e (check.0, check.1, (λ h. padded.0 (check.2.0 h), λ h. check.2.1 (padded.1 h)))
]
