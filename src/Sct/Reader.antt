-- ===== src/Sct/Reader.antt =====
-- The reader of src/x509/sct.rs: what each read takes from the front of the bytes.
use mathlib.Core.List.{append_assoc}
use mathlib.Core.Path.{Path}
use cryptography.Prelude.{
  ℕ, suc, ◌≡◌, refl, sym, ◌∙◌, ap, arith, false, List, [], ◌∷◌, ◌++◌, length, take, drop, ltb,
  ltb→le, le→ltb, Bool-cases, inl, inr, take-append-eq, drop-append-eq, take-append-drop,
  length-take, length-append,
}
use cryptography.Result.{Result, ok, err, >>=-eq-ok}
use cryptography.Words.{from_be_bytes}
use cryptography.Sct
use cryptography.Sct.{SctError, read_exact, read_byte, read_length_prefixed, index_zero}

-- `xs` behind its length in two bytes.
abbrev pub Prefixed : List ℕ → List ℕ → Type 0
Prefixed xs bytes =
    (len : List ℕ) × (length len ≡ 2) × (from_be_bytes len ≡ length xs) × (bytes ≡ len ++ xs)

pub read_exact_sound :
    (n : ℕ) (bytes : List ℕ) {r : List ℕ × List ℕ}
    → read_exact n bytes ≡ ok r
    → (length (r.0) ≡ n) × (bytes ≡ r.0 ++ r.1)
unfolding read_exact
read_exact_sound n bytes {r} h = elim (Bool-cases (ltb (length bytes) n)) [
  | inl e ↦ absurd (
      let h' : Path (Result SctError (List ℕ × List ℕ)) (err Sct.invalid_length) (ok r) =
        rw e at h in
      (cc))
  | inr e ↦
      let h' : Path (Result SctError (List ℕ × List ℕ)) (ok (take n bytes, drop n bytes)) (ok r) =
        rw e at h in
      let parts : (take n bytes, drop n bytes) ≡ r = cc in
      let count : length (take n bytes) ≡ n =
        omega (arith, length-take n bytes, ltb→le (length bytes) n e) in
      (
        ap (λ p. length (p.0)) (sym parts) ∙ count,
        sym (take-append-drop n bytes) ∙ ap (λ p. p.0 ++ p.1) parts,
      )
]

pub read_exact-append :
    (n : ℕ) (xs ys : List ℕ) → length xs ≡ n → read_exact n (xs ++ ys) ≡ ok (xs, ys)
unfolding read_exact
read_exact-append n xs ys e =
    let enough : ltb (length (xs ++ ys)) n ≡ false =
      le→ltb (length (xs ++ ys)) n (omega (arith, length-append xs ys, e)) in
    rw (enough, take-append-eq n xs ys e, drop-append-eq n xs ys e)

pub read_byte-cons : (b : ℕ) (bs : List ℕ) → read_byte (b ∷ bs) ≡ ok (b, bs)
unfolding read_byte read_exact index_zero
read_byte-cons b bs =
    let enough : ltb (suc (length bs)) 1 ≡ false = le→ltb (suc (length bs)) 1 (omega arith) in
    rw enough

pub read_byte_sound : (bytes : List ℕ) {r : ℕ × List ℕ} → read_byte bytes ≡ ok r → bytes ≡ r.0 ∷ r.1
unfolding read_byte read_exact index_zero
read_byte_sound [] h = absurd (cc)
read_byte_sound (b ∷ bs) {r} h =
    let both : Path (Result SctError (ℕ × List ℕ)) (ok (b, bs)) (ok r) =
      sym (read_byte-cons b bs) ∙ h in
    let parts : (b, bs) ≡ r = cc in ap (λ p. p.0 ∷ p.1) parts

pub read_length_prefixed_sound :
    (bytes : List ℕ) {r : List ℕ × List ℕ}
    → read_length_prefixed bytes ≡ ok r
    → (used : List ℕ) × Prefixed (r.0) used × (bytes ≡ used ++ r.1)
unfolding read_length_prefixed
read_length_prefixed_sound bytes {r} h =
    let steps = >>=-eq-ok (read_exact 2 bytes) _ h in
    let len = read_exact_sound 2 bytes (steps.1) in
    let content = read_exact_sound (from_be_bytes (steps.0.0)) (steps.0.1) (steps.2) in
    (
      steps.0.0 ++ r.0,
      (steps.0.0, len.0, sym (content.0), refl),
      len.1 ∙ ap (λ t. steps.0.0 ++ t) (content.1) ∙ sym (append_assoc (steps.0.0) (r.0) (r.1)),
    )

pub read_length_prefixed-append :
    (xs used ys : List ℕ) → Prefixed xs used → read_length_prefixed (used ++ ys) ≡ ok (xs, ys)
unfolding read_length_prefixed
read_length_prefixed-append xs used ys (len, two, size, e) =
    rw (e, append_assoc len xs ys, read_exact-append 2 len (xs ++ ys) two)
      (read_exact-append (from_be_bytes len) xs ys (sym size))
