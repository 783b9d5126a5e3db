-- ===== src/Kdf/Legacy.antt =====
-- openssl_kdf of src/pbkdf1.rs against the sequence of digests that it takes the key from.
use mathlib.Core.List.{append_assoc, append-nil}
use cryptography.Prelude.{
  ℕ, zero, suc, ◌+◌, ◌-◌, ◌≤◌, ◌<◌, ◌≡◌, refl, sym, ◌∙◌, ap, arith, min, false, List, [], ◌∷◌, ◌++◌,
  length, take, drop, is_empty, ltb, ltb→lt, ltb→le, le→ltb, Bool-cases, inl, inr, length-append,
  length-take, take-prefix, drop-append-eq, take-append-eq,
}
use cryptography.Result.{ok}
use cryptography.Kdf.{MessageDigest, previous, openssl_kdf_loop, openssl_kdf}

-- The digests D_1 = H(password, salt) and D_(i + 1) = H(D_i, password, salt), one after the other: `n` of
-- them after the digest `prior`.
abbrev pub digests : (List ℕ → List ℕ) → List ℕ → List ℕ → ℕ → List ℕ → List ℕ
digests hash password salt zero prior = []
digests hash password salt (suc n) prior =
    let digest = hash (prior ++ (password ++ salt)) in digest ++ digests hash password salt n digest

take-beyond :
    (n : ℕ) (xs ys : List ℕ) → length xs ≤ n → take n (xs ++ ys) ≡ xs ++ take (n - length xs) ys
take-beyond n [] ys h = let all : n - 0 ≡ n = omega arith in rw all
take-beyond zero (x ∷ xs) ys h = absurd (omega arith)
take-beyond (suc n) (x ∷ xs) ys h =
    let count : suc n - length (x ∷ xs) ≡ n - length xs = omega arith in
    rw count (ap (◌∷◌ x) (take-beyond n xs ys (omega arith)))

module _ (Stack : Type 0) (md : MessageDigest Stack) (hash : List ℕ → List ℕ)
    (succeeds : (m : List ℕ) → md.hash m ≡ ok (hash m))
    (sized : (m : List ℕ) → length (hash m) ≡ md.size) (positive : 1 ≤ md.size)
    (password salt : List ℕ) (len : ℕ) where
  previous-append :
      (key digest : List ℕ)
      → length digest ≡ md.size
      → previous Stack md (key ++ digest) ≡ ok digest
  unfolding previous
  previous-append key digest e =
      let long = length-append key digest in
      let enough : ltb (length (key ++ digest)) (md.size) ≡ false =
        le→ltb (length (key ++ digest)) (md.size) (omega (arith, long, e)) in
      let nonempty : is_empty (key ++ digest) ≡ false =
        not_empty (key ++ digest) (omega (arith, long, e, positive)) in
      let rest : drop (length (key ++ digest) - md.size) (key ++ digest) ≡ digest =
        drop-append-eq (length (key ++ digest) - md.size) key digest (omega (arith, long, e)) in
      rw (previous, nonempty, enough, rest) refl
    where
      not_empty : (xs : List ℕ) → 1 ≤ length xs → is_empty xs ≡ false
      not_empty [] h = absurd (omega arith)
      not_empty (x ∷ xs) h = refl

  loop-full :
      (fuel : ℕ) (key : List ℕ)
      → length key ≡ len
      → openssl_kdf_loop Stack fuel md password salt len key ≡ ok key
  unfolding openssl_kdf_loop
  loop-full zero key e =
      let done = le→ltb (length key) len (omega (arith, e)) in rw (openssl_kdf_loop, done) refl
  loop-full (suc fuel) key e =
      let done = le→ltb (length key) len (omega (arith, e)) in rw (openssl_kdf_loop, done) refl

  -- With enough fuel the loop ends, and the digests that follow complete the key.
  abbrev Loops : ℕ → Type 0
  Loops fuel =
      (key prior : List ℕ)
      → previous Stack md key ≡ ok prior
      → length key ≤ len
      → len ≤ fuel + length key
      → openssl_kdf_loop Stack fuel md password salt len key
        ≡ ok (key ++ take (len - length key) (digests hash password salt fuel prior))

  one_round :
      (fuel : ℕ) (key d : List ℕ)
      → Loops fuel
      → length d ≡ md.size
      → length key < len
      → len ≤ suc fuel + length key
      → openssl_kdf_loop Stack fuel md password salt len
          (key ++ take (min (length d) (len - length key)) d)
        ≡ ok (key ++ take (len - length key) (d ++ digests hash password salt fuel d))
  one_round fuel key d ih e less enough = elim (Bool-cases (ltb (len - length key) (length d))) [
    | inl last ↦
        let part = ltb→lt (len - length key) (length d) last in
        let count : min (length d) (len - length key) ≡ len - length key = omega (arith, part) in
        rw
          (
            count,
            take-prefix (len - length key) d (digests hash password salt fuel d)
                (omega (arith, part)),
          )
          (loop-full fuel (key ++ take (len - length key) d) (
            omega (
              arith,
              length-append key (take (len - length key) d),
              length-take (len - length key) d,
              part,
            )))
    | inr whole ↦
        let fits = ltb→le (len - length key) (length d) whole in
        let count : min (length d) (len - length key) ≡ length d = omega (arith, fits) in
        let all : take (length d) d ≡ d =
          ap (take (length d)) (sym (append-nil d)) ∙ take-append-eq (length d) d [] refl in
        let long = length-append key d in
        let left : len - length key - length d ≡ len - length (key ++ d) = omega (arith, long) in
        rw (count, all)
          (ih (key ++ d) d (previous-append key d e) (omega (arith, long, fits))
              (omega (arith, long, e, positive))
            ∙ ap ok (
                append_assoc key d
                  (take (len - length (key ++ d)) (digests hash password salt fuel d))
                ∙ ap (λ t. key ++ t)
                    (ap (λ k. d ++ take k (digests hash password salt fuel d)) (sym left)
                      ∙ sym (
                          take-beyond (len - length key) d (digests hash password salt fuel d)
                            fits))))
  ]

  loop-digests : (fuel : ℕ) → Loops fuel
  unfolding openssl_kdf_loop
  loop-digests zero key prior before room enough =
      let all : len - length key ≡ 0 = omega arith in
      rw all (loop-full zero key (omega arith) ∙ ap ok (sym (append-nil key)))
  loop-digests (suc fuel) key prior before room enough = elim (Bool-cases (ltb (length key) len)) [
    | inr e ↦
        let all : len - length key ≡ 0 = omega (arith, ltb→le (length key) len e) in
        loop-full (suc fuel) key (omega (arith, ltb→le (length key) len e))
        ∙ ap ok (
            sym (append-nil key)
            ∙ ap (λ k. key ++ take k (digests hash password salt (suc fuel) prior)) (sym all))
    | inl e ↦
        let d = hash (prior ++ (password ++ salt)) in
        let n = len - length key in
        let goes_on : openssl_kdf_loop Stack (suc fuel) md password salt len key
            ≡ openssl_kdf_loop Stack fuel md password salt len (key ++ take (min (length d) n) d) =
          rw (openssl_kdf_loop, e, before, succeeds (prior ++ (password ++ salt))) refl in
        goes_on
        ∙ one_round fuel key d (loop-digests fuel) (sized (prior ++ (password ++ salt)))
            (ltb→lt (length key) len e) enough
  ]

-- For a hash that succeeds with digests of its size, of one byte at least, openssl_kdf succeeds for every
-- length, and the key is the first bytes of the digests D_1 = H(password, salt) and
-- D_(i + 1) = H(D_i, password, salt), one after the other.
pub openssl_kdf-digests :
    (Stack : Type 0) (md : MessageDigest Stack) (hash : List ℕ → List ℕ)
    → ((m : List ℕ) → md.hash m ≡ ok (hash m))
    → ((m : List ℕ) → length (hash m) ≡ md.size)
    → 1 ≤ md.size
    → (password salt : List ℕ) (len : ℕ)
    → openssl_kdf Stack md password salt len ≡ ok (take len (digests hash password salt len []))
unfolding openssl_kdf previous
openssl_kdf-digests Stack md hash succeeds sized positive password salt len =
    loop-digests Stack md hash succeeds sized positive password salt len len [] [] refl
      (omega arith) (omega arith)
    ∙ (let all : len - 0 ≡ len = omega arith in rw all refl)
