-- ===== src/Prelude/Ends.antt =====
-- Both ends of a list: its last element, its reverse, and the parts that `take` and `drop` give of an
-- append.
use mathlib.Core.List.{reverse-append, reverse-reverse, tail-eq_of_cons-eq, head-eq_of_cons-eq}
use Prim.Native.Nat.{ℕ, zero, suc, ◌+◌, ◌≤◌}
use mathlib.Core.Path.{subst, ◌≡◌, refl, sym, ap, ◌∙◌}
use mathlib.Core.Logic.{◌⊎◌, inl, inr}
use mathlib.Core.List.{List, [], ◌∷◌, ◌++◌, reverse}
use mathlib.Core.Option.{some, some-injective}
use native.Mathlib.Omega.{arith}
use cryptography.Prelude.Lists.{
  length, take, drop, replicate, last?, All, length-append, take-append-drop, length-replicate,
  length-take,
}

module _ {ℓ} {A : Type ℓ} where
  pub snoc-cases : (xs : List A) → (xs ≡ []) ⊎ ((front : List A) × (x : A) × (xs ≡ front ++ x ∷ []))
  snoc-cases [] = inl refl
  snoc-cases (x ∷ xs) = elim (snoc-cases xs) [
    | inl e ↦ inr ([], x, ap (◌∷◌ x) e)
    | inr (front, y, e) ↦ inr (x ∷ front, y, ap (◌∷◌ x) e)
  ]

  pub last?-snoc : (front : List A) (x : A) → last? (front ++ x ∷ []) ≡ some x
  last?-snoc [] x = refl
  last?-snoc (y ∷ []) x = refl
  last?-snoc (y ∷ z ∷ zs) x = last?-snoc (z ∷ zs) x

  pub reverse-snoc : (front : List A) (x : A) → reverse (front ++ x ∷ []) ≡ x ∷ reverse front
  reverse-snoc front x = reverse-append front (x ∷ [])

  pub reverse-cons : (x : A) (xs : List A) → reverse (x ∷ xs) ≡ reverse xs ++ x ∷ []
  reverse-cons x xs = reverse-append (x ∷ []) xs

  pub snoc-injective :
      (xs ys : List A) (x y : A) → xs ++ x ∷ [] ≡ ys ++ y ∷ [] → (xs ≡ ys) × (x ≡ y)
  snoc-injective xs ys x y e =
      let flipped : x ∷ reverse xs ≡ y ∷ reverse ys =
        sym (reverse-snoc xs x) ∙ ap reverse e ∙ reverse-snoc ys y in
      (
        sym (reverse-reverse xs) ∙ ap reverse (tail-eq_of_cons-eq flipped) ∙ reverse-reverse ys,
        head-eq_of_cons-eq flipped,
      )

  pub length-reverse : (xs : List A) → length (reverse xs) ≡ length xs
  length-reverse [] = refl
  length-reverse (x ∷ xs) =
      ap length (reverse-cons x xs)
      ∙ length-append (reverse xs) (x ∷ [])
      ∙ omega (arith, length-reverse xs)

  pub take-append : (xs ys : List A) → take (length xs) (xs ++ ys) ≡ xs
  take-append [] ys = refl
  take-append (x ∷ xs) ys = ap (◌∷◌ x) (take-append xs ys)

  pub drop-append : (xs ys : List A) → drop (length xs) (xs ++ ys) ≡ ys
  drop-append [] ys = refl
  drop-append (x ∷ xs) ys = drop-append xs ys

  -- The same with the length named.
  pub take-append-eq : (n : ℕ) (xs ys : List A) → length xs ≡ n → take n (xs ++ ys) ≡ xs
  take-append-eq n xs ys e = ap (λ k. take k (xs ++ ys)) (sym e) ∙ take-append xs ys

  pub drop-append-eq : (n : ℕ) (xs ys : List A) → length xs ≡ n → drop n (xs ++ ys) ≡ ys
  drop-append-eq n xs ys e = ap (λ k. drop k (xs ++ ys)) (sym e) ∙ drop-append xs ys

  pub replicate-snoc : (n : ℕ) (x : A) → replicate n x ++ x ∷ [] ≡ replicate (suc n) x
  replicate-snoc zero x = refl
  replicate-snoc (suc n) x = ap (◌∷◌ x) (replicate-snoc n x)

  pub reverse-replicate : (n : ℕ) (x : A) → reverse (replicate n x) ≡ replicate n x
  reverse-replicate zero x = refl
  reverse-replicate (suc n) x =
      reverse-cons x (replicate n x)
      ∙ ap (λ xs. xs ++ x ∷ []) (reverse-replicate n x)
      ∙ replicate-snoc n x

  pub All-replicate : (n : ℕ) (x : A) → All (λ y. y ≡ x) (replicate n x)
  All-replicate zero x = tt
  All-replicate (suc n) x = (refl, All-replicate n x)

  pub eq-replicate : (x : A) (xs : List A) → All (λ y. y ≡ x) xs → xs ≡ replicate (length xs) x
  eq-replicate x [] h = refl
  eq-replicate x (y ∷ ys) (e, h) = rw e (ap (◌∷◌ x) (eq-replicate x ys h))

  module _ {κ} (P : A → Type κ) where
    pub All-append : (xs ys : List A) → All P xs → All P ys → All P (xs ++ ys)
    All-append [] ys h k = k
    All-append (x ∷ xs) ys (p, h) k = (p, All-append xs ys h k)

    pub All-left : (xs ys : List A) → All P (xs ++ ys) → All P xs
    All-left [] ys h = tt
    All-left (x ∷ xs) ys (p, h) = (p, All-left xs ys h)

    pub All-right : (xs ys : List A) → All P (xs ++ ys) → All P ys
    All-right [] ys h = h
    All-right (x ∷ xs) ys (p, h) = All-right xs ys h

    pub All-reverse : (xs : List A) → All P xs → All P (reverse xs)
    All-reverse [] h = tt
    All-reverse (x ∷ xs) (p, h) =
        rw (reverse-cons x xs) (All-append (reverse xs) (x ∷ []) (All-reverse xs h) (p, tt))

  -- A list whose reverse starts with `n` times the same element ends with them.
  pub ends_with_replicate :
      (n : ℕ) (x : A) (xs : List A)
      → n ≤ length xs
      → All (λ y. y ≡ x) (take n (reverse xs))
      → xs ≡ reverse (drop n (reverse xs)) ++ replicate n x
  ends_with_replicate n x xs fits h =
      let r = reverse xs in
      let size : length (take n r) ≡ n = omega (arith, length-take n r, length-reverse xs) in
      let same : take n r ≡ replicate n x =
        eq-replicate x (take n r) h ∙ ap (λ k. replicate k x) size in
      sym (reverse-reverse xs)
      ∙ ap reverse (sym (take-append-drop n r))
      ∙ reverse-append (take n r) (drop n r)
      ∙ ap (λ t. reverse (drop n r) ++ reverse t) same
      ∙ ap (λ t. reverse (drop n r) ++ t) (reverse-replicate n x)

  -- The last element, seen from the other end.
  pub last?-append : (xs : List A) (y : A) (ys : List A) → last? (xs ++ y ∷ ys) ≡ last? (y ∷ ys)
  last?-append [] y ys = refl
  last?-append (x ∷ []) y ys = refl
  last?-append (x ∷ z ∷ zs) y ys = last?-append (z ∷ zs) y ys

  pub last?-replicate : (n : ℕ) (x : A) → last? (replicate (suc n) x) ≡ some x
  last?-replicate zero x = refl
  last?-replicate (suc n) x = last?-replicate n x

  pub replicate-ends_with :
      (n : ℕ) (x : A) (front : List A)
      → All (λ y. y ≡ x) (take n (reverse (front ++ replicate n x)))
  replicate-ends_with n x front =
      rw
        (
          reverse-append front (replicate n x),
          reverse-replicate n x,
          take-append-eq n (replicate n x) (reverse front) (length-replicate n x),
        )
        (All-replicate n x)

  -- Two parts taken one after the other, more elements having come between.
  pub take-drop-append :
      (n m : ℕ) (xs ys : List A)
      → n ≤ length xs
      → take n xs ++ take m (drop n xs ++ ys) ≡ take (n + m) (xs ++ ys)
  take-drop-append zero m xs ys h = let none_yet : 0 + m ≡ m = omega arith in rw none_yet refl
  take-drop-append (suc n) m [] ys h = absurd (omega arith)
  take-drop-append (suc n) m (x ∷ xs) ys h =
      let count : suc n + m ≡ suc (n + m) = omega arith in
      rw count (ap (◌∷◌ x) (take-drop-append n m xs ys (omega arith)))

  pub drop-drop-append :
      (n m : ℕ) (xs ys : List A)
      → n ≤ length xs
      → drop m (drop n xs ++ ys) ≡ drop (n + m) (xs ++ ys)
  drop-drop-append zero m xs ys h = let none_yet : 0 + m ≡ m = omega arith in rw none_yet refl
  drop-drop-append (suc n) m [] ys h = absurd (omega arith)
  drop-drop-append (suc n) m (x ∷ xs) ys h =
      let count : suc n + m ≡ suc (n + m) = omega arith in
      rw count (drop-drop-append n m xs ys (omega arith))

  -- The parts of an append that lie within its first list.
  pub take-prefix : (n : ℕ) (xs ys : List A) → n ≤ length xs → take n (xs ++ ys) ≡ take n xs
  take-prefix zero xs ys h = refl
  take-prefix (suc n) [] ys h = absurd (omega arith)
  take-prefix (suc n) (x ∷ xs) ys h = ap (◌∷◌ x) (take-prefix n xs ys (omega arith))

  pub drop-prefix : (n : ℕ) (xs ys : List A) → n ≤ length xs → drop n (xs ++ ys) ≡ drop n xs ++ ys
  drop-prefix zero xs ys h = refl
  drop-prefix (suc n) [] ys h = absurd (omega arith)
  drop-prefix (suc n) (x ∷ xs) ys h = drop-prefix n xs ys (omega arith)

pub last?-All {ℓ κ} :
    {A : Type ℓ} (P : A → Type κ) (xs : List A) {x : A} → All P xs → last? xs ≡ some x → P x
last?-All P (y ∷ []) {x} h e = subst P (some-injective y x e) (h.0)
last?-All P (y ∷ z ∷ zs) h e = last?-All P (z ∷ zs) (h.1) e
last?-All P [] h e = absurd (cc)
