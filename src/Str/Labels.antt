-- ===== src/Str/Labels.antt =====
-- What splitting keeps: the lengths, the case folding, and what `split_once` cuts off.
use mathlib.Core.Path.{ap₂}
use mathlib.Core.List.{reverse-append, head-eq_of_cons-eq, tail-eq_of_cons-eq}
use mathlib.Core.Option.{some-injective}
use cryptography.Prelude.{
  ℕ, suc, ◌+◌, ◌≡◌, refl, sym, ap, ◌∙◌, ◌≢◌, ◌↔◌, ◌⊎◌, inl, inr, true, none, some, List, [], ◌∷◌,
  ◌++◌, map, reverse, arith, ◌==◌, ==_iff, length, Bool-cases, Option-cases, and-left, and-right,
  and-intro,
}
use cryptography.Str.{
  Str, to_ascii_lowercase, lowercase, eq_ignore_ascii_case, split, cons_first, split_once, zip_all,
}

-- The length of the string that the pieces were cut from, plus one.
abbrev pub weight : List Str → ℕ
weight [] = 0
weight (l ∷ ls) = suc (length l) + weight ls

weight-cons_first : (x : ℕ) (ls : List Str) → ls ≢ [] → weight (cons_first x ls) ≡ suc (weight ls)
weight-cons_first x [] h = absurd (h refl)
weight-cons_first x (l ∷ ls) h = omega arith

pub split-ne-nil : (c : ℕ) (s : Str) → split c s ≢ []
unfolding split
split-ne-nil c [] h = cc
split-ne-nil c (x ∷ xs) h = elim (Bool-cases (x == c)) [
  | inl e ↦ cc (rw e at h)
  | inr e ↦ go (split c xs) (rw e at h)
]
  where
    go : (ls : List Str) → cons_first x ls ≡ [] → ⊥
    go [] p = cc
    go (l ∷ ls) p = cc

pub weight-split : (c : ℕ) (s : Str) → weight (split c s) ≡ suc (length s)
unfolding split
weight-split c [] = refl
weight-split c (x ∷ xs) = elim (Bool-cases (x == c)) [
  | inl e ↦ rw e (omega (arith, weight-split c xs))
  | inr e ↦
      rw e (omega (arith, weight-cons_first x (split c xs) (split-ne-nil c xs), weight-split c xs))
]

weight-append : (ls ms : List Str) → weight (ls ++ ms) ≡ weight ls + weight ms
weight-append [] ms = omega arith
weight-append (l ∷ ls) ms = omega (arith, weight-append ls ms)

pub weight-reverse : (ls : List Str) → weight (reverse ls) ≡ weight ls
weight-reverse [] = refl
weight-reverse (l ∷ ls) =
    ap weight (reverse-append (l ∷ []) ls)
    ∙ omega (arith, weight-append (reverse ls) (l ∷ []), weight-reverse ls)

length-lowercase : (s : Str) → length (lowercase s) ≡ length s
length-lowercase [] = refl
length-lowercase (x ∷ xs) = ap suc (length-lowercase xs)

pub weight-map-lowercase : (ls : List Str) → weight (map lowercase ls) ≡ weight ls
weight-map-lowercase [] = refl
weight-map-lowercase (l ∷ ls) = omega (arith, weight-map-lowercase ls, length-lowercase l)

-- Two strings are equal up to ASCII case if and only if they fold to the same string.
pub eq_ignore_ascii_case_iff :
    (a b : Str) → (eq_ignore_ascii_case a b ≡ true) ↔ (lowercase a ≡ lowercase b)
unfolding eq_ignore_ascii_case
eq_ignore_ascii_case_iff [] [] = (λ _. refl, λ _. refl)
eq_ignore_ascii_case_iff [] (y ∷ ys) = (λ h. cc, λ h. cc)
eq_ignore_ascii_case_iff (x ∷ xs) [] = (λ h. cc, λ h. cc)
eq_ignore_ascii_case_iff (x ∷ xs) (y ∷ ys) =
    let ih = eq_ignore_ascii_case_iff xs ys in
    let heads = ==_iff (to_ascii_lowercase x) (to_ascii_lowercase y) in
    (λ h. ground (arith, ih, heads), λ h. ground (arith, ih, heads))

-- A full zip succeeds if and only if one list of pieces continues the other.
pub zip_all-prefix :
    (ls ms : List Str)
    → zip_all eq_ignore_ascii_case ls ms ≡ true
    → ((ps : List Str) × (map lowercase ms ≡ map lowercase ls ++ ps))
      ⊎ ((q : Str) × (qs : List Str) × (map lowercase ls ≡ map lowercase ms ++ q ∷ qs))
unfolding zip_all
zip_all-prefix [] ms h = inl (map lowercase ms, refl)
zip_all-prefix (l ∷ ls) [] h = inr (lowercase l, map lowercase ls, refl)
zip_all-prefix (l ∷ ls) (m ∷ ms) h =
    let e : lowercase l ≡ lowercase m = (eq_ignore_ascii_case_iff l m).0 (and-left _ _ h) in
    elim (zip_all-prefix ls ms (and-right _ _ h)) [
      | inl r ↦ inl (r.0, ap₂ ◌∷◌ (sym e) r.1)
      | inr r ↦ inr (r.0, r.1, ap₂ ◌∷◌ e r.2)
    ]

pub prefix-zip_all :
    (ls ms ps : List Str)
    → map lowercase ms ≡ map lowercase ls ++ ps
    → zip_all eq_ignore_ascii_case ls ms ≡ true
unfolding zip_all
prefix-zip_all [] ms ps h = refl
prefix-zip_all (l ∷ ls) [] ps h = cc
prefix-zip_all (l ∷ ls) (m ∷ ms) ps h =
    and-intro _ _ ((eq_ignore_ascii_case_iff l m).1 (sym (head-eq_of_cons-eq h)))
      (prefix-zip_all ls ms ps (tail-eq_of_cons-eq h))

pub zip_all-prefix_right :
    (ls ms ps : List Str)
    → map lowercase ls ≡ map lowercase ms ++ ps
    → zip_all eq_ignore_ascii_case ls ms ≡ true
unfolding zip_all
zip_all-prefix_right [] ms ps h = refl
zip_all-prefix_right (l ∷ ls) [] ps h = refl
zip_all-prefix_right (l ∷ ls) (m ∷ ms) ps h =
    and-intro _ _ ((eq_ignore_ascii_case_iff l m).1 (head-eq_of_cons-eq h))
      (zip_all-prefix_right ls ms ps (tail-eq_of_cons-eq h))

-- The string is the first piece, the character, and the rest.
pub split_once-append : (c : ℕ) (s a b : Str) → split_once c s ≡ some (a, b) → s ≡ a ++ (c ∷ b)
unfolding split_once
split_once-append c [] a b h = cc
split_once-append c (x ∷ xs) a b h = elim (Bool-cases (x == c)) [
  | inl e ↦
      ap₂ ◌∷◌ ((==_iff x c).0 e) refl
      ∙ ap (λ (t : Str × Str). t.0 ++ (c ∷ t.1)) (some-injective _ _ (rw e at h))
  | inr e ↦ elim (Option-cases (split_once c xs)) [
    | inl n ↦ cc (rw (e, n) at h)
    | inr r ↦
        ap (λ t. x ∷ t) (split_once-append c xs r.0.0 r.0.1 r.1)
        ∙ ap (λ (t : Str × Str). t.0 ++ (c ∷ t.1)) (some-injective _ _ (rw (e, r.1) at h))
  ]
]

-- `split_once` cuts the first piece off.
pub split-split_once :
    (c : ℕ) (s a b : Str) → split_once c s ≡ some (a, b) → split c s ≡ a ∷ split c b
unfolding split split_once
split-split_once c [] a b h = cc
split-split_once c (x ∷ xs) a b h = elim (Bool-cases (x == c)) [
  | inl e ↦ rw e (ap (λ (t : Str × Str). t.0 ∷ split c t.1) (some-injective _ _ (rw e at h)))
  | inr e ↦ elim (Option-cases (split_once c xs)) [
    | inl n ↦ cc (rw (e, n) at h)
    | inr r ↦
        let p : some (x ∷ r.0.0, r.0.1) ≡ some (a, b) = rw (e, r.1) at h in
        rw e (
          ap (cons_first x) (split-split_once c xs r.0.0 r.0.1 r.1)
          ∙ ap (λ (t : Str × Str). t.0 ∷ split c t.1) (some-injective _ _ p))
  ]
]

-- Where the character does not occur, there is one piece.
pub split-split_once-none : (c : ℕ) (s : Str) → split_once c s ≡ none → split c s ≡ s ∷ []
unfolding split split_once
split-split_once-none c [] h = refl
split-split_once-none c (x ∷ xs) h = elim (Option-cases (split_once c xs)) [
  | inl n ↦ ground (arith, n, split-split_once-none c xs)
  | inr r ↦ ground (arith, r.1)
]

map-cons_first :
    (x : ℕ) (ls : List Str)
    → map lowercase (cons_first x ls) ≡ cons_first (to_ascii_lowercase x) (map lowercase ls)
map-cons_first x [] = refl
map-cons_first x (l ∷ ls) = refl

-- Folding the case does not move the dots.
lowercase_dot : (x : ℕ) → (to_ascii_lowercase x == b'.') ≡ (x == b'.')
unfolding to_ascii_lowercase
lowercase_dot x = ground arith

pub split-lowercase : (s : Str) → split b'.' (lowercase s) ≡ map lowercase (split b'.' s)
unfolding split
split-lowercase [] = refl
split-lowercase (x ∷ xs) = elim (Bool-cases (x == b'.')) [
  | inl e ↦ rw (lowercase_dot x, e, split-lowercase xs) refl
  | inr e ↦ rw (lowercase_dot x, e, split-lowercase xs) (sym (map-cons_first x (split b'.' xs)))
]

-- The pieces determine the string.
abbrev join : ℕ → List Str → Str
join c [] = []
join c (l ∷ []) = l
join c (l ∷ m ∷ ms) = l ++ (c ∷ join c (m ∷ ms))

join-cons_first : (c x : ℕ) (ls : List Str) → join c (cons_first x ls) ≡ x ∷ join c ls
join-cons_first c x [] = refl
join-cons_first c x (l ∷ []) = refl
join-cons_first c x (l ∷ m ∷ ms) = refl

join-cons_nil : (c : ℕ) (ls : List Str) → ls ≢ [] → join c ([] ∷ ls) ≡ c ∷ join c ls
join-cons_nil c [] h = absurd (h refl)
join-cons_nil c (l ∷ ls) h = refl

join-split : (c : ℕ) (s : Str) → join c (split c s) ≡ s
unfolding split
join-split c [] = refl
join-split c (x ∷ xs) = elim (Bool-cases (x == c)) [
  | inl e ↦ rw e (
      join-cons_nil c (split c xs) (split-ne-nil c xs)
      ∙ ap₂ ◌∷◌ (sym ((==_iff x c).0 e)) (join-split c xs))
  | inr e ↦ rw e (join-cons_first c x (split c xs) ∙ ap (λ t. x ∷ t) (join-split c xs))
]

pub split-injective : (c : ℕ) (s t : Str) → split c s ≡ split c t → s ≡ t
split-injective c s t h = sym (join-split c s) ∙ ap (join c) h ∙ join-split c t
