-- ===== src/Names/Dns/Label.antt =====
-- Which strings pass the tests of `DNSName::new` on one label.
use cryptography.Prelude.{
  ℕ, ◌≤◌, ◌≡◌, ◌≢◌, refl, ap, ◌∙◌, ◌↔◌, ◌⊎◌, inl, inr, Bool, true, false, ◌||◌, List, [], ◌∷◌, ◌++◌,
  arith, is_empty, ltb, ◌==◌, ==_iff, if◌then◌else◌, length, all, All, Bool-cases, and-left,
  and-right, and-intro, ltb→le, le→ltb,
}
use cryptography.Str.{Str, is_ascii_alphanumeric, starts_with, ends_with}
use cryptography.Names.Dns.{is_label}

-- A letter, a digit or a hyphen.
abbrev pub IsLabelChar : ℕ → Type 0
IsLabelChar c =
    ((b'a' ≤ c) × (c ≤ b'z')) ⊎ ((b'A' ≤ c) × (c ≤ b'Z')) ⊎ ((b'0' ≤ c) × (c ≤ b'9')) ⊎ (c ≡ b'-')

-- The form of a label of a host name.
pub record IsLabel (label : Str) : Type 0 where
  pub some_byte : 1 ≤ length label
  pub max_length : length label ≤ 63
  pub characters : All IsLabelChar label
  pub no_first_hyphen : (rest : Str) → label ≢ b'-' ∷ rest
  pub no_last_hyphen : (front : Str) → label ≢ front ++ b'-' ∷ []

char_iff : (c : ℕ) → ((is_ascii_alphanumeric c || c == b'-') ≡ true) ↔ IsLabelChar c
unfolding is_ascii_alphanumeric
char_iff c = (λ h. ground (arith, h), λ h. ground (arith, h))

chars_only :
    (l : Str) → all (λ c. is_ascii_alphanumeric c || c == b'-') l ≡ true → All IsLabelChar l
chars_only [] h = tt
chars_only (x ∷ xs) h = ((char_iff x).0 (and-left _ _ h), chars_only xs (and-right _ _ h))

chars_whenever :
    (l : Str) → All IsLabelChar l → all (λ c. is_ascii_alphanumeric c || c == b'-') l ≡ true
chars_whenever [] h = refl
chars_whenever (x ∷ xs) (c, h) = and-intro _ _ ((char_iff x).1 c) (chars_whenever xs h)

starts_only : (c : ℕ) (l : Str) → starts_with c l ≡ false → (rest : Str) → l ≢ c ∷ rest
starts_only c [] h rest e = cc
starts_only c (x ∷ xs) h rest e = let same : x ≡ c = cc in cc (h, (==_iff x c).1 same)

starts_whenever : (c : ℕ) (l : Str) → ((rest : Str) → l ≢ c ∷ rest) → starts_with c l ≡ false
starts_whenever c [] h = refl
starts_whenever c (x ∷ xs) h = elim (Bool-cases (x == c)) [
  | inl e ↦ absurd (h xs (ap (λ y. y ∷ xs) ((==_iff x c).0 e)))
  | inr e ↦ e
]

ends_with-append : (c : ℕ) (front : Str) → ends_with c (front ++ c ∷ []) ≡ true
ends_with-append c [] = (==_iff c c).1 refl
ends_with-append c (x ∷ []) = (==_iff c c).1 refl
ends_with-append c (x ∷ y ∷ front) = ends_with-append c (y ∷ front)

ends_only : (c : ℕ) (l : Str) → ends_with c l ≡ false → (front : Str) → l ≢ front ++ c ∷ []
ends_only c l h front e = cc (h, ap (ends_with c) e ∙ ends_with-append c front)

last_of : (c : ℕ) (l : Str) → ends_with c l ≡ true → (front : Str) × (l ≡ front ++ c ∷ [])
last_of c [] h = cc
last_of c (x ∷ []) h = ([], ap (λ y. y ∷ []) ((==_iff x c).0 h))
last_of c (x ∷ y ∷ ys) h = let (front, e) = last_of c (y ∷ ys) h in (x ∷ front, ap (λ t. x ∷ t) e)

ends_whenever : (c : ℕ) (l : Str) → ((front : Str) → l ≢ front ++ c ∷ []) → ends_with c l ≡ false
ends_whenever c l h = elim (Bool-cases (ends_with c l)) [
  | inl e ↦ let (front, same) = last_of c l e in absurd (h front same)
  | inr e ↦ e
]

four_tests :
    (a b c d e : Bool)
    → (if a || b || c || d then false else e) ≡ true
    → (a ≡ false) × (b ≡ false) × (c ≡ false) × (d ≡ false) × (e ≡ true)
four_tests a b c d e h = ground (arith, h)

some_byte_of : (l : Str) → is_empty l ≡ false → 1 ≤ length l
some_byte_of [] h = cc
some_byte_of (x ∷ xs) h = omega arith

not_empty : (l : Str) → 1 ≤ length l → is_empty l ≡ false
not_empty [] h = absurd (omega (arith, h))
not_empty (x ∷ xs) h = refl

is_label-IsLabel : (l : Str) → is_label l ≡ true → IsLabel l
unfolding is_label
is_label-IsLabel l h =
    let (empty, long, first, last, chars) =
      four_tests (is_empty l) (ltb 63 (length l)) (starts_with b'-' l) (ends_with b'-' l) _ h in
    record {
      some_byte = some_byte_of l empty;
      max_length = ltb→le 63 (length l) long;
      characters = chars_only l chars;
      no_first_hyphen = starts_only b'-' l first;
      no_last_hyphen = ends_only b'-' l last;
    }

IsLabel-is_label : (l : Str) → IsLabel l → is_label l ≡ true
unfolding is_label
IsLabel-is_label l k =
    rw
      (
        not_empty l k.some_byte,
        le→ltb 63 (length l) k.max_length,
        starts_whenever b'-' l k.no_first_hyphen,
        ends_whenever b'-' l k.no_last_hyphen,
        chars_whenever l k.characters,
      )
      refl

pub labels_only : (ls : List Str) → all is_label ls ≡ true → All IsLabel ls
labels_only [] h = tt
labels_only (l ∷ ls) h = (is_label-IsLabel l (and-left _ _ h), labels_only ls (and-right _ _ h))

pub labels_whenever : (ls : List Str) → All IsLabel ls → all is_label ls ≡ true
labels_whenever [] h = refl
labels_whenever (l ∷ ls) (k, h) = and-intro _ _ (IsLabel-is_label l k) (labels_whenever ls h)
