-- ===== src/Str.antt =====
-- The functions of Rust's `str` and `u8` that the program calls. A string is the list of its UTF-8
-- bytes: splitting at an ASCII character, and the ASCII tests, are the same on bytes and on chars,
-- since a byte of a longer character is at least 128.
pub mod Labels
use cryptography.Prelude.{
  ℕ, ◌+◌, Bool, true, false, ◌&&◌, ◌||◌, Option, none, some, List, [], ◌∷◌, map, reverse, leb, ltb,
  ◌==◌, if◌then◌else◌,
}

abbrev pub Str : Type 0
Str = List ℕ

-- u8::is_ascii_alphanumeric
unfoldable pub is_ascii_alphanumeric : ℕ → Bool
is_ascii_alphanumeric c =
    (leb b'0' c && leb c b'9') || (leb b'A' c && leb c b'Z') || (leb b'a' c && leb c b'z')

-- u8::is_ascii
abbrev pub is_ascii : ℕ → Bool
is_ascii c = ltb c 128

-- u8::to_ascii_lowercase
unfoldable pub to_ascii_lowercase : ℕ → ℕ
to_ascii_lowercase c = if leb b'A' c && leb c b'Z' then c + 32 else c

abbrev pub lowercase : Str → Str
lowercase = map to_ascii_lowercase

-- str::eq_ignore_ascii_case
unfoldable pub eq_ignore_ascii_case : Str → Str → Bool
eq_ignore_ascii_case [] [] = true
eq_ignore_ascii_case [] (y ∷ ys) = false
eq_ignore_ascii_case (x ∷ xs) [] = false
eq_ignore_ascii_case (x ∷ xs) (y ∷ ys) =
    to_ascii_lowercase x == to_ascii_lowercase y && eq_ignore_ascii_case xs ys

-- Puts a byte in front of the first piece.
abbrev pub cons_first : ℕ → List Str → List Str
cons_first x [] = (x ∷ []) ∷ []
cons_first x (l ∷ ls) = (x ∷ l) ∷ ls

-- str::split at one ASCII character: at least one piece, empty ones included.
unfoldable pub split : ℕ → Str → List Str
split c [] = [] ∷ []
split c (x ∷ xs) = let rest = split c xs in if x == c then [] ∷ rest else cons_first x rest

-- str::rsplit
abbrev pub rsplit : ℕ → Str → List Str
rsplit c s = reverse (split c s)

abbrev pub prepend : ℕ → Option (Str × Str) → Option (Str × Str)
prepend x none = none
prepend x (some (a, b)) = some (x ∷ a, b)

-- str::split_once at one ASCII character
unfoldable pub split_once : ℕ → Str → Option (Str × Str)
split_once c [] = none
split_once c (x ∷ xs) =
    let rest = split_once c xs in if x == c then some ([], xs) else prepend x rest

-- str::starts_with and str::ends_with of one ASCII character
abbrev pub starts_with : ℕ → Str → Bool
starts_with c [] = false
starts_with c (x ∷ xs) = x == c

abbrev pub ends_with : ℕ → Str → Bool
ends_with c [] = false
ends_with c (x ∷ []) = x == c
ends_with c (x ∷ y ∷ ys) = ends_with c (y ∷ ys)

-- str::strip_prefix of the characters `p`
abbrev pub strip_prefix : Str → Str → Option Str
strip_prefix [] s = some s
strip_prefix (c ∷ p) [] = none
strip_prefix (c ∷ p) (x ∷ xs) = if x == c then strip_prefix p xs else none

-- `iter.zip(other).all(|(a, o)| test(a, o))`: the zip ends with the shorter list.
unfoldable pub zip_all {ℓ} : {A : Type ℓ} → (A → A → Bool) → List A → List A → Bool
zip_all test [] ys = true
zip_all test (x ∷ xs) [] = true
zip_all test (x ∷ xs) (y ∷ ys) = test x y && zip_all test xs ys
