-- ===== src/Padding/Schemes.antt =====
-- Both kinds of padding, from a message in pieces to padded bytes and back, and the states of the
-- contexts.
use mathlib.Core.List.{append_assoc}
use native.Mathlib.Nat.{mod-eq_of_lt}
use cryptography.Prelude.{
  ℕ, zero, suc, ◌+◌, ◌-◌, ◌%◌, ◌≤◌, ◌<◌, ◌≡◌, refl, sym, ◌∙◌, ap, arith, Bool, true, false, List,
  [], ◌∷◌, ◌++◌, length, replicate, last?, some, Option, ◌==◌, ==_iff, Bool-cases, inl, inr,
  length-append, All, All-append, last?-append, last?-replicate, last?-snoc, length-replicate,
}
use cryptography.Result.{Result, ok}
use cryptography.Words.Bytes.{IsByte}
use cryptography.Padding.{
  PaddingError, UnpaddingContext, PaddingContext, pkcs7_pad, ansix923_pad, pkcs7_pad_finalize,
  ansix923_pad_finalize, pkcs7_unpad_finalize, ansix923_unpad_finalize, check_pkcs7_padding,
  check_ansix923_padding,
}
use cryptography.Padding.RoundTrip.{pad_size}
use cryptography.Padding.Pkcs7.{check_pkcs7_padding_iff, IsPkcs7Padded}
use cryptography.Padding.Ansix923.{check_ansix923_padding_iff, IsAnsix923Padded}

-- The kind of padding, that is, of the contexts.
pub data Scheme : Type 0 where
  pkcs7 : Scheme
  ansix923 : Scheme

abbrev pub finalize_padding :
    Scheme → PaddingContext → PaddingContext × Result PaddingError (List ℕ)
finalize_padding pkcs7 = pkcs7_pad_finalize
finalize_padding ansix923 = ansix923_pad_finalize

abbrev pub finalize_unpadding :
    Scheme → UnpaddingContext → UnpaddingContext × Result PaddingError (List ℕ)
finalize_unpadding pkcs7 = pkcs7_unpad_finalize
finalize_unpadding ansix923 = ansix923_unpad_finalize

-- The padding of `n` bytes.
abbrev pub padding : Scheme → ℕ → List ℕ
padding pkcs7 n = replicate n n
padding ansix923 n = replicate (n - 1) 0 ++ n ∷ []

abbrev pub pad_of : Scheme → ℕ → ℕ → Result PaddingError (List ℕ)
pad_of pkcs7 = pkcs7_pad
pad_of ansix923 = ansix923_pad

abbrev pub check_of : Scheme → List ℕ → Option Bool
check_of pkcs7 = check_pkcs7_padding
check_of ansix923 = check_ansix923_padding

pub pads :
    (s : Scheme) (bs v : ℕ) → 1 ≤ bs → bs < 256 → pad_of s bs v ≡ ok (padding s (pad_size bs v))
unfolding pkcs7_pad ansix923_pad
pads s bs v positive bounded = elim (Bool-cases (bs == 0)) [
  | inl e ↦ absurd (omega (arith, (==_iff bs 0).0 e))
  | inr e ↦
      let byte : pad_size bs v % 256 ≡ pad_size bs v =
        mod-eq_of_lt {n = pad_size bs v} {m = 256} (omega arith) in
      for_scheme s e byte
]
  where
    for_scheme :
        (s : Scheme)
        → (bs == 0) ≡ false
        → pad_size bs v % 256 ≡ pad_size bs v
        → pad_of s bs v ≡ ok (padding s (pad_size bs v))
    for_scheme pkcs7 e byte = rw (pkcs7_pad, e, byte) refl
    for_scheme ansix923 e byte = rw (ansix923_pad, e, byte) refl

pub long : (s : Scheme) (n : ℕ) → 1 ≤ n → length (padding s n) ≡ n
long pkcs7 n h = length-replicate n n
long ansix923 n h =
    omega (arith, length-append (replicate (n - 1) 0) (n ∷ []), length-replicate {A = ℕ} (n - 1) 0)

pub ends : (s : Scheme) (n : ℕ) (front : List ℕ) → 1 ≤ n → last? (front ++ padding s n) ≡ some n
ends s zero front h = absurd (omega arith)
ends pkcs7 (suc n) front h =
    last?-append front (suc n) (replicate n (suc n)) ∙ last?-replicate n (suc n)
ends ansix923 (suc n) front h =
    ap last? (sym (append_assoc front (replicate (suc n - 1) 0) (suc n ∷ [])))
    ∙ last?-snoc (front ++ replicate (suc n - 1) 0) (suc n)

All-replicate-IsByte : (n x : ℕ) → x < 256 → All IsByte (replicate n x)
All-replicate-IsByte zero x h = tt
All-replicate-IsByte (suc n) x h = (h, All-replicate-IsByte n x h)

padding-IsByte : (s : Scheme) (n : ℕ) → n < 256 → All IsByte (padding s n)
padding-IsByte pkcs7 n h = All-replicate-IsByte n n h
padding-IsByte ansix923 n h =
    All-append IsByte (replicate (n - 1) 0) (n ∷ []) (All-replicate-IsByte (n - 1) 0 (omega arith))
      (h, tt)

pub accepts :
    (s : Scheme) (n : ℕ) (front : List ℕ)
    → 1 ≤ n
    → length front + n < 256
    → All IsByte front
    → check_of s (front ++ padding s n) ≡ some true
unfolding IsPkcs7Padded IsAnsix923Padded
accepts s n front positive fits small =
    let size : length (front ++ padding s n) ≡ length front + n =
      omega (arith, length-append front (padding s n), long s n positive) in
    for_scheme s (omega arith) (omega arith)
      (All-append IsByte front (padding s n) small (padding-IsByte s n (omega arith)))
  where
    for_scheme :
        (s : Scheme)
        → 1 ≤ length (front ++ padding s n)
        → length (front ++ padding s n) < 256
        → All IsByte (front ++ padding s n)
        → check_of s (front ++ padding s n) ≡ some true
    for_scheme pkcs7 some_bytes room byte =
        let check = check_pkcs7_padding_iff (front ++ replicate n n) some_bytes room byte in
        check.1 ∙ ap some (check.2.1 (n, front, positive, refl))
    for_scheme ansix923 some_bytes room byte =
        let check =
          check_ansix923_padding_iff (front ++ (replicate (n - 1) 0 ++ n ∷ [])) some_bytes room
            byte in
        check.1 ∙ ap some (check.2.1 (n, front, positive, refl))
