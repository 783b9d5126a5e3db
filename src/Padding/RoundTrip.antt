-- ===== src/Padding/RoundTrip.antt =====
-- Padding a message that arrives in pieces, and unpadding what comes out of it, cut in other pieces.
use native.Mathlib.Nat.{div_self, div-mul-le_self, mul-add-div_right, div-add-mod', mod-lt}
use cryptography.Prelude.{
  ℕ, ◌+◌, ◌-◌, ◌*◌, ◌/◌, ◌%◌, ◌^◌, ◌≤◌, ◌<◌, ◌≡◌, refl, ◌∙◌, ap, arith, Bool, true, false, List, [],
  ◌∷◌, ◌++◌, length, take, drop, last?, some, Option, ◌==◌, ==_iff, length-append, length-drop,
  take-append-drop, All, ltb, le→ltb, lt→ltb, take-append-eq, take-prefix, drop-prefix, All-right,
}
use cryptography.Result.{Result, ok}
use cryptography.Words.Bytes.{IsByte}
use cryptography.Padding.{
  PaddingError, PaddingContext, unpad_update, pad_update, new_padding, new_unpadding, pad_finalize,
  unpad_finalize, unpad_last, strip,
}
use cryptography.Padding.Streams.{
  flatten, feed, next, run, result_size, holding, feed-unpad_update, update-open,
}

-- The size of the padding of a message of `len` bytes.
abbrev pub pad_size : ℕ → ℕ → ℕ
pad_size bs len = bs - len % bs

seen : ℕ → ℕ → PaddingContext
seen bs v = record { block_size = bs; length_seen = some v }

-- The padding contexts count the bytes, which a `usize` has room for, and pass them on.
feed-pad_update :
    (bs v : ℕ) (pieces : List (List ℕ))
    → v + length (flatten pieces) < 2 ^ 64
    → feed pad_update pieces (seen bs v)
      ≡ (seen bs (v + length (flatten pieces)), ok (flatten pieces))
unfolding feed pad_update seen
feed-pad_update bs v [] small = let same : v + 0 ≡ v = omega arith in rw same refl
feed-pad_update bs v (p ∷ ps) small =
    let room : ltb (v + length p) (2 ^ 64) ≡ true =
      lt→ltb (v + length p) (2 ^ 64) (omega (arith, small, length-append p (flatten ps))) in
    let total : v + length p + length (flatten ps) ≡ v + length (p ++ flatten ps) =
      omega (arith, length-append p (flatten ps)) in
    rw
      (
        room,
        feed-pad_update bs (v + length p) ps (omega (arith, small, length-append p (flatten ps))),
        total,
      )
      refl

-- What both kinds of padding have in common: `suffix n` is the padding of `n` bytes.
module _ (pad : ℕ → ℕ → Result PaddingError (List ℕ)) (check : List ℕ → Option Bool)
    (suffix : ℕ → List ℕ)
    (pads : (bs v : ℕ) → 1 ≤ bs → bs < 256 → pad bs v ≡ ok (suffix (pad_size bs v)))
    (long : (n : ℕ) → 1 ≤ n → length (suffix n) ≡ n)
    (ends : (n : ℕ) (front : List ℕ) → 1 ≤ n → last? (front ++ suffix n) ≡ some n)
    (accepts : (n : ℕ) (front : List ℕ)
      → 1 ≤ n
      → length front + n < 256
      → All IsByte front
      → check (front ++ suffix n) ≡ some true)
    (bs : ℕ) (positive : 1 ≤ bs) (bounded : bs < 256) (bits : ℕ) (blocks : bits / 8 ≡ bs)
    (message : List ℕ) (small : All IsByte message) where
  abbrev pub size : ℕ
  size = pad_size bs (length message)

  abbrev whole : ℕ
  whole = length message / bs * bs

  pub padded_message :
      (pieces : List (List ℕ))
      → flatten pieces ≡ message
      → length message < 2 ^ 64
      → run pad_update (pad_finalize pad) pieces (new_padding bits) ≡ ok (message ++ suffix size)
  unfolding new_padding seen pad_finalize
  padded_message pieces e fits =
      let count : 0 + length (flatten pieces) ≡ length message = omega (arith, ap length e) in
      let fed : feed pad_update pieces (new_padding bits) ≡ (seen bs (length message), ok message) =
        rw blocks
          (feed-pad_update bs 0 pieces (omega (arith, fits, ap length e)) ∙ rw (count, e)) in
      ap (λ r. (next (pad_finalize pad) r).1) fed
      ∙ rw (pads bs (length message) positive bounded) refl

  size-positive : 1 ≤ size
  size-positive = omega (arith, mod-lt (length message) {m = bs} positive)

  rest_size : length (drop whole message) + size ≡ bs
  rest_size = omega (
    arith,
    length-drop whole message,
    mod-lt (length message) {m = bs} positive,
    div-add-mod' (length message) bs,
  )

  rest_small : All IsByte (drop whole message)
  rest_small =
      All-right IsByte (take whole message) (drop whole message)
        (rw (take-append-drop whole message) small)

  block : List ℕ
  block = drop whole message ++ suffix size

  length-block : length block ≡ bs
  unfolding block
  length-block =
      length-append (drop whole message) (suffix size)
      ∙ ap (λ k. length (drop whole message) + k) (long size size-positive)
      ∙ rest_size

  unpad_last-block : unpad_last check bs block ≡ ok (drop whole message)
  unfolding unpad_last strip block
  unpad_last-block =
      let count = length-block in
      let passes =
        accepts size (drop whole message) size-positive (omega (arith, rest_size, bounded))
          rest_small in
      let same : (bs == bs) ≡ true = (==_iff bs bs).1 refl in
      let enough : ltb bs size ≡ false = le→ltb bs size (omega (arith, rest_size)) in
      let front : take (bs - size) block ≡ drop whole message =
        take-append-eq (bs - size) (drop whole message) (suffix size) (omega (arith, rest_size)) in
      rw
        (
          unpad_last,
          count,
          same,
          passes,
          strip,
          ends size (drop whole message) size-positive,
          count,
          enough,
          front,
        )
        refl

  pub unpad_message :
      (pieces : List (List ℕ))
      → flatten pieces ≡ message ++ suffix size
      → run unpad_update (unpad_finalize check) pieces (new_unpadding bits) ≡ ok message
  unfolding new_unpadding unpad_finalize block
  unpad_message pieces e =
      let total : length (message ++ suffix size) ≡ whole + bs = omega (
        arith,
        length-append message (suffix size),
        long size size-positive,
        rest_size,
        length-drop whole message,
        div-mul-le_self (length message) bs,
      ) in
      let leaving : result_size bs (length (message ++ suffix size)) ≡ whole = rw total (
        ap (λ k. (k - 1) * bs)
          (mul-add-div_right positive (length message / bs) bs
            ∙ ap (λ k. length message / bs + k) (div_self {n = bs} positive))
        ∙ ap (λ (k : ℕ). k * bs) (omega arith)) in
      let fits : whole ≤ length message = div-mul-le_self (length message) bs in
      let fed : feed unpad_update pieces (new_unpadding bits)
          ≡ (holding bs positive block, ok (take whole message)) =
        rw blocks (
          feed-unpad_update bs positive pieces [] (omega arith)
          ∙ rw e (
              update-open bs positive [] (message ++ suffix size)
              ∙ rw (
                leaving,
                take-prefix whole message (suffix size) fits,
                drop-prefix whole message (suffix size) fits,
              ))) in
      ap (λ r. (next (unpad_finalize check) r).1) fed
      ∙ rw (unpad_last-block, take-append-drop whole message) refl
