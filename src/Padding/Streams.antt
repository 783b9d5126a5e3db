-- ===== src/Padding/Streams.antt =====
-- A context fed with a message in pieces, and what the pieces come to.
use mathlib.Core.List.{append_assoc, append-nil}
use native.Mathlib.Nat.{
  div-mul-le_self, mul-add-div_right, add-mul, lt-div-mul-add, le-div_iff_mul-le, div-lt_iff_lt-mul,
  zero-mul,
}
use mathlib.Core.Path.{ap₂}
use cryptography.Prelude.{
  take-drop-append, drop-drop-append, ℕ, zero, suc, ◌+◌, ◌-◌, ◌*◌, ◌/◌, ◌≤◌, ◌<◌, ◌≡◌, refl, sym,
  ◌∙◌, ap, arith, false, List, [], ◌∷◌, ◌++◌, length, take, drop, some, ◌==◌, ==_iff, Bool-cases,
  inl, inr, length-append, length-drop,
}
use cryptography.Result.{Result, ok, err}
use cryptography.Padding.{PaddingError, UnpaddingContext, unpad_update}

-- All pieces of a message.
abbrev pub flatten : List (List ℕ) → List ℕ
flatten [] = []
flatten (p ∷ ps) = p ++ flatten ps

-- `out` before what a later call gives.
abbrev pub prepend :
    {C : Type 0} → List ℕ → C × Result PaddingError (List ℕ) → C × Result PaddingError (List ℕ)
prepend out (c, ok more) = (c, ok (out ++ more))
prepend out (c, err e) = (c, err e)

-- The caller's loop: each piece goes to `update`, and the results are concatenated up to an error.
abbrev pub next :
    {C : Type 0}
    → (C → C × Result PaddingError (List ℕ))
    → C × Result PaddingError (List ℕ)
    → C × Result PaddingError (List ℕ)
next go (c, ok out) = prepend out (go c)
next go (c, err e) = (c, err e)

unfoldable pub feed :
    {C : Type 0}
    → (C → List ℕ → C × Result PaddingError (List ℕ))
    → List (List ℕ)
    → C
    → C × Result PaddingError (List ℕ)
feed update [] c = (c, ok [])
feed update (p ∷ ps) c = next (feed update ps) (update c p)

-- The number of bytes that leave the buffer.
abbrev pub result_size : ℕ → ℕ → ℕ
result_size bs len = (len / bs - 1) * bs

module _ (bs : ℕ) (positive : 1 ≤ bs) where
  -- An context with `held` in its buffer.
  abbrev pub holding : List ℕ → UnpaddingContext
  holding held = record { block_size = bs; buffer = some held }

  pub update-open :
      (held buf : List ℕ)
      → unpad_update (holding held) buf ≡ (
        holding (drop (result_size bs (length (held ++ buf))) (held ++ buf)),
        ok (take (result_size bs (length (held ++ buf))) (held ++ buf)),
      )
  unfolding unpad_update
  update-open held buf = elim (Bool-cases (bs == 0)) [
    | inl e ↦ absurd (omega (arith, (==_iff bs 0).0 e))
    | inr e ↦ rw (unpad_update, e) refl
  ]

  blocks : ℕ → ℕ
  blocks len = len / bs - 1

  -- What leaves the buffer is not more than what is in it, and leaves less than two blocks.
  pub result_size-le : (len : ℕ) → result_size bs len ≤ len
  result_size-le len = elim (Bool-cases (len / bs == 0)) [
    | inl e ↦ rw ((==_iff _ 0).0 e) (omega arith)
    | inr e ↦ omega (arith, div-mul-le_self len bs, one_less (len / bs) bs)
  ]
    where
      one_less : (q b : ℕ) → (q - 1) * b ≤ q * b
      one_less zero b = omega arith
      one_less (suc q) b =
          let down : suc q - 1 ≡ q = omega arith in rw down (omega (arith, add-mul q 1 b))

  pub rest_lt : (len : ℕ) → len < result_size bs len + 2 * bs
  rest_lt len = omega (arith, lt-div-mul-add {a = len} {b = bs} positive, split (len / bs))
    where
      split : (q : ℕ) → q * bs ≤ (q - 1) * bs + bs
      split zero = omega arith
      split (suc q) =
          let down : suc q - 1 ≡ q = omega arith in rw down (omega (arith, add-mul q 1 bs))

  -- Taking the full blocks of `x` bytes and then those of the rest and `b` more bytes takes the full
  -- blocks of all bytes.
  result_size-add :
      (x b : ℕ)
      → result_size bs x + result_size bs (x - result_size bs x + b) ≡ result_size bs (x + b)
  result_size-add x b =
      let k = x / bs - 1 in
      let y = x - k * bs + b in
      let whole : x + b ≡ k * bs + y = omega (arith, result_size-le x) in
      let quotient : (x + b) / bs ≡ k + y / bs =
        ap (λ (t : ℕ). t / bs) whole ∙ mul-add-div_right positive k y in
      let count : k + (y / bs - 1) ≡ (x + b) / bs - 1 = elim (Bool-cases (x / bs - 1 == 0)) [
        | inl e ↦ omega (arith, quotient, (==_iff _ 0).0 e)
        | inr e ↦
            let full : 1 * bs ≤ y = omega (
              arith,
              div-mul-le_self x bs,
              add-mul k 1 bs,
              ap (λ (t : ℕ). t * bs) (above_one (x / bs) e),
            ) in
            omega (arith, quotient, (le-div_iff_mul-le {k = bs} {x = 1} {y = y} positive).1 full)
      ] in
      sym (add-mul k (y / bs - 1) bs) ∙ ap (λ (t : ℕ). t * bs) count
    where
      above_one : (q : ℕ) → (q - 1 == 0) ≡ false → q ≡ (q - 1) + 1
      above_one q e = ground arith

  -- Two updates are one with both pieces.
  update-update :
      (held a b : List ℕ)
      → next (λ c. unpad_update c b) (unpad_update (holding held) a)
        ≡ unpad_update (holding held) (a ++ b)
  update-update held a b =
      let v = held ++ a in
      let n = result_size bs (length v) in
      let w = drop n v ++ b in
      let m = result_size bs (length w) in
      let fits = result_size-le (length v) in
      let long : length w ≡ length v - n + length b =
        length-append (drop n v) b ∙ ap (λ k. k + length b) (length-drop n v) in
      let sizes : n + m ≡ result_size bs (length (held ++ (a ++ b))) =
        ap (λ k. n + result_size bs k) long
        ∙ result_size-add (length v) (length b)
        ∙ ap (result_size bs) (sym (length-append v b) ∙ ap length (append_assoc held a b)) in
      let size = result_size bs (length (held ++ (a ++ b))) in
      rw (update-open held a) (
        ap (prepend (take n v)) (update-open (drop n v) b)
        ∙ ap₂ (λ held out. (holding held, ok out))
            (drop-drop-append n m v b fits ∙ ap₂ drop sizes (append_assoc held a b))
            (take-drop-append n m v b fits ∙ ap₂ take sizes (append_assoc held a b))
        ∙ sym (update-open held (a ++ b)))

  update-nil :
      (held : List ℕ)
      → length held < 2 * bs
      → unpad_update (holding held) [] ≡ (holding held, ok [])
  update-nil held short =
      let one : length held / bs < 2 = (div-lt_iff_lt-mul {k = bs} positive).1 short in
      let nothing : result_size bs (length held) ≡ 0 =
        ap (λ (t : ℕ). t * bs) (omega arith) ∙ zero-mul bs in
      rw (update-open held [], append-nil held, nothing)

  -- If less than two blocks are in the buffer, feeding a message in pieces is one update with the whole
  -- of it.
  pub feed-unpad_update :
      (pieces : List (List ℕ)) (held : List ℕ)
      → length held < 2 * bs
      → feed unpad_update pieces (holding held) ≡ unpad_update (holding held) (flatten pieces)
  unfolding feed
  feed-unpad_update [] held short = sym (update-nil held short)
  feed-unpad_update (p ∷ ps) held short =
      let v = held ++ p in
      let n = result_size bs (length v) in
      let left : length (drop n v) < 2 * bs = omega (arith, length-drop n v, rest_lt (length v)) in
      rw (update-open held p, feed-unpad_update ps (drop n v) left)
        (sym (ap (next (λ c. unpad_update c (flatten ps))) (update-open held p))
          ∙ update-update held p (flatten ps))

-- A message in pieces and then `finalize`, the results concatenated.
abbrev pub run :
    {C : Type 0}
    → (C → List ℕ → C × Result PaddingError (List ℕ))
    → (C → C × Result PaddingError (List ℕ))
    → List (List ℕ)
    → C
    → Result PaddingError (List ℕ)
run update finalize pieces c = (next finalize (feed update pieces c)).1
