-- ===== src/Padding/Contexts.antt =====
-- The contexts of src/padding.rs as a whole: what a padded message is, the way back, the buffer of an
-- unpadding context, and a context that is used up.
use native.Mathlib.Nat.{mul-mod_left}
use mathlib.Core.Path.{Path}
use cryptography.Prelude.{
  ℕ, ◌-◌, ◌*◌, ◌/◌, ◌%◌, ◌^◌, ◌≤◌, ◌<◌, ◌≡◌, refl, sym, ◌∙◌, ap, arith, List, ◌++◌, length, take,
  drop, some, none, Option-cases, inl, inr, length-drop, length-take, take-append-drop, All,
}
use cryptography.Result.{Result, ok, err}
use cryptography.Words.Bytes.{IsByte}
use cryptography.Padding.{
  PaddingError, already_finalized, UnpaddingContext, PaddingContext, unpad_update, pad_update,
  new_padding, new_unpadding, pad_finalize, unpad_finalize, pkcs7_pad_finalize,
  ansix923_pad_finalize, pkcs7_unpad_finalize, ansix923_unpad_finalize,
}
use cryptography.Padding.Streams.{
  flatten, feed, run, result_size, result_size-le, rest_lt, update-open, feed-unpad_update,
}
use cryptography.Padding.RoundTrip.{padded_message, unpad_message}
use cryptography.Padding.Schemes.{
  Scheme, pkcs7, ansix923, finalize_padding, finalize_unpadding, padding, pad_of, check_of, pads,
  long, ends, accepts,
}

finalize_padding-shared : (s : Scheme) → finalize_padding s ≡ pad_finalize (pad_of s)
unfolding pkcs7_pad_finalize ansix923_pad_finalize
finalize_padding-shared pkcs7 = refl
finalize_padding-shared ansix923 = refl

finalize_unpadding-shared : (s : Scheme) → finalize_unpadding s ≡ unpad_finalize (check_of s)
unfolding pkcs7_unpad_finalize ansix923_unpad_finalize
finalize_unpadding-shared pkcs7 = refl
finalize_unpadding-shared ansix923 = refl

ok-injective : {x y : List ℕ} → Path (Result PaddingError (List ℕ)) (ok x) (ok y) → x ≡ y
ok-injective h = cc

-- A message of less than 2 ^ 64 bytes that is padded in pieces, for blocks of 1 to 255 bytes, comes out
-- as it is, followed by the padding that fills its last block, or by a whole block of padding if it
-- ends with a block.
pub run-padding :
    (s : Scheme) (bits : ℕ) (pieces : List (List ℕ))
    → 8 ≤ bits
    → bits < 2048
    → length (flatten pieces) < 2 ^ 64
    → All IsByte (flatten pieces)
    → run pad_update (finalize_padding s) pieces (new_padding bits)
      ≡ ok (flatten pieces ++ padding s (bits / 8 - length (flatten pieces) % (bits / 8)))
run-padding s bits pieces one_byte bounded fits small =
    ap (λ f. run pad_update f pieces (new_padding bits)) (finalize_padding-shared s)
    ∙ padded_message (pad_of s) (check_of s) (padding s) (pads s) (long s) (ends s) (accepts s)
        (bits / 8) (omega arith) (omega arith) bits refl (flatten pieces) small pieces refl fits

-- What comes out of the padding of a message of less than 2 ^ 64 bytes in pieces, cut into any other
-- pieces, is unpadded to the message, for either kind of padding and blocks of 1 to 255 bytes.
pub unpadding-padding :
    (s : Scheme) (bits : ℕ) (pieces cut : List (List ℕ))
    → 8 ≤ bits
    → bits < 2048
    → length (flatten pieces) < 2 ^ 64
    → All IsByte (flatten pieces)
    → run pad_update (finalize_padding s) pieces (new_padding bits) ≡ ok (flatten cut)
    → run unpad_update (finalize_unpadding s) cut (new_unpadding bits) ≡ ok (flatten pieces)
unpadding-padding s bits pieces cut one_byte bounded fits small padded =
    let whole : flatten cut
        ≡ flatten pieces ++ padding s (bits / 8 - length (flatten pieces) % (bits / 8)) =
      ok-injective (sym padded ∙ run-padding s bits pieces one_byte bounded fits small) in
    ap (λ f. run unpad_update f cut (new_unpadding bits)) (finalize_unpadding-shared s)
    ∙ unpad_message (pad_of s) (check_of s) (padding s) (pads s) (long s) (ends s) (accepts s)
        (bits / 8) (omega arith) (omega arith) bits refl (flatten pieces) small cut whole

-- An update of an open unpadding context with blocks of at least one byte keeps the order and loses
-- nothing: what it returns, followed by the buffer, is the old buffer and the new bytes. It returns whole
-- blocks only and leaves less than two blocks in the buffer.
pub unpad_update-Keeps :
    (bs : ℕ) (held buf : List ℕ)
    → 1 ≤ bs
    → (out rest : List ℕ) × (unpad_update (record { block_size = bs; buffer = some held }) buf
        ≡ (record { block_size = bs; buffer = some rest }, ok out))
      × (out ++ rest ≡ held ++ buf)
      × (length out % bs ≡ 0)
      × (length rest < 2 * bs)
unpad_update-Keeps bs held buf positive =
    let v = held ++ buf in
    let n = result_size bs (length v) in
    let out_length : length (take n v) ≡ n =
      omega (arith, length-take n v, result_size-le bs positive (length v)) in
    (
      take n v,
      drop n v,
      update-open bs positive held buf,
      take-append-drop n v,
      ap (λ (k : ℕ). k % bs) out_length ∙ mul-mod_left (length v / bs - 1) bs,
      omega (arith, length-drop n v, rest_lt bs positive (length v)),
    )

-- Feeding an unpadding context with blocks of at least one byte in pieces is one update with the whole,
-- if less than two blocks are in its buffer.
pub feed-pieces :
    (bs : ℕ) (pieces : List (List ℕ)) (held : List ℕ)
    → 1 ≤ bs
    → length held < 2 * bs
    → feed unpad_update pieces (record { block_size = bs; buffer = some held })
      ≡ unpad_update (record { block_size = bs; buffer = some held }) (flatten pieces)
feed-pieces bs pieces held positive short = feed-unpad_update bs positive pieces held short

closes_padding : (s : Scheme) (c : PaddingContext) → (finalize_padding s c).0.length_seen ≡ none
unfolding pad_finalize
closes_padding s c = rw (finalize_padding-shared s) (elim (Option-cases (c.length_seen)) [
  | inl e ↦ rw (pad_finalize, e) e
  | inr (v, e) ↦ rw (pad_finalize, e) refl
])

closes_unpadding : (s : Scheme) (u : UnpaddingContext) → (finalize_unpadding s u).0.buffer ≡ none
unfolding unpad_finalize
closes_unpadding s u = rw (finalize_unpadding-shared s) (elim (Option-cases (u.buffer)) [
  | inl e ↦ rw (unpad_finalize, e) e
  | inr (v, e) ↦ rw (unpad_finalize, e) refl
])

raises_padding :
    (s : Scheme) (c : PaddingContext) (buf : List ℕ)
    → c.length_seen ≡ none
    → (pad_update c buf ≡ (c, err already_finalized))
      × (finalize_padding s c ≡ (c, err already_finalized))
unfolding pad_update pad_finalize
raises_padding s c buf e =
    let closed : c ≡ record { block_size = c.block_size; length_seen = none } =
      ap (λ seen. record { block_size = c.block_size; length_seen = seen }) e in
    let raised = ap (λ x. (x, err already_finalized)) closed in
    (rw (pad_update, e) raised, rw (finalize_padding-shared s) (rw (pad_finalize, e) raised))

raises_unpadding :
    (s : Scheme) (u : UnpaddingContext) (buf : List ℕ)
    → u.buffer ≡ none
    → (unpad_update u buf ≡ (u, err already_finalized))
      × (finalize_unpadding s u ≡ (u, err already_finalized))
unfolding unpad_update unpad_finalize
raises_unpadding s u buf e =
    let closed : u ≡ record { block_size = u.block_size; buffer = none } =
      ap (λ held. record { block_size = u.block_size; buffer = held }) e in
    let raised = ap (λ x. (x, err already_finalized)) closed in
    (rw (unpad_update, e) raised, rw (finalize_unpadding-shared s) (rw (unpad_finalize, e) raised))

-- After `finalize` of a context, whatever that call gave, every method of it raises the error of a
-- context that is used up and leaves it as it is, for padding and unpadding contexts of either kind.
pub finalized-raises :
    (s : Scheme) (c : PaddingContext) (u : UnpaddingContext) (buf : List ℕ)
    → (let c' = (finalize_padding s c).0 in
        (pad_update c' buf ≡ (c', err already_finalized))
        × (finalize_padding s c' ≡ (c', err already_finalized)))
      × (let u' = (finalize_unpadding s u).0 in
          (unpad_update u' buf ≡ (u', err already_finalized))
          × (finalize_unpadding s u' ≡ (u', err already_finalized)))
finalized-raises s c u buf = (
  raises_padding s (finalize_padding s c).0 buf (closes_padding s c),
  raises_unpadding s (finalize_unpadding s u).0 buf (closes_unpadding s u),
)
