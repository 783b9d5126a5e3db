-- ===== src/Ciphers/Buffer.antt =====
-- The writes of CipherContext::update_into stay within the caller's buffer, which the unchecked calls of
-- OpenSSL rely on.
use cryptography.Prelude.{
  ℕ, zero, suc, ◌+◌, ◌-◌, ◌^◌, ◌≤◌, ◌≡◌, ◌≢◌, refl, arith, Bool, true, false, if◌then◌else◌, List,
  [], ◌∷◌, ◌++◌, length, take, drop, ltb, ltb→le, le→ltb, Bool-cases, inl, inr, length-append,
  length-take, length-drop,
}
use cryptography.Result.{Result, ok, err, Result-cases}
use cryptography.Ciphers.Base.{
  Openssl, Buffers, out_of_bounds, openssl_error, xts_short_first_update,
}
use cryptography.Ciphers.Context.{
  CipherContext, Error, chunks, chunks_with, write_at, write_chunks, update_into,
}

-- All bytes of the chunks.
abbrev pub total : List (List ℕ) → ℕ
total [] = 0
total (xs ∷ xss) = length xs + total xss

module _ (o : Openssl) where
  -- Chunks have as many bytes as what they are cut from.
  chunks-total :
      (fuel size : ℕ) (xs : List ℕ) → 1 ≤ size → total (chunks_with o fuel size xs) ≤ length xs
  unfolding chunks_with
  chunks-total zero size xs h = omega arith
  chunks-total (suc fuel) size [] h = omega arith
  chunks-total (suc fuel) size (x ∷ xs) h = omega (
    arith,
    length-take size (x ∷ xs),
    length-drop size (x ∷ xs),
    chunks-total fuel size (drop size (x ∷ xs)) h,
  )

  write-fits :
      (offset : ℕ) (out buf : List ℕ)
      → offset + length out ≤ length buf
      → (buf' : List ℕ) × (write_at o offset out buf ≡ ok buf') × (length buf' ≡ length buf)
  unfolding write_at
  write-fits offset out buf fits =
      let room : ltb (length buf) (offset + length out) ≡ false =
        le→ltb (length buf) (offset + length out) fits in
      (
        take offset buf ++ (out ++ drop (offset + length out) buf),
        rw (write_at, room) refl,
        omega (
          arith,
          length-append (take offset buf) (out ++ drop (offset + length out) buf),
          length-append out (drop (offset + length out) buf),
          length-take offset buf,
          length-drop (offset + length out) buf,
        ),
      )

  -- The result is within a buffer of `len` bytes: no write went beyond its end, and after a success the
  -- buffer has its size and the bytes counted are of it.
  abbrev pub Within : ℕ → Result (Error o) (ℕ × List ℕ) → Type 0
  Within len (ok (n, buf)) = (n ≤ len) × (length buf ≡ len)
  Within len (err e) = e ≢ out_of_bounds

  named-Within :
      (len : ℕ) (xts : Bool) (e : o.Stack)
      → Within len (err (if xts then xts_short_first_update else openssl_error e))
  named-Within len true e h = cc
  named-Within len false e h = cc

  module _ (b : Buffers o) where
    write_chunks-Within :
        (chunks : List (List ℕ)) (written : ℕ) (buf : List ℕ) (c : CipherContext o)
        → written + (b.held (c.ctx) + total chunks) ≤ length buf
        → Within (length buf) (write_chunks o chunks written buf c).1
    unfolding write_chunks
    write_chunks-Within [] written buf c room = (omega arith, refl)
    write_chunks-Within (chunk ∷ rest) written buf c room =
        elim (Result-cases ((o.cipher_update chunk (c.ctx)).1)) [
          | inr (e, failed) ↦
              rw (write_chunks, failed) (named-Within (length buf) (c.py_mode.is_xts) e)
          | inl (out, wrote) ↦
              let bound = b.writes chunk out (c.ctx) wrote in
              let fits = write-fits written out buf (omega arith) in
              let next : CipherContext o = record {
                ctx = (o.cipher_update chunk (c.ctx)).0;
                py_mode = c.py_mode;
                py_algorithm = c.py_algorithm;
                side = c.side;
              } in
              let ih =
                write_chunks-Within rest (written + length out) (fits.0) next
                  (omega (arith, fits.2)) in
              rw (write_chunks, wrote, fits.1) (rw (fits.2) at ih)
        ]

    -- If OpenSSL's contexts hold back less than a block and write no more than they held back and were
    -- given, then CipherContext::update_into, with any buffer, never writes beyond the buffer's end, in
    -- any of its chunks. When it succeeds, the number that it returns is at most the buffer's size.
    pub update_into-Within :
        (c : CipherContext o) (bytes buf : List ℕ)
        → Within (length buf) (update_into o bytes buf c).1
    unfolding update_into chunks
    update_into-Within c bytes buf =
        elim (Bool-cases (ltb (length buf) (length bytes + o.block_size (c.ctx) - 1))) [
          | inl small ↦ rw (update_into, small) (λ h. cc)
          | inr enough ↦
              let size = ltb→le (length buf) (length bytes + o.block_size (c.ctx) - 1) enough in
              let cut = chunks-total (length bytes) (2 ^ 29) bytes (omega arith) in
              rw (update_into, enough)
                (write_chunks-Within (chunks o (2 ^ 29) bytes) 0 buf c
                  (omega (arith, b.held_lt (c.ctx), size, cut)))
        ]
