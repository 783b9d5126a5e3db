-- ===== src/Sct/Parse.antt =====
-- The list parser of src/x509/sct.rs against the format, and its fuel.
use mathlib.Core.Path.{subst}
use cryptography.Prelude.{
  ℕ, zero, suc, ◌≤◌, ◌+◌, ◌≡◌, refl, sym, ◌∙◌, ap, arith, List, [], ◌∷◌, ◌++◌, length, ◌↔◌,
  length-append,
}
use cryptography.Result.{ok, >>=-elim, >>=-ok, ok-injective}
use cryptography.Sct.{read_length_prefixed, parse_sct, parse_loop, parse_scts, LogEntryType, Sct}
use cryptography.Sct.Reader.{Prefixed, read_length_prefixed_sound, read_length_prefixed-append}
use cryptography.Sct.Grammar.{IsSct, parse_sct_sound, parse_sct_complete}

-- Timestamps one after the other, each behind its length.
unfoldable pub IsSctList : LogEntryType → List Sct → List ℕ → Type 0
IsSctList entry [] bytes = bytes ≡ []
IsSctList entry (s ∷ ss) bytes =
    (used : List ℕ) × (rest : List ℕ) × Prefixed (s.sct_data) used
    × IsSct entry s
    × (bytes ≡ used ++ rest)
    × IsSctList entry ss rest

-- The list behind its length, and possibly more bytes after it.
unfoldable pub IsSctEncoding : LogEntryType → List Sct → List ℕ → Type 0
unfolding IsSctList
IsSctEncoding entry ss bytes =
    (content : List ℕ) × (used : List ℕ) × (junk : List ℕ) × Prefixed content used
    × (bytes ≡ used ++ junk)
    × IsSctList entry ss content

-- Reading a length and what it counts leaves two bytes less or more.
shorter :
    (bytes xs used rest : List ℕ)
    → Prefixed xs used
    → bytes ≡ used ++ rest
    → length rest + 2 ≤ length bytes
shorter bytes xs used rest (len, two, size, e) split =
    omega (arith, ap length split, length-append used rest, ap length e, length-append len xs, two)

parse_loop_sound :
    (fuel : ℕ) (entry : LogEntryType) (bytes : List ℕ) {ss : List Sct}
    → parse_loop fuel entry bytes ≡ ok ss
    → IsSctList entry ss bytes
unfolding parse_loop IsSctList
parse_loop_sound zero entry [] {ss} h = subst (λ t. IsSctList entry t []) (ok-injective h) refl
parse_loop_sound (suc fuel) entry [] {ss} h =
    subst (λ t. IsSctList entry t []) (ok-injective h) refl
parse_loop_sound zero entry (b ∷ bs) {ss} h = absurd (cc)
parse_loop_sound (suc fuel) entry (b ∷ bs) {ss} h =
    >>=-elim (read_length_prefixed (b ∷ bs)) h λ sct_bytes read h.
      >>=-elim (parse_sct entry (sct_bytes.0)) h λ s parsed h.
        >>=-elim (parse_loop fuel entry (sct_bytes.1)) h λ rest looped h.
          let split = read_length_prefixed_sound (b ∷ bs) read in
          let sound = parse_sct_sound entry (sct_bytes.0) parsed in
          subst (λ t. IsSctList entry t (b ∷ bs)) (ok-injective h)
            (
              split.0,
              sct_bytes.1,
              subst (λ t. Prefixed t (split.0)) (sym (sound.1)) (split.1),
              sound.0,
              split.2,
              parse_loop_sound fuel entry (sct_bytes.1) looped,
            )

parse_loop_complete :
    (fuel : ℕ) (entry : LogEntryType) (ss : List Sct) (bytes : List ℕ)
    → length bytes ≤ fuel
    → IsSctList entry ss bytes
    → parse_loop fuel entry bytes ≡ ok ss
unfolding parse_loop IsSctList
parse_loop_complete zero entry [] bytes room h = rw h refl
parse_loop_complete (suc fuel) entry [] bytes room h = rw h refl
parse_loop_complete fuel entry (s ∷ ss) [] room (used, rest, prefixed, is, split, more) =
    absurd (omega (arith, shorter [] (s.sct_data) used rest prefixed split))
parse_loop_complete zero entry (s ∷ ss) (b ∷ bs) room h = absurd (omega arith)
parse_loop_complete (suc fuel) entry (s ∷ ss) (b ∷ bs) room
      (used, rest, prefixed, is, split, more) =
    >>=-ok (read_length_prefixed (b ∷ bs)) _
      (ap read_length_prefixed split ∙ read_length_prefixed-append (s.sct_data) used rest prefixed)
      (>>=-ok (parse_sct entry (s.sct_data)) _ (parse_sct_complete entry s is) (
        >>=-ok (parse_loop fuel entry rest) _
          (parse_loop_complete fuel entry ss rest
            (omega (arith, shorter (b ∷ bs) (s.sct_data) used rest prefixed split)) more)
          refl))

-- Parsing bytes gives a list of timestamps if and only if the bytes are their encoding: each timestamp in
-- its format behind its length, all of them behind the length of the list, with more bytes allowed after
-- the list and after each timestamp's signature.
pub parse_scts_iff :
    (entry : LogEntryType) (bytes : List ℕ) (ss : List Sct)
    → (parse_scts entry bytes ≡ ok ss) ↔ IsSctEncoding entry ss bytes
unfolding parse_scts IsSctEncoding
parse_scts_iff entry bytes ss = (
  λ h. >>=-elim (read_length_prefixed bytes) h λ reader read looped.
      let split = read_length_prefixed_sound bytes read in
      (
        reader.0,
        split.0,
        reader.1,
        split.1,
        split.2,
        parse_loop_sound (length (reader.0)) entry (reader.0) looped,
      ),
  λ h.
      let (content, used, junk, prefixed, split, list) = h in
      >>=-ok (read_length_prefixed bytes) _
        (ap read_length_prefixed split ∙ read_length_prefixed-append content used junk prefixed)
        (parse_loop_complete (length content) entry ss content (omega arith) list),
)
