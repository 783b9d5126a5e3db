-- ===== src/Ciphers/Accounting.antt =====
-- The bytes that an AEAD context takes, and additional data after an update.
use mathlib.Core.Path.{Path}
use cryptography.Prelude.{
  ℕ, ◌+◌, ◌≤◌, ◌≡◌, refl, ap, arith, Bool, true, false, List, [], ◌∷◌, length, ltb, ltb→le,
  Bool-cases, inl, inr, if◌then◌else◌,
}
use cryptography.Result.{Result, ok, err, ok-injective}
use cryptography.Ciphers.Base.{Openssl, Mode, Method, after, already_updated}
use cryptography.Ciphers.Context.{CipherContext, Error}
use cryptography.Ciphers.Context
use cryptography.Ciphers.Python.{with_ctx}
use cryptography.Ciphers.Aead.{
  AeadContext, on_ctx, count_bytes, count_aad, require_ctx, aead_update, aead_update_into,
  aead_authenticate_additional_data,
}
use cryptography.Ciphers.Create.{fresh}
use cryptography.Ciphers.Calls.{
  Call, update, update_into, authenticate_additional_data, succeeds, data_bytes, aad_bytes, perform,
  perform_all, succeeded,
}
use cryptography.Ciphers.Limits.{perform-Later, perform_all-Later}

-- A method that succeeds has succeeded in its first step.
pub after-succeeds :
    {S E A B : Type 0} (r : S × Result E A) (next : A → Method S E B)
    → succeeds ((after r next).1) ≡ true
    → (x : A) × (r.1 ≡ ok x) × (succeeds ((next x (r.0)).1) ≡ true)
after-succeeds (s, ok x) next h = (x, refl, h)
after-succeeds (s, err e) next h = absurd (cc)

-- What such a method does is what its next step does.
after-ok :
    {S E A B : Type 0} (r : S × Result E A) (next : A → Method S E B) {x : A}
    → r.1 ≡ ok x
    → after r next ≡ next x (r.0)
after-ok (s, ok y) next h = ap (λ z. next z s) (ok-injective h)
after-ok (s, err e) next h = absurd (cc)

module _ (o : Openssl) where
  count_bytes-ok :
      (len : ℕ) (a : AeadContext o) {x : Unit {0}}
      → (count_bytes o len a).1 ≡ ok x
      → len + (count_bytes o len a).0.bytes_remaining ≤ a.bytes_remaining
  unfolding count_bytes
  count_bytes-ok len a {x} h = elim (Bool-cases (ltb (a.bytes_remaining) len)) [
    | inl e ↦ absurd (let h' = rw (count_bytes, e) at h in (cc))
    | inr e ↦ rw (count_bytes, e) (omega (arith, ltb→le (a.bytes_remaining) len e))
  ]

  count_aad-ok :
      (len : ℕ) (a : AeadContext o) {x : Unit {0}}
      → (count_aad o len a).1 ≡ ok x
      → len + (count_aad o len a).0.aad_bytes_remaining ≤ a.aad_bytes_remaining
  unfolding count_aad
  count_aad-ok len a {x} h = elim (Bool-cases (ltb (a.aad_bytes_remaining) len)) [
    | inl e ↦ absurd (let h' = rw (count_aad, e) at h in (cc))
    | inr e ↦ rw (count_aad, e) (omega (arith, ltb→le (a.aad_bytes_remaining) len e))
  ]

  counted-limit :
      {A : Type 0} (len : ℕ) (method : Method (CipherContext o) (Error o) A) (a : AeadContext o)
      → (let r = after (count_bytes o len a) (λ _. on_ctx o (with_ctx o method)) in
          succeeds (r.1) ≡ true → len + r.0.bytes_remaining ≤ a.bytes_remaining)
  counted-limit len method a h =
      let first = after-succeeds (count_bytes o len a) (λ _. on_ctx o (with_ctx o method)) h in
      rw (after-ok (count_bytes o len a) (λ _. on_ctx o (with_ctx o method)) (first.1))
        (count_bytes-ok len a (first.1))

  aad-limit :
      (bytes : List ℕ) (a : AeadContext o)
      → (let r = aead_authenticate_additional_data o bytes a in
          succeeds (r.1) ≡ true
          → (a.updated ≡ false) × (length bytes + r.0.aad_bytes_remaining ≤ a.aad_bytes_remaining))
  unfolding aead_authenticate_additional_data
  aad-limit bytes a h =
      let method = Context.authenticate_additional_data o bytes in
      let last = λ (_ : Unit {0}). on_ctx o (with_ctx o method) in
      let count = λ (_ : Unit {0}) (s : AeadContext o). after (count_aad o (length bytes) s) last in
      let check = λ (_ : CipherContext o) (s : AeadContext o).
        after (s, if s.updated then err already_updated else ok tt) count in
      let first = after-succeeds (require_ctx o a) check h in
      let checked : AeadContext o × Result (Error o) (Unit {0}) =
        (a, if a.updated then err already_updated else ok tt) in
      let second = after-succeeds checked count (first.2) in
      let third = after-succeeds (count_aad o (length bytes) a) last (second.2) in
      (
        not_updated (a.updated) (second.1),
        rw
            (
              after-ok (require_ctx o a) check (first.1),
              after-ok checked count (second.1),
              after-ok (count_aad o (length bytes) a) last (third.1),
            )
            (count_aad-ok (length bytes) a (third.1)),
      )
    where
      not_updated :
          (b : Bool) {x : Unit {0}}
          → Path (Result (Error o) (Unit {0})) (if b then err already_updated else ok tt) (ok x)
          → b ≡ false
      not_updated true h = absurd (cc)
      not_updated false h = refl

  -- A successful call takes its bytes out of the counters.
  perform-limit :
      (c : Call) (a : AeadContext o)
      → (let r = perform o c a in
          ((if r.1 then data_bytes c else 0) + r.0.bytes_remaining ≤ a.bytes_remaining)
          × ((if r.1 then aad_bytes c else 0) + r.0.aad_bytes_remaining ≤ a.aad_bytes_remaining))
  unfolding perform aead_update aead_update_into
  perform-limit c a =
      let later = perform-Later o c a in
      elim (Bool-cases (perform o c a).1) [
        | inr failed ↦ rw failed (omega (arith, later.1), omega (arith, later.2))
        | inl done ↦ rw done (taken c done)
      ]
    where
      taken :
          (c : Call)
          → (perform o c a).1 ≡ true
          → (data_bytes c + (perform o c a).0.bytes_remaining ≤ a.bytes_remaining)
            × (aad_bytes c + (perform o c a).0.aad_bytes_remaining ≤ a.aad_bytes_remaining)
      taken (update bytes) done = (
        counted-limit (length bytes) (Context.update o bytes) a done,
        omega (arith, (perform-Later o (update bytes) a).2),
      )
      taken (update_into bytes buf) done = (
        counted-limit (length bytes) (Context.update_into o bytes buf) a done,
        omega (arith, (perform-Later o (update_into bytes buf) a).2),
      )
      taken (authenticate_additional_data bytes) done = (
        omega (arith, (perform-Later o (authenticate_additional_data bytes) a).1),
        (aad-limit bytes a done).1,
      )
      taken c done =
          let later = perform-Later o c a in (omega (arith, later.1), omega (arith, later.2))

  sums :
      (calls : List Call) (a : AeadContext o)
      → (succeeded o data_bytes calls a + (perform_all o calls a).bytes_remaining
          ≤ a.bytes_remaining)
        × (succeeded o aad_bytes calls a + (perform_all o calls a).aad_bytes_remaining
            ≤ a.aad_bytes_remaining)
  unfolding perform_all succeeded
  sums [] a = (omega arith, omega arith)
  sums (c ∷ calls) a =
      let here = perform-limit c a in
      let later = sums calls (perform o c a).0 in
      (omega (arith, here.0, later.0), omega (arith, here.1, later.1))

  -- Over any calls on a context that is fresh from its creation, whatever they return, the calls that
  -- succeed take no more bytes and no more additional data than the mode's limits.
  pub fresh-limits :
      (mode : Mode) (c : CipherContext o) (calls : List Call)
      → (succeeded o data_bytes calls (fresh o mode c) ≤ mode.max_encrypted_bytes)
        × (succeeded o aad_bytes calls (fresh o mode c) ≤ mode.max_aad_bytes)
  unfolding fresh
  fresh-limits mode c calls =
      let all = sums calls (fresh o mode c) in (omega (arith, all.0), omega (arith, all.1))

  update-flag :
      {A : Type 0} (len : ℕ) (method : Method (CipherContext o) (Error o) A) (a : AeadContext o)
      → (after (count_bytes o len a) (λ _. on_ctx o (with_ctx o method))).0.updated ≡ true
  unfolding count_bytes
  update-flag len method a = elim (Bool-cases (ltb (a.bytes_remaining) len)) [
    | inl e ↦ rw (count_bytes, e) refl
    | inr e ↦ rw (count_bytes, e) refl
  ]

  refused :
      (x : List ℕ) (a : AeadContext o)
      → a.updated ≡ true
      → (perform o (authenticate_additional_data x) a).1 ≡ false
  unfolding perform
  refused x a up = elim (Bool-cases (perform o (authenticate_additional_data x) a).1) [
    | inr e ↦ e
    | inl e ↦ absurd (let down = (aad-limit x a e).0 in (cc))
  ]

  -- Once `update` or `update_into` has been called on an AEAD context, even if the call failed, no later call
  -- of authenticate_additional_data succeeds, whatever was called in between.
  pub aad_after_update-refused :
      (a : AeadContext o) (bytes buf x : List ℕ) (calls : List Call)
      → ((perform o
            (authenticate_additional_data x)
            (perform_all o calls (perform o (update bytes) a).0)).1
          ≡ false)
        × ((perform o
              (authenticate_additional_data x)
              (perform_all o calls (perform o (update_into bytes buf) a).0)).1
            ≡ false)
  unfolding perform aead_update aead_update_into
  aad_after_update-refused a bytes buf x calls =
      let first = perform o (update bytes) a in
      let second = perform o (update_into bytes buf) a in
      (
        refused x (perform_all o calls (first.0)) (
            (perform_all-Later o calls (first.0)).0
              (update-flag (length bytes) (Context.update o bytes) a)),
        refused x (perform_all o calls (second.0)) (
            (perform_all-Later o calls (second.0)).0
              (update-flag (length bytes) (Context.update_into o bytes buf) a)),
      )
