-- ===== src/Ciphers/Closed.antt =====
-- An AEAD context whose finalize has succeeded.
use mathlib.Core.Path.{Path}
use cryptography.Prelude.{
  ℕ, ◌≡◌, refl, Bool, true, false, not, if◌then◌else◌, Option, none, List, length, Bool-cases, inl,
  inr,
}
use cryptography.Result.{Result, ok, err, Result-cases}
use cryptography.Ciphers.Base.{
  Openssl, Method, after, already_finalized, tag_required, openssl_error,
}
use cryptography.Ciphers.Context.{CipherContext, Error, call, is_some}
use cryptography.Ciphers.Context
use cryptography.Ciphers.Python.{with_ctx, drop_after}
use cryptography.Ciphers.Aead.{
  AeadContext, on_ctx, count_bytes, require_ctx, check_tag, finalize_and_tag, aead_update,
  aead_update_into, aead_authenticate_additional_data, aead_reset_nonce, decryption_finalize,
  finalize_with_tag, encryption_finalize,
}
use cryptography.Ciphers.Calls.{
  Call, update, update_into, authenticate_additional_data, reset_nonce, finalize_encryption,
  finalize_decryption, finalize_with, succeeds, perform, perform_all,
}
use cryptography.Ciphers.Limits.{perform_all-Later, count_bytes-Later}
use cryptography.Ciphers.Accounting.{after-succeeds}

-- The calls that end a context.
abbrev pub ends : Call → Bool
ends finalize_encryption = true
ends finalize_decryption = true
ends (finalize_with tag) = true
ends _ = false

module _ (o : Openssl) where
  on_none :
      {A : Type 0} (method : Method (CipherContext o) (Error o) A) (a : AeadContext o)
      → a.ctx ≡ none
      → succeeds ((on_ctx o (with_ctx o method) a).1) ≡ true
      → ⊥
  unfolding with_ctx
  on_none method a gone h =
      let raised : succeeds ((with_ctx o method none).1) ≡ true = rw gone at h in absurd (cc)

  none_required :
      (a : AeadContext o) {c : CipherContext o} → a.ctx ≡ none → (require_ctx o a).1 ≡ ok c → ⊥
  unfolding require_ctx
  none_required a {c} gone h =
      let raised : Path (Result (Error o) (CipherContext o)) (err already_finalized) (ok c) =
        rw gone at h in
      absurd (cc)

  starts_with_ctx :
      {A : Type 0} (next : CipherContext o → Method (AeadContext o) (Error o) A) (a : AeadContext o)
      → a.ctx ≡ none
      → succeeds ((after (require_ctx o a) next).1) ≡ true
      → ⊥
  starts_with_ctx next a gone h = none_required a gone (after-succeeds (require_ctx o a) next h).1

  counted_none :
      {A : Type 0} (len : ℕ) (method : Method (CipherContext o) (Error o) A) (a : AeadContext o)
      → a.ctx ≡ none
      → succeeds ((after (count_bytes o len a) (λ _. on_ctx o (with_ctx o method))).1) ≡ true
      → ⊥
  counted_none len method a gone h =
      let second = after-succeeds (count_bytes o len a) (λ _. on_ctx o (with_ctx o method)) h in
      on_none method (count_bytes o len a).0 ((count_bytes-Later o len a).3 gone) (second.2)

  encryption_done :
      (a : AeadContext o)
      → succeeds ((encryption_finalize o (record { shared = a; tag = none })).1) ≡ true
      → (succeeds ((finalize_and_tag o a).1) ≡ true)
        × ((encryption_finalize o (record { shared = a; tag = none })).0.shared.ctx ≡ none)
  unfolding encryption_finalize
  encryption_done a h = elim (Result-cases ((finalize_and_tag o a).1)) [
    | inl (r, done) ↦ (rw done refl, rw (encryption_finalize, done) refl)
    | inr (e, failed) ↦ absurd (let h' = rw (encryption_finalize, failed) at h in (cc))
  ]

  -- No call succeeds on a context that is gone.
  gone-fails : (c : Call) (a : AeadContext o) → a.ctx ≡ none → (perform o c a).1 ≡ true → ⊥
  unfolding perform aead_update aead_update_into aead_authenticate_additional_data aead_reset_nonce
      decryption_finalize finalize_with_tag finalize_and_tag
  gone-fails (update bytes) a gone h = counted_none (length bytes) (Context.update o bytes) a gone h
  gone-fails (update_into bytes buf) a gone h =
      counted_none (length bytes) (Context.update_into o bytes buf) a gone h
  gone-fails (authenticate_additional_data bytes) a gone h = starts_with_ctx _ a gone h
  gone-fails (reset_nonce nonce) a gone h = on_none (Context.reset_nonce o nonce) a gone h
  gone-fails finalize_encryption a gone h = starts_with_ctx _ a gone (encryption_done a h).0
  gone-fails finalize_decryption a gone h = starts_with_ctx _ a gone h
  gone-fails (finalize_with tag) a gone h = starts_with_ctx _ a gone h

  after-elim :
      {A B : Type 0} (r : AeadContext o × Result (Error o) A)
      (next : A → Method (AeadContext o) (Error o) B)
      → succeeds ((after r next).1) ≡ true
      → ((x : A) (s : AeadContext o) → succeeds ((next x s).1) ≡ true → (next x s).0.ctx ≡ none)
      → (after r next).0.ctx ≡ none
  after-elim (s, ok x) next h k = k x s h
  after-elim (s, err e) next h k = absurd (cc)

  dropped :
      {A : Type 0} (r : Option (CipherContext o) × Result (Error o) A)
      → succeeds ((drop_after o r).1) ≡ true
      → (drop_after o r).0 ≡ none
  unfolding drop_after
  dropped (c, ok x) h = refl
  dropped (c, err e) h = absurd (cc)

  ends-gone :
      (c : Call) (a : AeadContext o)
      → ends c ≡ true
      → (perform o c a).1 ≡ true
      → (perform o c a).0.ctx ≡ none
  unfolding perform decryption_finalize finalize_with_tag
  ends-gone finalize_encryption a e h = (encryption_done a h).1
  ends-gone finalize_decryption a e h = after-elim (require_ctx o a) _ h λ c s h.
      after-elim (s, if not (is_some (c.py_mode.tag)) then err tag_required else ok tt) _ h
        λ _ s h. dropped (with_ctx o (Context.finalize o) (s.ctx)) h
  ends-gone (finalize_with tag) a e h = after-elim (require_ctx o a) _ h λ c s h.
      after-elim (s, check_tag o c tag) _ h
        λ _ s h.
          after-elim (on_ctx o (with_ctx o (call o openssl_error (o.set_tag tag))) s) _ h
            λ _ s h. dropped (with_ctx o (Context.finalize o) (s.ctx)) h
  ends-gone (update bytes) a e h = absurd (cc)
  ends-gone (update_into bytes buf) a e h = absurd (cc)
  ends-gone (authenticate_additional_data bytes) a e h = absurd (cc)
  ends-gone (reset_nonce nonce) a e h = absurd (cc)

  -- Once `finalize` or `finalize_with_tag` has succeeded on an AEAD context, no later call of any method
  -- that changes it succeeds.
  pub finalized-fails :
      (c d : Call) (calls : List Call) (a : AeadContext o)
      → ends c ≡ true
      → (perform o c a).1 ≡ true
      → (perform o d (perform_all o calls (perform o c a).0)).1 ≡ false
  finalized-fails c d calls a e done =
      let b = perform o c a in
      let gone = (perform_all-Later o calls (b.0)).3 (ends-gone c a e done) in
      elim (Bool-cases (perform o d (perform_all o calls (b.0))).1) [
        | inr failed ↦ failed
        | inl succeeded ↦ absurd (gone-fails d (perform_all o calls (b.0)) gone succeeded)
      ]
