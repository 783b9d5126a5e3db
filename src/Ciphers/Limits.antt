-- ===== src/Ciphers/Limits.antt =====
-- The limits and the order of calls that the AEAD contexts keep.
use cryptography.Prelude.{
  ℕ, ◌≤◌, ◌≡◌, refl, ◌∙◌, ap, arith, true, not, Option, none, List, [], ◌∷◌, length, ltb,
  Bool-cases, inl, inr, if◌then◌else◌,
}
use cryptography.Result.{Result, ok, err, map_err, Result-cases}
use cryptography.Ciphers.Base.{Openssl, Method, after, already_updated, tag_required, openssl_error}
use cryptography.Ciphers.Context.{CipherContext, Error, call, is_some}
use cryptography.Ciphers.Context
use cryptography.Ciphers.Python.{with_ctx, drop_after}
use cryptography.Ciphers.Aead.{
  AeadContext, on_ctx, count_bytes, count_aad, require_ctx, check_tag, finalize_and_tag,
  aead_update, aead_update_into, aead_authenticate_additional_data, aead_reset_nonce,
  decryption_finalize, finalize_with_tag, encryption_finalize,
}
use cryptography.Ciphers.Calls.{
  Call, update, update_into, authenticate_additional_data, reset_nonce, finalize_encryption,
  finalize_decryption, finalize_with, perform, perform_all,
}

module _ (o : Openssl) where
  -- What every method keeps: the flag stays up, the counters do not grow, and a context that is gone stays
  -- gone.
  abbrev pub Later : AeadContext o → AeadContext o → Type 0
  Later a b =
      (a.updated ≡ true → b.updated ≡ true)
      × (b.bytes_remaining ≤ a.bytes_remaining)
      × (b.aad_bytes_remaining ≤ a.aad_bytes_remaining)
      × (a.ctx ≡ none → b.ctx ≡ none)

  pub Later-refl : (a : AeadContext o) → Later a a
  Later-refl a = (λ h. h, omega arith, omega arith, λ h. h)

  Later-trans : (a b c : AeadContext o) → Later a b → Later b c → Later a c
  Later-trans a b c (u, r, d, g) (u', r', d', g') =
      (λ h. u' (u h), omega arith, omega arith, λ h. g' (g h))

  Later-after :
      {A B : Type 0} (a : AeadContext o) (r : AeadContext o × Result (Error o) A)
      (next : A → Method (AeadContext o) (Error o) B)
      → Later a (r.0)
      → ((x : A) (s : AeadContext o) → Later s (next x s).0)
      → Later a (after r next).0
  Later-after a (s, ok x) next h k = Later-trans a s (next x s).0 h (k x s)
  Later-after a (s, err e) next h k = h

  pub on_ctx-Later :
      {A : Type 0} (method : Method (Option (CipherContext o)) (Error o) A)
      → (method none).0 ≡ none
      → (a : AeadContext o) → Later a (on_ctx o method a).0
  on_ctx-Later method closed a =
      (λ h. h, omega arith, omega arith, λ h. ap (λ c. (method c).0) h ∙ closed)

  pub with_ctx-none :
      {A : Type 0} (method : Method (CipherContext o) (Error o) A)
      → (with_ctx o method none).0 ≡ none
  unfolding with_ctx
  with_ctx-none method = refl

  drop_after-none :
      {A : Type 0} (method : Method (CipherContext o) (Error o) A)
      → (drop_after o (with_ctx o method none)).0 ≡ none
  unfolding with_ctx drop_after
  drop_after-none method = refl

  pub count_bytes-Later : (len : ℕ) (a : AeadContext o) → Later a (count_bytes o len a).0
  unfolding count_bytes
  count_bytes-Later len a = elim (Bool-cases (ltb (a.bytes_remaining) len)) [
    | inl e ↦ rw (count_bytes, e) (λ h. refl, omega arith, omega arith, λ h. h)
    | inr e ↦ rw (count_bytes, e) (λ h. refl, omega arith, omega arith, λ h. h)
  ]

  pub count_aad-Later : (len : ℕ) (a : AeadContext o) → Later a (count_aad o len a).0
  unfolding count_aad
  count_aad-Later len a = elim (Bool-cases (ltb (a.aad_bytes_remaining) len)) [
    | inl e ↦ rw (count_aad, e) (Later-refl a)
    | inr e ↦ rw (count_aad, e) (λ h. h, omega arith, omega arith, λ h. h)
  ]

  require_ctx-Later : (a : AeadContext o) → Later a (require_ctx o a).0
  unfolding require_ctx
  require_ctx-Later a = Later-refl a

  counted-Later :
      {A : Type 0} (len : ℕ) (method : Method (CipherContext o) (Error o) A) (a : AeadContext o)
      → Later a (after (count_bytes o len a) (λ _. on_ctx o (with_ctx o method))).0
  counted-Later len method a =
      Later-after a (count_bytes o len a) (λ _. on_ctx o (with_ctx o method))
        (count_bytes-Later len a) (λ _ s. on_ctx-Later (with_ctx o method) (with_ctx-none method) s)

  aad-Later :
      (bytes : List ℕ) (a : AeadContext o) → Later a (aead_authenticate_additional_data o bytes a).0
  unfolding aead_authenticate_additional_data
  aad-Later bytes a = Later-after a (require_ctx o a) _ (require_ctx-Later a) λ _ s.
      Later-after s (s, if s.updated then err already_updated else ok tt) _ (Later-refl s)
        λ _ s.
          Later-after s (count_aad o (length bytes) s) _ (count_aad-Later (length bytes) s) λ _ s.
            on_ctx-Later (with_ctx o (Context.authenticate_additional_data o bytes))
              (with_ctx-none (Context.authenticate_additional_data o bytes)) s

  decryption_finalize-Later : (a : AeadContext o) → Later a (decryption_finalize o a).0
  unfolding decryption_finalize
  decryption_finalize-Later a = Later-after a (require_ctx o a) _ (require_ctx-Later a) λ c s.
      Later-after s (s, if not (is_some (c.py_mode.tag)) then err tag_required else ok tt) _
        (Later-refl s)
        λ _ s.
          on_ctx-Later (λ t. drop_after o (with_ctx o (Context.finalize o) t))
            (drop_after-none (Context.finalize o)) s

  finalize_with_tag-Later :
      (tag : List ℕ) (a : AeadContext o) → Later a (finalize_with_tag o tag a).0
  unfolding finalize_with_tag
  finalize_with_tag-Later tag a = Later-after a (require_ctx o a) _ (require_ctx-Later a) λ c s.
      Later-after s (s, check_tag o c tag) _ (Later-refl s)
        λ _ s.
          Later-after s (on_ctx o (with_ctx o (call o openssl_error (o.set_tag tag))) s) _
            (on_ctx-Later (with_ctx o (call o openssl_error (o.set_tag tag)))
              (with_ctx-none (call o openssl_error (o.set_tag tag))) s)
            λ _ s.
              on_ctx-Later (λ t. drop_after o (with_ctx o (Context.finalize o) t))
                (drop_after-none (Context.finalize o)) s

  finalize_and_tag-Later : (a : AeadContext o) → Later a (finalize_and_tag o a).0
  unfolding finalize_and_tag
  finalize_and_tag-Later a = Later-after a (require_ctx o a) _ (require_ctx-Later a) λ _ s.
      Later-after s (on_ctx o (with_ctx o (Context.finalize o)) s) _
        (on_ctx-Later (with_ctx o (Context.finalize o)) (with_ctx-none (Context.finalize o)) s)
        λ result s. Later-after s (require_ctx o s) _ (require_ctx-Later s) λ c s.
          Later-after s (s, map_err openssl_error (o.get_tag 16 (c.ctx))) _ (Later-refl s)
            λ tag s. Later-refl s

  encryption_finalize-Later :
      (a : AeadContext o)
      → Later a (encryption_finalize o (record { shared = a; tag = none })).0.shared
  unfolding encryption_finalize
  encryption_finalize-Later a =
      let later = finalize_and_tag-Later a in
      elim (Result-cases ((finalize_and_tag o a).1)) [
        | inr (e, failed) ↦ rw (encryption_finalize, failed) later
        | inl (r, done) ↦ rw (encryption_finalize, done) (later.0, later.1, later.2, λ h. refl)
      ]

  pub perform-Later : (c : Call) (a : AeadContext o) → Later a (perform o c a).0
  unfolding perform aead_update aead_update_into aead_reset_nonce
  perform-Later (update bytes) a = counted-Later (length bytes) (Context.update o bytes) a
  perform-Later (update_into bytes buf) a =
      counted-Later (length bytes) (Context.update_into o bytes buf) a
  perform-Later (authenticate_additional_data bytes) a = aad-Later bytes a
  perform-Later (reset_nonce nonce) a =
      on_ctx-Later (with_ctx o (Context.reset_nonce o nonce))
        (with_ctx-none (Context.reset_nonce o nonce)) a
  perform-Later finalize_encryption a = encryption_finalize-Later a
  perform-Later finalize_decryption a = decryption_finalize-Later a
  perform-Later (finalize_with tag) a = finalize_with_tag-Later tag a

  pub perform_all-Later : (calls : List Call) (a : AeadContext o) → Later a (perform_all o calls a)
  unfolding perform_all
  perform_all-Later [] a = Later-refl a
  perform_all-Later (c ∷ calls) a =
      Later-trans a (perform o c a).0 _ (perform-Later c a)
        (perform_all-Later calls (perform o c a).0)
