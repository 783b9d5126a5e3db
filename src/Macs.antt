-- ===== src/Macs.antt =====
-- The contexts of hashes and message authentication codes, of src/rust/src/backend: hashes.rs, hmac.rs,
-- cmac.rs and poly1305.rs. OpenSSL's contexts are a parameter; a method returns the context that it leaves
-- beside its result.
pub mod Verify
use cryptography.Prelude.{
  ℕ, Bool, true, false, not, ◌||◌, Option, none, some, List, length, ◌==◌, ◌≡◌, ◌↔◌, if◌then◌else◌,
}
use cryptography.Result.{Result, ok, err, ◌>>=◌, map_err}

pub data MacError (Stack : Type 0) : Type 0 where
  openssl_error : Stack → MacError Stack
  already_finalized : MacError Stack
  invalid_signature : MacError Stack
  panic : MacError Stack

-- A context of OpenSSL, and its comparison in constant time, which is defined for equal lengths.
pub record Engine : Type 1 where
  pub Stack : Type 0
  pub State : Type 0
  pub update : List ℕ → State → State × Result Stack (Unit {0})
  pub finish : State → State × Result Stack (List ℕ)
  pub finish_xof : ℕ → State → State × Result Stack (List ℕ)
  pub copy : State → Result Stack State
  pub memcmp_eq : List ℕ → List ℕ → Bool
  pub memcmp_eq_iff : (a b : List ℕ) → length a ≡ length b → (memcmp_eq a b ≡ true) ↔ (a ≡ b)

module _ (engine : Engine) where
  abbrev pub Error : Type 0
  Error = MacError (engine.Stack)

  -- Hash, Hmac and Cmac, by what changes in them.
  pub record MacContext : Type 0 where
    pub ctx : Option (engine.State)

  abbrev pub Left : Type 0 → Type 0
  Left A = MacContext × Result Error A

  -- get_mut_ctx, which leaves the context as it is, and get_ctx
  unfoldable pub mac_ctx : MacContext → Result Error (engine.State)
  mac_ctx c = elim (c.ctx) [ none ↦ err already_finalized | some state ↦ ok state ]

  unfoldable pub mac_update : List ℕ → MacContext → Left (Unit {0})
  unfolding mac_ctx
  mac_update bytes c = elim (mac_ctx c) [
    | err e ↦ (c, err e)
    | ok state ↦
        let r = engine.update bytes state in
        (record { ctx = some (r.0) }, map_err openssl_error (r.1))
  ]

  unfoldable pub mac_finalize : MacContext → Left (List ℕ)
  unfolding mac_ctx
  mac_finalize c = elim (mac_ctx c) [
    | err e ↦ (c, err e)
    | ok state ↦
        let r = engine.finish state in
        elim (r.1) [
          | err e ↦ (record { ctx = some (r.0) }, err (openssl_error e))
          | ok tag ↦ (record { ctx = none }, ok tag)
        ]
  ]

  -- Hash::finalize: an extendable output function gives as many bytes as its algorithm says.
  unfoldable pub hash_finalize : Option ℕ → MacContext → Left (List ℕ)
  unfolding mac_ctx mac_finalize
  hash_finalize none c = mac_finalize c
  hash_finalize (some digest_size) c = elim (mac_ctx c) [
    | err e ↦ (c, err e)
    | ok state ↦
        let r = engine.finish_xof digest_size state in
        elim (r.1) [
          | err e ↦ (record { ctx = some (r.0) }, err panic)
          | ok digest ↦ (record { ctx = none }, ok digest)
        ]
  ]

  -- The comparison at the end of each `verify`.
  unfoldable pub check_mac : List ℕ → List ℕ → Result Error (Unit {0})
  check_mac actual signature =
      if not (length actual == length signature) || not (engine.memcmp_eq actual signature)
      then err invalid_signature
      else ok tt

  unfoldable pub mac_verify : List ℕ → MacContext → Left (Unit {0})
  unfolding mac_finalize check_mac
  mac_verify signature c =
      let r = mac_finalize c in (r.0, r.1 >>= λ actual. check_mac actual signature)

  unfoldable pub mac_copy : MacContext → Result Error MacContext
  unfolding mac_ctx
  mac_copy c = do
    state ← mac_ctx c
    copied ← map_err openssl_error (engine.copy state)
    ok (record { ctx = some copied })

  -- Poly1305, which drops its inner context also where `finalize` fails.
  unfoldable pub poly_finalize : MacContext → Left (List ℕ)
  unfolding mac_ctx
  poly_finalize c =
      (record { ctx = none }, mac_ctx c >>= λ state. map_err openssl_error (engine.finish state).1)

  unfoldable pub poly_verify : List ℕ → MacContext → Left (Unit {0})
  unfolding poly_finalize check_mac
  poly_verify signature c =
      let r = poly_finalize c in (r.0, r.1 >>= λ actual. check_mac actual signature)

  -- Poly1305::new, over what makes the inner context of a key.
  unfoldable pub poly_new :
      (List ℕ → Result Error (engine.State)) → List ℕ → Result Error MacContext
  poly_new inner key = do state ← inner key; ok (record { ctx = some state })

  -- A method on a context that the caller drops.
  unfoldable pub generate_tag :
      (List ℕ → Result Error (engine.State)) → List ℕ → List ℕ → Result Error (List ℕ)
  unfolding poly_new mac_update poly_finalize
  generate_tag inner key bytes = do
    p ← poly_new inner key
    let r = mac_update bytes p in (r.1 >>= λ _. (poly_finalize (r.0)).1)

  unfoldable pub verify_tag :
      (List ℕ → Result Error (engine.State)) → List ℕ → List ℕ → List ℕ → Result Error (Unit {0})
  unfolding poly_new mac_update poly_verify
  verify_tag inner key bytes tag = do
    p ← poly_new inner key
    let r = mac_update bytes p in (r.1 >>= λ _. (poly_verify tag (r.0)).1)
