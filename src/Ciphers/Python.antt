-- ===== src/Ciphers/Python.antt =====
-- PyCipherContext of src/backend/ciphers.rs, and get_mut_ctx.
use cryptography.Prelude.{ℕ, Option, none, some, List}
use cryptography.Result.{Result, ok, err}
use cryptography.Ciphers.Base.{already_finalized, Openssl, Method}
use cryptography.Ciphers.Context.{CipherContext, Error, update, update_into, reset_nonce, finalize}

module _ (o : Openssl) where
  -- get_mut_ctx(..)? and then a method of the context, which it changes in place
  unfoldable pub with_ctx :
      {A : Type 0}
      → Method (CipherContext o) (Error o) A
      → Method (Option (CipherContext o)) (Error o) A
  with_ctx method none = (none, err already_finalized)
  with_ctx method (some c) = let r = method c in (some (r.0), r.1)

  -- The context is dropped when `finalize` has succeeded.
  unfoldable pub drop_after :
      {A : Type 0}
      → Option (CipherContext o) × Result (Error o) A
      → Option (CipherContext o) × Result (Error o) A
  drop_after (c, ok result) = (none, ok result)
  drop_after (c, err e) = (c, err e)

  pub record PyCipherContext : Type 0 where
    pub ctx : Option (CipherContext o)

  abbrev on_ctx :
      {A : Type 0}
      → Method (Option (CipherContext o)) (Error o) A
      → Method PyCipherContext (Error o) A
  on_ctx method p = let r = method (p.ctx) in (record { ctx = r.0 }, r.1)

  unfoldable pub py_update : List ℕ → Method PyCipherContext (Error o) (List ℕ)
  unfolding with_ctx update
  py_update bytes = on_ctx (with_ctx (update o bytes))

  unfoldable pub py_reset_nonce : List ℕ → Method PyCipherContext (Error o) (Unit {0})
  unfolding with_ctx reset_nonce
  py_reset_nonce nonce = on_ctx (with_ctx (reset_nonce o nonce))

  unfoldable pub py_update_into : List ℕ → List ℕ → Method PyCipherContext (Error o) (ℕ × List ℕ)
  unfolding with_ctx update_into
  py_update_into bytes buf = on_ctx (with_ctx (update_into o bytes buf))

  unfoldable pub py_finalize : Method PyCipherContext (Error o) (List ℕ)
  unfolding with_ctx drop_after finalize
  py_finalize = on_ctx λ c. drop_after (with_ctx (finalize o) c)
