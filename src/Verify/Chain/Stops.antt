-- ===== src/Verify/Chain/Stops.antt =====
-- An error of a `?` in the loop over the candidates ends it.
use cryptography.Prelude.{
  ℕ, suc, ◌+◌, ◌≤◌, ◌<◌, ◌≡◌, refl, false, Option, none, some, List, [], ◌∷◌, ◌++◌, le→ltb, lt→ltb,
  All,
}
use cryptography.Result.{ok, err}
use cryptography.Names.Ia5.{Ia5}
use cryptography.X509.Certificate.{Certificate}
use cryptography.X509.Extensions.{Extensions, extensions, get_extension}
use cryptography.X509.Oid.{name_constraints_oid}
use cryptography.Verify.Asn1.{Asn1}
use cryptography.Verify.Errors.{ValidationError}
use cryptography.Verify.Budget.{Budget, ◌>>=◌}
use cryptography.Verify.NameChain.{NameChain}
use cryptography.Verify.NameChain
use cryptography.Verify.Store.{Store, contains}
use cryptography.Verify.Policy.Base.{CryptoOps}
use cryptography.Verify.Policy.{PolicyDefinition, valid_issuer}
use cryptography.Verify.Chain.{
  Build, checked_add_u8, cert_is_self_issued, potential_issuers, attempt, check_names, descend,
  candidates, extend, build_step, build_chain_inner,
}
use cryptography.Verify.Chain.Finds.{IsRejected}

module _ {E : Type 0} ⦃ia5 : Ia5⦄ ⦃asn1 : Asn1 E⦄ {K : Type 0} (ops : CryptoOps K)
    (intermediates : List Certificate) (policy : PolicyDefinition E) (store : Store) where
  candidates_stop :
      (inner : Build E) (w : Certificate) (d : ℕ) (n : NameChain)
      (last : Option (ValidationError E)) (before : List Certificate) (i : Certificate)
      (after : List Certificate) (y : Extensions) (b : Budget) {e : ValidationError E}
      → All (IsRejected ops intermediates policy store w d) before
      → extensions i ≡ ok y
      → valid_issuer ops policy i w d y ≡ ok tt
      → d + 1 < 256
      → NameChain.new {E = E} (some n) y (cert_is_self_issued i) ≡ err e
      → candidates ops intermediates policy store inner w d n last (before ++ i ∷ after) b
        ≡ (err e, b)
  unfolding candidates attempt descend checked_add_u8 ◌>>=◌
  candidates_stop inner w d n last [] i after y b r exts valid next names =
      rw (exts, valid, lt→ltb (d + 1) 256 next, names) refl
  candidates_stop inner w d n last (c ∷ cs) i after y b ((z, e, zs, bad), r) exts valid next names =
      rw (zs, bad) (candidates_stop inner w d n (some e) cs i after y b r exts valid next names)

  -- If the candidates before a valid issuer are rejected by the policy and the alternative names of
  -- that issuer are malformed, the search from the certificate ends with the error for them, whatever
  -- candidates come after it.
  build_chain_inner-stops :
      (fuel : ℕ) (w : Certificate) (d : ℕ) (x : Extensions) (n : NameChain) (b b' : Budget)
      (before : List Certificate) (i : Certificate) (after : List Certificate) (y : Extensions)
      (e : ValidationError E)
      → check_names {E = E} (get_extension x name_constraints_oid) n b ≡ (ok tt, b')
      → contains store w ≡ false
      → d ≤ policy.base.max_chain_depth
      → d + 1 < 256
      → potential_issuers store intermediates w ≡ before ++ i ∷ after
      → All (IsRejected ops intermediates policy store w d) before
      → extensions i ≡ ok y
      → valid_issuer ops policy i w d y ≡ ok tt
      → NameChain.new {E = E} (some n) y (cert_is_self_issued i) ≡ err e
      → build_chain_inner ops intermediates policy store (suc fuel) w d x n b ≡ (err e, b')
  unfolding build_chain_inner build_step extend ◌>>=◌
  build_chain_inner-stops fuel w d x n b b' before i after y e names other deep next split rejected
        exts valid bad =
      rw
        (
          names,
          other,
          le→ltb policy.base.max_chain_depth d deep,
          split,
          candidates_stop (build_chain_inner ops intermediates policy store fuel) w d n none before
              i after y b' rejected exts valid next bad,
        )
        refl
