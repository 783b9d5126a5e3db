-- ===== src/Verify/Chain/Finds.antt =====
-- A path is found when at each step the candidates before its next certificate are rejected.
use cryptography.Prelude.{ℕ, ◌+◌, ◌≤◌, ◌<◌, ◌≡◌, true, false, some, List, [], ◌∷◌, ◌++◌, All}
use cryptography.Result.{ok, err}
use cryptography.Names.Ia5.{Ia5}
use cryptography.X509.Certificate.{Certificate}
use cryptography.X509.Extensions.{Extensions, extensions, get_extension}
use cryptography.X509.Oid.{name_constraints_oid}
use cryptography.Verify.Asn1.{Asn1}
use cryptography.Verify.Errors.{ValidationError}
use cryptography.Verify.Budget.{Budget, ◌>>◌}
use cryptography.Verify.Budget
use cryptography.Verify.NameChain.{NameChain}
use cryptography.Verify.NameChain
use cryptography.Verify.Store.{Store, contains}
use cryptography.Verify.Policy.Base.{CryptoOps}
use cryptography.Verify.Policy.{PolicyDefinition, valid_issuer}
use cryptography.Verify.Chain.{cert_is_self_issued, potential_issuers, check_names}

module _ {E : Type 0} ⦃ia5 : Ia5⦄ ⦃asn1 : Asn1 E⦄ {K : Type 0} (ops : CryptoOps K)
    (intermediates : List Certificate) (policy : PolicyDefinition E) (store : Store) where
  -- The candidate has extensions without duplicates, and the policy rejects it.
  abbrev pub IsRejected : Certificate → ℕ → Certificate → Type 0
  IsRejected w d i =
      (y : Extensions) × (e : ValidationError E) × (extensions i ≡ ok y)
      × (valid_issuer ops policy i w d y ≡ err e)

  -- The path that is found from a certificate, the root first, with the budget before and after.
  pub data Finds
      : Certificate → ℕ → Extensions → NameChain → Budget → List Certificate → Budget → Type 0 where
    trusted :
        {c : Certificate} {d : ℕ} {x : Extensions} {n : NameChain} {b b' : Budget}
        → check_names {E = E} (get_extension x name_constraints_oid) n b ≡ (ok tt, b')
        → contains store c ≡ true
        → Finds c d x n b (c ∷ []) b'
    through :
        {c : Certificate} {d : ℕ} {x : Extensions} {n : NameChain} {b b1 b' : Budget}
        (before : List Certificate) (i : Certificate) (after : List Certificate) {y : Extensions}
        {m : NameChain} {path : List Certificate}
        → check_names {E = E} (get_extension x name_constraints_oid) n b ≡ (ok tt, b1)
        → contains store c ≡ false
        → d ≤ policy.base.max_chain_depth
        → d + 1 < 256
        → potential_issuers store intermediates c ≡ before ++ i ∷ after
        → All (IsRejected c d) before
        → extensions i ≡ ok y
        → valid_issuer ops policy i c d y ≡ ok tt
        → NameChain.new {E = E} (some n) y (cert_is_self_issued i) ≡ ok m
        → Finds i (d + 1) y m b1 path b'
        → Finds c d x n b (path ++ c ∷ []) b'
