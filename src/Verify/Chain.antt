-- ===== src/Verify/Chain.antt =====
-- src/rust/cryptography-x509-verification/src/lib.rs: ChainBuilder and `verify`, with
-- certificate.rs. A VerificationCertificate is its certificate: its payload is never read, and its
-- key is a cache.
pub mod Steps
pub mod Sound
pub mod Fuel
pub mod Frugal
pub mod Finds
pub mod Stops
use cryptography.Prelude.{
  ℕ, zero, suc, ◌+◌, Bool, true, false, Option, none, some, List, [], ◌∷◌, ◌++◌, reverse,
  if◌then◌else◌, ltb,
}
use cryptography.Result.{Result, ok, err, map_err, ◌>>=◌ as ◌>>=?◌}
use cryptography.Names.Ia5.{Ia5}
use cryptography.X509.Oid.{name_constraints_oid}
use cryptography.X509.Types.{Name}
use cryptography.X509.Certificate.{Certificate, Extension}
use cryptography.X509.Extensions.{Extensions, get_extension, extensions}
use cryptography.Verify.Asn1.{Asn1}
use cryptography.Verify.Errors.{
  ValidationError, error, ValidationResult, candidates_exhausted, fatal_error, other, text, new,
  fail, of_parse_error, of_duplicate, set_cert,
}
use cryptography.Verify.Budget.{Budget, Spending, pure, lift, continue, ◌>>=◌, ◌>>◌}
use cryptography.Verify.Budget
use cryptography.Verify.NameChain.{NameChain, evaluate_constraints}
use cryptography.Verify.NameChain
use cryptography.Verify.Store.{Store, name_eq, get_by_subject, contains}
use cryptography.Verify.Policy.Base.{CryptoOps}
use cryptography.Verify.Policy.{PolicyDefinition, permits_ee, valid_issuer}

unfoldable pub cert_is_self_issued : Certificate → Bool
unfolding name_eq
cert_is_self_issued cert = name_eq cert.tbs_cert.issuer cert.tbs_cert.subject

-- u8::checked_add
unfoldable pub checked_add_u8 : ℕ → ℕ → Option ℕ
checked_add_u8 a b = if ltb (a + b) 256 then some (a + b) else none

-- The intermediates whose subject is the issuer that is looked for.
unfoldable pub issued_as : Name → List Certificate → List Certificate
unfolding name_eq
issued_as issuer [] = []
issued_as issuer (candidate ∷ rest) =
    let found = issued_as issuer rest in
    if name_eq candidate.tbs_cert.subject issuer then candidate ∷ found else found

-- The trusted certificates come before the intermediates.
unfoldable pub potential_issuers : Store → List Certificate → Certificate → List Certificate
unfolding issued_as
potential_issuers store intermediates cert =
    get_by_subject store cert.tbs_cert.issuer ++ issued_as cert.tbs_cert.issuer intermediates

module _ {E : Type 0} where
  -- The error after the loop, which does not nest `CandidatesExhausted`.
  unfoldable pub exhausted : Option (ValidationError E) → ValidationError E
  exhausted none =
      new (
        candidates_exhausted
          (new (other (text "all candidates exhausted with no interior errors"))))
  exhausted (some (error (candidates_exhausted e) c)) = new (candidates_exhausted e)
  exhausted (some e) = new (candidates_exhausted e)

  -- The match on what a recursive call returned: a chain is extended, a fatal error is returned at
  -- once, and any other error is handed on.
  unfoldable pub after_issuer :
      Certificate
      → (ValidationError E → Spending E (List Certificate))
      → ValidationResult E (List Certificate)
      → Spending E (List Certificate)
  after_issuer working_cert next (ok chain) = pure (chain ++ working_cert ∷ [])
  after_issuer working_cert next (err (error (fatal_error m) c)) =
      lift (err (error (fatal_error m) c))
  after_issuer working_cert next (err e) = next e

  unfoldable pub recover :
      {A B : Type 0} → Spending E A → (ValidationResult E A → Spending E B) → Spending E B
  recover m k b = let (r, b') = m b in k r b'

  abbrev pub depth_of : Option ℕ → ValidationResult E ℕ
  depth_of none = fail (other (text "current depth calculation overflowed"))
  depth_of (some d) = ok d

-- The type of `build_chain_inner`.
abbrev pub Build : Type 0 → Type 0
Build E = Certificate → ℕ → Extensions → NameChain → Spending E (List Certificate)

module _ {E : Type 0} where
  abbrev pub out_of_fuel : Build E
  out_of_fuel working_cert current_depth working_cert_extensions name_chain =
      lift (fail (other (text "out of fuel")))

  -- The match on whether a candidate is a valid issuer: then `call` is the recursive call, or the error
  -- of a `?` in its arguments, which ends the loop. `next` goes on with the other candidates after an
  -- error of the policy or of what the call returned.
  unfoldable pub attempt :
      ValidationResult E (Spending E (List Certificate))
      → Certificate
      → (ValidationError E → Spending E (List Certificate))
      → ValidationResult E (Unit {0})
      → Spending E (List Certificate)
  unfolding recover after_issuer
  attempt (ok call) working_cert next (ok _) = recover call (after_issuer working_cert next)
  attempt (err e) working_cert next (ok _) = lift (err e)
  attempt call working_cert next (err e) = next e

module _ {E : Type 0} ⦃ia5 : Ia5⦄ ⦃asn1 : Asn1 E⦄ where
  -- `if let Some(nc) = extensions.get_extension(&NAME_CONSTRAINTS_OID)`
  unfoldable pub check_names : Option Extension → NameChain → Spending E (Unit {0})
  unfolding ◌>>=◌
  check_names none name_chain = pure tt
  check_names (some nc) name_chain = do
    constraints ← lift (of_parse_error (asn1.name_constraints nc.extn_value))
    evaluate_constraints name_chain constraints

module _ {E : Type 0} ⦃asn1 : Asn1 E⦄ where
  -- The recursive call for one candidate that is a valid issuer, with its arguments evaluated.
  unfoldable pub descend :
      Build E
      → Certificate
      → Extensions
      → ℕ
      → NameChain
      → ValidationResult E (Spending E (List Certificate))
  descend inner issuer issuer_extensions current_depth name_chain =
      depth_of (checked_add_u8 current_depth 1) >>=? λ depth.
      NameChain.new (some name_chain) issuer_extensions (cert_is_self_issued issuer) >>=? λ names.
      ok (inner issuer depth issuer_extensions names)

module _ {E : Type 0} ⦃ia5 : Ia5⦄ ⦃asn1 : Asn1 E⦄ {K : Type 0} (ops : CryptoOps K)
    (intermediates : List Certificate) (policy : PolicyDefinition E) (store : Store) where
  -- The loop over the candidates, with the last error.
  unfoldable pub candidates :
      Build E
      → Certificate
      → ℕ
      → NameChain
      → Option (ValidationError E)
      → List Certificate
      → Spending E (List Certificate)
  unfolding attempt descend ◌>>=◌
  candidates inner working_cert current_depth name_chain last_err [] =
      lift (err (exhausted last_err))
  candidates inner working_cert current_depth name_chain last_err (issuer ∷ rest) = do
    issuer_extensions ← lift (of_duplicate (extensions issuer))
    attempt (descend inner issuer issuer_extensions current_depth name_chain) working_cert
        (λ e. candidates inner working_cert current_depth name_chain (some e) rest)
        (valid_issuer ops policy issuer working_cert current_depth issuer_extensions)

  -- The body behind the name constraints: the root test comes before the depth test.
  unfoldable pub extend : Build E → Certificate → ℕ → NameChain → Spending E (List Certificate)
  unfolding candidates
  extend inner working_cert current_depth name_chain =
      if contains store working_cert
      then pure (working_cert ∷ [])
      else if ltb policy.base.max_chain_depth current_depth
      then lift (fail (other (text "chain construction exceeds max depth")))
      else candidates inner working_cert current_depth name_chain none
          (potential_issuers store intermediates working_cert)

  -- One call of the recursive function, given the function for the calls that it makes.
  unfoldable pub build_step : Build E → Build E
  unfolding extend check_names ◌>>=◌
  build_step inner working_cert current_depth working_cert_extensions name_chain = do
    check_names (get_extension working_cert_extensions name_constraints_oid) name_chain
    extend inner working_cert current_depth name_chain

  -- The recursion has fuel; 256 rounds are enough, since the depth is a u8 that grows in each call.
  unfoldable pub build_chain_inner : ℕ → Build E
  unfolding build_step
  build_chain_inner zero = out_of_fuel
  build_chain_inner (suc fuel) = build_step (build_chain_inner fuel)

  unfoldable pub build_chain : Certificate → Spending E (List Certificate)
  unfolding build_chain_inner ◌>>=◌
  build_chain leaf = do
    leaf_extensions ← lift (of_duplicate (extensions leaf))
    lift (map_err (set_cert leaf) (permits_ee policy leaf leaf_extensions))
    leaf_names ← lift (NameChain.new none leaf_extensions false)
    chain ← build_chain_inner 256 leaf 0 leaf_extensions leaf_names
    pure (reverse chain)

  unfoldable pub verify : Certificate → ValidationResult E (List Certificate)
  unfolding build_chain
  verify leaf = (build_chain leaf Budget.new).0
