-- ===== src/Verify/Chain/Sound.antt =====
-- The chains that the builder returns are certification paths.
use mathlib.Core.List.{Memᴰ, reverse-append}
use cryptography.Prelude.{
  ℕ, zero, suc, ◌+◌, ◌≤◌, ◌≡◌, refl, ap, ◌∙◌, inl, inr, true, false, Option, none, some, List, [],
  ◌∷◌, ◌++◌, reverse, ltb, ltb→le, Bool-cases,
}
use cryptography.Result.{ok, map_err, map_err-eq-ok}
use cryptography.Names.Ia5.{Ia5}
use cryptography.X509.Types.{NameConstraints}
use cryptography.X509.Certificate.{Certificate, Extension}
use cryptography.X509.Extensions.{Extensions, extensions, get_extension}
use cryptography.X509.Oid.{name_constraints_oid}
use cryptography.Verify.Asn1.{Asn1}
use cryptography.Verify.Errors.{ValidationError, of_duplicate, set_cert}
use cryptography.Verify.Budget.{Budget, Spending, pure, lift, ◌>>=◌, ◌>>◌}
use cryptography.Verify.Budget
use cryptography.Verify.Budget.Spend.{bind-eq-ok}
use cryptography.Verify.NameChain.{NameChain, evaluate_constraints}
use cryptography.Verify.NameChain
use cryptography.Verify.NameChain.Sound.{AllowsChain}
use cryptography.Verify.Store.{Store, contains}
use cryptography.Verify.Policy.Base.{CryptoOps}
use cryptography.Verify.Policy.{PolicyDefinition, permits_ee, valid_issuer}
use cryptography.Verify.Chain.{
  Build, cert_is_self_issued, potential_issuers, check_names, descend, candidates, extend,
  build_step, build_chain_inner, build_chain, verify,
}
use cryptography.Verify.Chain.Steps.{check_names_sound, attempt-eq-ok, descend-eq-ok}

module _ (E : Type 0) ⦃ia5 : Ia5⦄ ⦃asn1 : Asn1 E⦄ where
  -- The name constraints of the certificate, when it has some, allow the names of the chain.
  abbrev pub NamesHold : Extensions → NameChain → Type 0
  NamesHold exts names =
      (ext : Extension)
      → get_extension exts name_constraints_oid ≡ some ext
      → (c : NameConstraints) × (asn1.name_constraints ext.extn_value ≡ ok c)
        × AllowsChain E c names

module _ {E : Type 0} ⦃ia5 : Ia5⦄ ⦃asn1 : Asn1 E⦄ {K : Type 0} (ops : CryptoOps K)
    (intermediates : List Certificate) (policy : PolicyDefinition E) (store : Store) where
  -- A certification path, from the certificate at the given depth to a trusted one.
  pub data Certifies : Certificate → ℕ → Extensions → NameChain → List Certificate → Type 0 where
    anchor :
        {c : Certificate} {d : ℕ} {x : Extensions} {n : NameChain}
        → NamesHold E x n
        → contains store c ≡ true
        → Certifies c d x n (c ∷ [])
    issued :
        {c i : Certificate} {d : ℕ} {x y : Extensions} {n m : NameChain} {path : List Certificate}
        → NamesHold E x n
        → contains store c ≡ false
        → d ≤ policy.base.max_chain_depth
        → Memᴰ i (potential_issuers store intermediates c)
        → extensions i ≡ ok y
        → valid_issuer ops policy i c d y ≡ ok tt
        → NameChain.new {E = E} (some n) y (cert_is_self_issued i) ≡ ok m
        → Certifies i (d + 1) y m path
        → Certifies c d x n (c ∷ path)

module _ {E : Type 0} ⦃ia5 : Ia5⦄ ⦃asn1 : Asn1 E⦄ {K : Type 0} (ops : CryptoOps K)
    (intermediates : List Certificate) (policy : PolicyDefinition E) (store : Store) where
  -- What the calls that a certificate at depth `d` makes return.
  abbrev SoundBelow : Build E → ℕ → Type 0
  SoundBelow inner d =
      (i : Certificate) (y : Extensions) (m : NameChain) (b : Budget) (chain : List Certificate)
      → (inner i (d + 1) y m b).0 ≡ ok chain
      → Certifies ops intermediates policy store i (d + 1) y m (reverse chain)

  -- The candidate from which the chain goes on.
  abbrev Chosen : Certificate → ℕ → NameChain → List Certificate → List Certificate → Type 0
  Chosen w d n cs chain =
      (i : Certificate) × (y : Extensions) × (m : NameChain) × (below : List Certificate) × Memᴰ i
        cs
      × (extensions i ≡ ok y)
      × (valid_issuer ops policy i w d y ≡ ok tt)
      × (NameChain.new {E = E} (some n) y (cert_is_self_issued i) ≡ ok m)
      × Certifies ops intermediates policy store i (d + 1) y m (reverse below)
      × (chain ≡ below ++ w ∷ [])

  candidates_sound :
      (inner : Build E) (d : ℕ)
      → SoundBelow inner d
      → (w : Certificate) (n : NameChain) (last : Option (ValidationError E))
        (cs : List Certificate) (b : Budget) {chain : List Certificate}
      → (candidates ops intermediates policy store inner w d n last cs b).0 ≡ ok chain
      → Chosen w d n cs chain
  unfolding candidates
  candidates_sound inner d sound w n last [] b h = cc
  candidates_sound inner d sound w n last (i ∷ cs) b h =
      let (y, exts, k) = bind-eq-ok (lift (of_duplicate {E = E} (extensions i))) _ b h in
      elim (attempt-eq-ok (descend inner i y d n) w
        (λ e. candidates ops intermediates policy store inner w d n (some e) cs)
        (valid_issuer ops policy i w d y) b k) [
          | inl (call, below, valid, called, found, ends) ↦
              let (m, names, same) = descend-eq-ok inner i y d n called in
              (
                i,
                y,
                m,
                below,
                Memᴰ.head refl,
                map_err-eq-ok _ (extensions i) exts,
                valid,
                names,
                sound i y m b below (ap (λ call. (call b).0) same ∙ found),
                ends,
              )
          | inr (e, b', k') ↦
              let (i', y', m, below, mem, exts', valid, names, path, ends) =
                candidates_sound inner d sound w n (some e) cs b' k' in
              (i', y', m, below, Memᴰ.tail mem, exts', valid, names, path, ends)
        ]

  extend_sound :
      (inner : Build E) (d : ℕ)
      → SoundBelow inner d
      → (w : Certificate) (x : Extensions) (n : NameChain) (b : Budget) {chain : List Certificate}
      → NamesHold E x n
      → (extend ops intermediates policy store inner w d n b).0 ≡ ok chain
      → Certifies ops intermediates policy store w d x n (reverse chain)
  unfolding extend
  extend_sound inner d sound w x n b {chain = chain} hold h = elim (Bool-cases (contains store w)) [
    | inl trusted ↦
        let p : ok (w ∷ []) ≡ ok chain = rw trusted at h in
        let q : chain ≡ w ∷ [] = cc in rw q (anchor hold trusted)
    | inr untrusted ↦ elim (Bool-cases (ltb policy.base.max_chain_depth d)) [
      | inl deep ↦ cc (rw (untrusted, deep) at h)
      | inr shallow ↦
          let p : (candidates ops intermediates policy store inner w d n none
                (potential_issuers store intermediates w) b).0
              ≡ ok chain =
            rw (untrusted, shallow) at h in
          let (i, y, m, below, mem, exts, valid, names, path, ends) =
            candidates_sound inner d sound w n none (potential_issuers store intermediates w) b p in
          rw (ends, reverse-append below (w ∷ []))
            (issued hold untrusted (ltb→le policy.base.max_chain_depth d shallow) mem exts valid
              names path)
    ]
  ]

  build_chain_inner_sound :
      (fuel : ℕ) (w : Certificate) (d : ℕ) (x : Extensions) (n : NameChain) (b : Budget)
      (chain : List Certificate)
      → (build_chain_inner ops intermediates policy store fuel w d x n b).0 ≡ ok chain
      → Certifies ops intermediates policy store w d x n (reverse chain)
  unfolding build_chain_inner build_step
  build_chain_inner_sound zero w d x n b chain h = cc
  build_chain_inner_sound (suc fuel) w d x n b chain h =
      let inner : Build E = build_chain_inner ops intermediates policy store fuel in
      let (u, checked, rest) =
        bind-eq-ok (check_names (get_extension x name_constraints_oid) n)
          (λ _. extend ops intermediates policy store inner w d n) b h in
      extend_sound inner d (λ i y m b' c k. build_chain_inner_sound fuel i (d + 1) y m b' c k) w x n
        (check_names {E = E} (get_extension x name_constraints_oid) n b).1
        (check_names_sound (get_extension x name_constraints_oid) n b checked) rest

  Certifies-at :
      (w : Certificate) (d : ℕ) (x : Extensions) (n : NameChain) {p q : List Certificate}
      → q ≡ p
      → Certifies ops intermediates policy store w d x n p
      → Certifies ops intermediates policy store w d x n q
  Certifies-at w d x n e t = rw e t

  -- The leaf is well formed and permitted, and the chain is a path from it.
  abbrev pub IsAccepted : Certificate → List Certificate → Type 0
  IsAccepted w chain =
      (x : Extensions) × (n : NameChain) × (extensions w ≡ ok x)
      × (permits_ee policy w x ≡ ok tt)
      × (NameChain.new {E = E} none x false ≡ ok n)
      × Certifies ops intermediates policy store w 0 x n chain

  -- If `verify` returns a chain, the leaf's extensions are well formed and the policy permits it as an
  -- end entity, and the chain is a certification path from the leaf to a trusted certificate: each
  -- further certificate is a candidate that the policy accepts as the issuer of the one before, within
  -- the depth limit, and the name constraints on the path allow the names collected up to them.
  pub verify_sound :
      (w : Certificate) (chain : List Certificate)
      → verify ops intermediates policy store w ≡ ok chain
      → IsAccepted w chain
  unfolding verify build_chain
  verify_sound w chain h =
      let (x, exts, h1) = bind-eq-ok (lift (of_duplicate {E = E} (extensions w))) _ Budget.new h in
      let (u, permitted, h2) =
        bind-eq-ok (lift (map_err (set_cert w) (permits_ee policy w x))) _ Budget.new h1 in
      let (n, names, h3) = bind-eq-ok (lift (NameChain.new {E = E} none x false)) _ Budget.new h2 in
      let (built, inner, h4) =
        bind-eq-ok (build_chain_inner ops intermediates policy store 256 w 0 x n) _ Budget.new h3 in
      let q : chain ≡ reverse built = cc in
      (
        x,
        n,
        map_err-eq-ok _ (extensions w) exts,
        map_err-eq-ok _ (permits_ee policy w x) permitted,
        names,
        Certifies-at w 0 x n q (build_chain_inner_sound 256 w 0 x n Budget.new built inner),
      )
