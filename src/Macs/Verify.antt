-- ===== src/Macs/Verify.antt =====
-- What `verify` accepts.
use cryptography.Prelude.{
  ℕ, ◌≡◌, refl, ◌∙◌, ap, true, List, length, ◌==◌, ==_iff, Bool-cases, inl, inr, ◌↔◌,
}
use cryptography.Result.{Result, ok, ◌>>=◌, >>=-elim, >>=-ok}
use cryptography.Macs.{
  Engine, Error, MacContext, check_mac, mac_finalize, mac_verify, poly_finalize, poly_verify,
  poly_new, mac_update, generate_tag, verify_tag,
}

module _ (engine : Engine) where
  check_mac-eq : (tag : List ℕ) → check_mac engine tag tag ≡ ok tt
  unfolding check_mac
  check_mac-eq tag =
      let long : (length tag == length tag) ≡ true = (==_iff (length tag) (length tag)).1 refl in
      let same : engine.memcmp_eq tag tag ≡ true = (engine.memcmp_eq_iff tag tag refl).1 refl in
      rw (check_mac, long, same) refl

  check_mac_sound :
      (actual signature : List ℕ) → check_mac engine actual signature ≡ ok tt → actual ≡ signature
  unfolding check_mac
  check_mac_sound actual signature h = elim (Bool-cases (length actual == length signature)) [
    | inr e ↦ absurd (let refused = rw (check_mac, e) at h in (cc))
    | inl e ↦ elim (Bool-cases (engine.memcmp_eq actual signature)) [
      | inr d ↦ absurd (let refused = rw (check_mac, e, d) at h in (cc))
      | inl same ↦
          (engine.memcmp_eq_iff actual signature
              ((==_iff (length actual) (length signature)).0 e)).0
            same
    ]
  ]

  compared :
      (m : Result (Error engine) (List ℕ)) (signature : List ℕ)
      → ((m >>= λ actual. check_mac engine actual signature) ≡ ok tt) ↔ (m ≡ ok signature)
  compared m signature = (
    λ h.
        >>=-elim m h
          λ actual given checked. given ∙ ap ok (check_mac_sound actual signature checked),
    λ h. >>=-ok m _ h (check_mac-eq signature),
  )

-- On an Hmac or Cmac context, `verify` succeeds for a signature if and only if `finalize` succeeds with just
-- that signature.
pub verify_iff :
    (engine : Engine) (c : MacContext engine) (signature : List ℕ)
    → ((mac_verify engine signature c).1 ≡ ok tt) ↔ ((mac_finalize engine c).1 ≡ ok signature)
unfolding mac_verify
verify_iff engine c signature = compared engine (mac_finalize engine c).1 signature

-- Poly1305::verify_tag accepts a tag for a key and data if and only if Poly1305::generate_tag gives that tag
-- for them, whatever makes the inner contexts.
pub verify_tag_iff :
    (engine : Engine) (inner : List ℕ → Result (Error engine) (engine.State))
    (key bytes tag : List ℕ)
    → (verify_tag engine inner key bytes tag ≡ ok tt)
      ↔ (generate_tag engine inner key bytes ≡ ok tag)
unfolding verify_tag generate_tag poly_verify
verify_tag_iff engine inner key bytes tag = (
  λ h. >>=-elim (poly_new engine inner key) h λ p made h.
      let r = mac_update engine bytes p in
      >>=-elim (r.1) h λ _ updated h.
        >>=-ok (poly_new engine inner key) _ made
          (>>=-ok (r.1) _ updated ((compared engine (poly_finalize engine (r.0)).1 tag).0 h)),
  λ h. >>=-elim (poly_new engine inner key) h λ p made h.
      let r = mac_update engine bytes p in
      >>=-elim (r.1) h λ _ updated h.
        >>=-ok (poly_new engine inner key) _ made
          (>>=-ok (r.1) _ updated ((compared engine (poly_finalize engine (r.0)).1 tag).1 h)),
)
