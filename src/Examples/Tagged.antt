-- ===== src/Examples/Tagged.antt =====
-- Tags of a code that is the length of the message.
use cryptography.Prelude.{ℕ, ◌+◌, ◌≡◌, ◌↔◌, refl, some, [], ◌∷◌, length, list_eq, list_eq_iff}
use cryptography.Result.{ok, err}
use cryptography.Macs.{
  Engine, MacContext, mac_finalize, mac_verify, mac_update, already_finalized, generate_tag,
  verify_tag,
}
use cryptography.Macs.Verify.{verify_iff, verify_tag_iff}

abbrev counting : Engine
counting = record {
  Stack = ℕ;
  State = ℕ;
  update = λ bytes n. (n + length bytes, ok tt);
  finish = λ n. (n, ok (n ∷ []));
  finish_xof = λ size n. (n, ok (n ∷ []));
  copy = λ n. ok n;
  memcmp_eq = list_eq;
  memcmp_eq_iff = λ a b h. list_eq_iff a b;
}

abbrev running : MacContext counting
running = record { ctx = some 3 }

finished_test :
    (mac_update counting (1 ∷ []) (mac_finalize counting running).0).1 ≡ err already_finalized
unfolding mac_update mac_finalize
finished_test = refl

verify_iff_example :
    ((mac_verify counting (3 ∷ []) running).1 ≡ ok tt)
    ↔ ((mac_finalize counting running).1 ≡ ok (3 ∷ []))
verify_iff_example = verify_iff counting running (3 ∷ [])

verify_tag_iff_example :
    (verify_tag counting (λ key. ok 0) (1 ∷ []) (7 ∷ 8 ∷ []) (2 ∷ []) ≡ ok tt)
    ↔ (generate_tag counting (λ key. ok 0) (1 ∷ []) (7 ∷ 8 ∷ []) ≡ ok (2 ∷ []))
verify_tag_iff_example = verify_tag_iff counting (λ key. ok 0) (1 ∷ []) (7 ∷ 8 ∷ []) (2 ∷ [])
