-- ===== src/Examples/Padded.antt =====
-- Padding at concrete messages.
use cryptography.Prelude.{
  ℕ, ◌*◌, ◌%◌, ◌<◌, ◌≡◌, refl, arith, Bool, true, List, [], ◌∷◌, ◌++◌, length, some, ◌↔◌,
}
use cryptography.Result.{ok, err}
use cryptography.Padding.{
  already_finalized, PaddingContext, UnpaddingContext, check_pkcs7_padding, check_ansix923_padding,
  constant_time_lt, duplicate_msb_to_all, pad_update, unpad_update, new_unpadding,
}
use cryptography.Padding.Pkcs7.{check_pkcs7_padding_iff, IsPkcs7Padded}
use cryptography.Padding.Ansix923.{check_ansix923_padding_iff, IsAnsix923Padded}
use cryptography.Padding.Streams.{run, feed}
use cryptography.Padding.Schemes.{pkcs7, finalize_padding, finalize_unpadding}
use cryptography.Padding.Contexts.{
  run-padding, unpadding-padding, unpad_update-Keeps, feed-pieces, finalized-raises,
}

abbrev message : List (List ℕ)
message = (1 ∷ 2 ∷ []) ∷ (3 ∷ 4 ∷ 5 ∷ []) ∷ []

abbrev cut : List (List ℕ)
cut = (1 ∷ []) ∷ (2 ∷ 3 ∷ 4 ∷ 5 ∷ 3 ∷ 3 ∷ []) ∷ (3 ∷ []) ∷ []

-- The test suite's cases of the constant-time comparison.
lt_test : constant_time_lt 3 200 ≡ 255
unfolding constant_time_lt duplicate_msb_to_all
lt_test = refl

ge_test : constant_time_lt 200 200 ≡ 0
unfolding constant_time_lt duplicate_msb_to_all
ge_test = refl

check_pkcs7_padding_iff_example :
    (b : Bool) × (check_pkcs7_padding (9 ∷ 2 ∷ 2 ∷ []) ≡ some b)
    × ((b ≡ true) ↔ IsPkcs7Padded (9 ∷ 2 ∷ 2 ∷ []))
check_pkcs7_padding_iff_example =
    check_pkcs7_padding_iff (9 ∷ 2 ∷ 2 ∷ []) (omega arith) (omega arith)
      (omega arith, (omega arith, (omega arith, tt)))

check_ansix923_padding_iff_example :
    (b : Bool) × (check_ansix923_padding (9 ∷ 0 ∷ 2 ∷ []) ≡ some b)
    × ((b ≡ true) ↔ IsAnsix923Padded (9 ∷ 0 ∷ 2 ∷ []))
check_ansix923_padding_iff_example =
    check_ansix923_padding_iff (9 ∷ 0 ∷ 2 ∷ []) (omega arith) (omega arith)
      (omega arith, (omega arith, (omega arith, tt)))

unpadding-padding_example :
    run unpad_update (finalize_unpadding pkcs7) cut (new_unpadding 32) ≡ ok (1 ∷ 2 ∷ 3 ∷ 4 ∷ 5 ∷ [])
unpadding-padding_example =
    unpadding-padding pkcs7 32 message cut (omega arith) (omega arith) (omega arith)
      (omega arith, (omega arith, (omega arith, (omega arith, (omega arith, tt)))))
      (run-padding pkcs7 32 message (omega arith) (omega arith) (omega arith)
        (omega arith, (omega arith, (omega arith, (omega arith, (omega arith, tt))))))

unpad_update-Keeps_example :
    (out : List ℕ) × (rest : List ℕ) × (unpad_update
        (record { block_size = 2; buffer = some (1 ∷ 2 ∷ []) })
        (3 ∷ 4 ∷ 5 ∷ [])
      ≡ (record { block_size = 2; buffer = some rest }, ok out))
    × (out ++ rest ≡ 1 ∷ 2 ∷ 3 ∷ 4 ∷ 5 ∷ [])
    × (length out % 2 ≡ 0)
    × (length rest < 2 * 2)
unpad_update-Keeps_example = unpad_update-Keeps 2 (1 ∷ 2 ∷ []) (3 ∷ 4 ∷ 5 ∷ []) (omega arith)

feed-pieces_example :
    feed unpad_update message (record { block_size = 2; buffer = some (0 ∷ []) })
    ≡ unpad_update (record { block_size = 2; buffer = some (0 ∷ []) }) (1 ∷ 2 ∷ 3 ∷ 4 ∷ 5 ∷ [])
feed-pieces_example = feed-pieces 2 message (0 ∷ []) (omega arith) (omega arith)

abbrev open_padding : PaddingContext
open_padding = record { block_size = 2; length_seen = some 3 }

abbrev open_unpadding : UnpaddingContext
open_unpadding = record { block_size = 2; buffer = some (7 ∷ 1 ∷ []) }

finalized-raises_example :
    (let c' = (finalize_padding pkcs7 open_padding).0 in
      (pad_update c' (1 ∷ []) ≡ (c', err already_finalized))
      × (finalize_padding pkcs7 c' ≡ (c', err already_finalized)))
    × (let u' = (finalize_unpadding pkcs7 open_unpadding).0 in
        (unpad_update u' (1 ∷ []) ≡ (u', err already_finalized))
        × (finalize_unpadding pkcs7 u' ≡ (u', err already_finalized)))
finalized-raises_example = finalized-raises pkcs7 open_padding open_unpadding (1 ∷ [])
