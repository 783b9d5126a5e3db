-- ===== src/Examples/Derived.antt =====
-- Hexadecimal strings, and keys derived with a hash of four bytes.
use cryptography.Prelude.{
  ℕ, ◌+◌, ◌%◌, ◌^◌, ◌≡◌, ◌↔◌, refl, arith, some, List, [], ◌∷◌, length, take, map, All,
}
use cryptography.Result.{ok}
use cryptography.Str.{to_ascii_lowercase}
use cryptography.Words.{from_be_bytes}
use cryptography.Words.Bytes.{IsByte}
use cryptography.Kdf.{hex_decode, MessageDigest, openssl_kdf, add_block, kdf, kdf_mac_key_id}
use cryptography.Kdf.Hex.{hex_decode_iff, hex_encode}
use cryptography.Kdf.Legacy.{openssl_kdf-digests, digests}
use cryptography.Kdf.Blocks.{add_block-value, kdf-length}

-- "aB0f"
abbrev text : List ℕ
text = 97 ∷ 66 ∷ 48 ∷ 102 ∷ []

hex_test : hex_decode text ≡ some (171 ∷ 15 ∷ [])
unfolding hex_decode
hex_test = refl

hex_decode_iff_example :
    (hex_decode text ≡ some (171 ∷ 15 ∷ []))
    ↔ (All IsByte (171 ∷ 15 ∷ []) × (map to_ascii_lowercase text ≡ hex_encode (171 ∷ 15 ∷ [])))
hex_decode_iff_example = hex_decode_iff text (171 ∷ 15 ∷ [])

abbrev mix : List ℕ → List ℕ
mix m = length m % 256 ∷ 1 ∷ 2 ∷ 3 ∷ []

abbrev digest : MessageDigest ℕ
digest = record { size = 4; block_size = 8; hash = λ m. ok (mix m) }

openssl_kdf-digests_example :
    openssl_kdf ℕ digest (7 ∷ []) (8 ∷ 9 ∷ []) 6
    ≡ ok (take 6 (digests mix (7 ∷ []) (8 ∷ 9 ∷ []) 6 []))
openssl_kdf-digests_example =
    openssl_kdf-digests ℕ digest mix (λ m. refl) (λ m. refl) (omega arith) (7 ∷ []) (8 ∷ 9 ∷ []) 6

key_test : take 6 (digests mix (7 ∷ []) (8 ∷ 9 ∷ []) 6 []) ≡ 3 ∷ 1 ∷ 2 ∷ 3 ∷ 7 ∷ 1 ∷ []
key_test = refl

add_block-value_example :
    (length (add_block (1 ∷ 255 ∷ []) (0 ∷ 1 ∷ [])) ≡ 2)
    × (from_be_bytes (add_block (1 ∷ 255 ∷ []) (0 ∷ 1 ∷ []))
        ≡ (from_be_bytes (1 ∷ 255 ∷ []) + from_be_bytes (0 ∷ 1 ∷ []) + 1) % 256 ^ 2)
add_block-value_example = add_block-value (1 ∷ 255 ∷ []) (0 ∷ 1 ∷ []) refl

kdf-length_example :
    (key : List ℕ) × (kdf ℕ (112 ∷ 119 ∷ []) (1 ∷ 2 ∷ []) kdf_mac_key_id 5 7 digest ≡ ok key)
    × (length key ≡ 7)
kdf-length_example =
    kdf-length ℕ digest mix (λ m. refl) (λ m. refl) (omega arith) (omega arith) (112 ∷ 119 ∷ [])
      (1 ∷ 2 ∷ []) kdf_mac_key_id 5 7
