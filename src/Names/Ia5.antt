-- ===== src/Names/Ia5.antt =====
-- `asn1::IA5String::new` of the asn1 crate: it takes a string if and only if all of it is ASCII.
use cryptography.Prelude.{Bool, ◌≡◌, all}
use cryptography.Str.{Str, is_ascii}

pub record Ia5 : Type 0 where
  pub accepts : Str → Bool
  pub accepts_ascii : (s : Str) → accepts s ≡ all is_ascii s

-- The documented behaviour can be met.
abbrev pub ascii_ia5 : Ia5
ascii_ia5 = record { accepts = all is_ascii; accepts_ascii = λ s i. all is_ascii s }
