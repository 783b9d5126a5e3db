-- ===== src/Verify/Errors.antt =====
-- src/rust/cryptography-x509-verification/src/lib.rs: ValidationError.
use Prim.Native.String.{String}
use cryptography.Prelude.{Option, none, some}
use cryptography.Str.{Str}
use cryptography.Result.{Result, err, map_err}
use cryptography.X509.Oid.{Oid}
use cryptography.X509.Types.{AlgorithmIdentifier}
use cryptography.X509.Certificate.{Certificate}
use cryptography.X509.Extensions.{DuplicateExtensionsError}

-- A `String` of the source: a literal, or a format with the value that it shows.
pub data Message : Type 0 where
  text : String → Message
  shows_bytes : String → Str → Message
  shows_algorithm : String → AlgorithmIdentifier → Message

mutual
  pub data ValidationErrorKind (E : Type 0) : Type 0 where
    candidates_exhausted : ValidationError E → ValidationErrorKind E
    malformed : E → ValidationErrorKind E
    extension_error : Oid → String → ValidationErrorKind E
    fatal_error : String → ValidationErrorKind E
    other : Message → ValidationErrorKind E

  pub data ValidationError (E : Type 0) : Type 0 where
    error : ValidationErrorKind E → Option Certificate → ValidationError E

abbrev pub ValidationResult : Type 0 → Type 0 → Type 0
ValidationResult E A = Result (ValidationError E) A

module _ {E : Type 0} where
  abbrev pub new : ValidationErrorKind E → ValidationError E
  new kind = error kind none

  abbrev pub kind : ValidationError E → ValidationErrorKind E
  kind (error k c) = k

  abbrev pub set_cert : Certificate → ValidationError E → ValidationError E
  set_cert cert (error k c) = error k (some cert)

  -- Err(ValidationError::new(..)), and the two conversions that `?` applies.
  abbrev pub fail {ℓ} : {A : Type ℓ} → ValidationErrorKind E → Result (ValidationError E) A
  fail k = err (new k)

  abbrev pub of_parse_error {ℓ} : {A : Type ℓ} → Result E A → Result (ValidationError E) A
  of_parse_error = map_err (λ e. new (malformed e))

  abbrev pub of_duplicate {ℓ} :
      {A : Type ℓ} → Result DuplicateExtensionsError A → Result (ValidationError E) A
  of_duplicate = map_err (λ e. new (extension_error e.oid "duplicate extension"))
