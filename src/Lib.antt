-- ===== src/Lib.antt =====
-- Verification of the Rust code below src/rust: X.509 path validation, which is the crates
-- src/rust/cryptography-x509-verification and (for the data types) src/rust/cryptography-x509; four parts
-- of the extension module, src/rust/src, which are block padding, the parser of signed certificate
-- timestamps, the cipher contexts and the contexts of hashes and message authentication codes; and the key
-- derivations of the crate src/rust/cryptography-crypto. The paths below are within the first crate, but for
-- those of the module X509, which are within the second one's src, and those of the other parts, which are
-- written out.
--
-- Path validation takes a leaf certificate, intermediate certificates, a policy and a store of trusted
-- certificates, and returns a chain from the leaf to a trusted certificate or an error. The other parts
-- stand by themselves and are called from Python: the contexts are objects that keep a state between calls.
--
-- Parts and files:
--   Prelude      Boolean tests on the native numbers, lists, case splits; library names passed on.
--   Result       Rust's Result and `?`.
--   Str, Words   what the program calls of Rust's str, u8, u32 and u128: a string is the list of its
--                bytes, an octet a number below 256, and a word's width is written out.
--   Names        src/types.rs of the verification crate. Names.Dns: DNSName, DNSPattern and
--                DNSConstraint; Names.Ip: IPAddress and IPConstraint; Names.Rfc822: RFC822Name and
--                RFC822Constraint. `DNSName::new` is `Dns.new`, `matches` is `constraint_matches` or
--                `pattern_matches`, PartialEq is `eq`. Their children describe the names by labels and
--                the addresses by the numbers that they stand for.
--   X509         certificate.rs, common.rs, name.rs, oid.rs and extensions.rs of the x509 crate: the
--                types that path validation reads, and Extensions with its duplicate check.
--   Verify.Errors, Verify.Budget, Verify.NameChain, Verify.Chain
--                src/lib.rs: ValidationError, Budget, NameChain, and `verify` with ChainBuilder.
--                `&mut Budget` is a state that each action takes and returns, also with an error.
--                `build_chain_inner` of the model is split into `check_names`, `extend`, `candidates`,
--                `attempt` and `descend`, which follow the body from its top to its innermost call.
--                `descend` evaluates the arguments of that call; an error of a `?` in them returns from the
--                function, so `attempt` does not hand it to the next candidate.
--   Verify.Store src/trust_store.rs, its hash map an association list.
--   Verify.Policy and its children
--                src/policy/mod.rs and src/policy/extension.rs: PolicyDefinition, the tests on a
--                certificate, the validators of extensions and the default WebPKI policies.
--   Verify.Asn1, Verify.Policy.Base, Names.Ia5
--                what the program calls of other crates, as records that the definitions take: the
--                decoders of the asn1 crate, the trait CryptoOps, and IA5String::new. The laws that are
--                assumed stand in the records: IA5String::new takes a string if and only if all of it
--                is ASCII, and an empty SEQUENCE decodes to no names.
--   Padding      src/rust/src/padding.rs. A context is a record and a method returns the context that it
--                leaves beside its result, also when it raises. The contexts of PKCS #7 and ANSI X9.23 have
--                the same fields and the same `update`, so `pad_update` and `unpad_update` stand for both;
--                a `usize` has 64 bits. `none` and `panic` are Rust's panics, also those of arithmetic that
--                overflows, since Cargo.toml sets overflow-checks for the build.
--   Sct          src/rust/src/x509/sct.rs. A reader is the list of the bytes left. Sct.Grammar describes the
--                format by itself, without the parser.
--   Ciphers      src/rust/src/backend/ciphers.rs. Ciphers.Base has its parameters and errors, Ciphers.Context
--                CipherContext, Ciphers.Python PyCipherContext, Ciphers.Aead the two AEAD contexts with what
--                they share as AeadContext, and Ciphers.Create the functions that make and advance them.
--                Ciphers.Calls is about sequences of calls.
--   Kdf          encoding.rs, pbkdf1.rs and pkcs12.rs of src/rust/cryptography-crypto/src: hex_decode,
--                openssl_kdf and kdf. MessageDigest is OpenSSL's hash, a parameter; the units that
--                encode_utf16 gives are an argument of kdf.
--   Macs         hashes.rs, hmac.rs, cmac.rs and poly1305.rs of src/rust/src/backend. MacContext stands for
--                Hash, Hmac, Cmac and Poly1305 by the one field that changes; `mac_update` and the like are
--                the methods that the first three share, and `hash_finalize` and `poly_finalize` differ.
--                Engine is OpenSSL's context, a parameter, with the law that memcmp::eq compares.
--   Examples     concrete certificates, decoders, names, messages and a cipher that copies its input, on
--                which the definitions run.
--
-- Fuel: the recursion of `build_chain_inner` has fuel of 256 rounds. Its depth is a u8 that grows by
-- `checked_add` in each call, so the recursion ends before the fuel does. The loop over a list of
-- timestamps has a round for each byte of it, and a round reads at least two. The loops of Kdf have a round
-- for each byte of the key, and a round adds a byte or more where the digests have any; kdf has one more.
--
-- Parameters of Ciphers: OpenSSL's context and the registry of ciphers, as the record Openssl, and the
-- attributes of the Python mode and algorithm, as the records Mode and Algorithm. The record Buffers states
-- what EVP_CipherUpdate documents: a context holds back less than a block, and writes no more than it held
-- back and was given. The buffer that a failed update_into leaves is not modelled.
--
-- Not modelled: the encodings of the asn1 crate and the cryptography behind CryptoOps (parameters);
-- Display and Debug; the caches and `extra` payloads of VerificationCertificate and Policy;
-- IPAddress::from_str, which wraps the standard library; XOFHash and the constructors of Hash, Hmac and
-- Cmac; the hash of a timestamp and the getters that look up a Python object; the other Python bindings, the
-- OpenSSL bindings, the parsing of keys, and the structures for CRL, CSR, OCSP and PKCS, which hold no
-- validation logic.
pub mod Prelude
pub mod Str
pub mod Words
pub mod Names
pub mod Result
pub mod X509
pub mod Verify
pub mod Padding
pub mod Sct
pub mod Ciphers
pub mod Kdf
pub mod Macs
pub mod Examples
