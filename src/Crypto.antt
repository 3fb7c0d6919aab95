-- ===== src/Crypto.antt =====
-- src/babeltower/crypto.py: `verify` and `canonical_request_string`, over the libraries that they
-- call (base64, cryptography, hashlib, str.upper), which are parameters.
use babeltower.Prelude.{ℕ, String, ◌<>◌, Option, none, some, Bool, false, List}

-- `b64decode` is with `validate=True`: none is a ValueError. `check key signature message` is
-- `Ed25519PublicKey.from_public_bytes(key).verify(signature, message)`: false is InvalidSignature or
-- a ValueError of a malformed key.
pub record CryptoLib : Type 0 where
  pub b64decode : String → Option (List ℕ)
  pub encode : String → List ℕ
  pub check : List ℕ → List ℕ → List ℕ → Bool
  pub sha256_hex : String → String
  pub upper : String → String

module _ (lib : CryptoLib) where
  open lib use {b64decode, encode, check, sha256_hex, upper}

  unfoldable pub verify : String → List ℕ → String → Bool
  verify public_key_b64 message signature_b64 = elim (b64decode public_key_b64) [
    | none ↦ false
    | some key ↦ elim (b64decode signature_b64) [
      | none ↦ false
      | some signature ↦ check key signature message
    ]
  ]

  unfoldable pub canonical_request_string : String → String → String → String → List ℕ
  canonical_request_string method path timestamp body =
      encode (upper method <> "\n" <> path <> "\n" <> timestamp <> "\n" <> sha256_hex body)
