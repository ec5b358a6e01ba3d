-- ===== src/Crypto.antt =====
-- What the program takes from the crates blake3 and k256, as a parameter of the models.
use klomang_network.Prelude.{ℕ, Bool, List}

-- A digest is a number below 2 ^ 256, so that the order of `Hash` is the order of numbers.
pub record Crypto : Type 0 where
  -- `blake3::Hasher`, on the bytes given to it
  pub blake3 : List ℕ → ℕ
  -- `VerifyingKey::from_bytes` and `Signature::try_from` accept the bytes
  pub is_verifying_key : List ℕ → Bool
  pub is_signature : List ℕ → Bool
  -- `VerifyingKey::verify`: key, message digest, signature
  pub verify : List ℕ → ℕ → List ℕ → Bool
