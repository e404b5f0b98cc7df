-- ===== src/Crypto.antt =====
-- The crate ed25519_dalek as an interface: what the program calls of it, and what it relies on.
-- A signing key is its 32-byte seed, a verifying key its 32 bytes, a signature its 64 bytes.
use sqns.Base.{◌≡◌, Bool, true}
use sqns.Bytes.{Bytes, IsArray}

pub record Ed25519 : Type 0 where
  -- `VerifyingKey::from_bytes(key).is_ok()`
  pub is_valid_key : Bytes → Bool
  -- `key.verify(message, signature).is_ok()`
  pub verifies : Bytes → Bytes → Bytes → Bool
  pub public_key : Bytes → Bytes
  pub sign_bytes : Bytes → Bytes → Bytes

-- The documented behaviour: a signature made with a signing key verifies under its public key.
pub record IsEd25519 (ed : Ed25519) : Type 0 where
  pub public_key_valid : (seed : Bytes) → ed.is_valid_key (ed.public_key seed) ≡ true
  pub public_key_size : (seed : Bytes) → IsArray 32 (ed.public_key seed)
  pub signature_size : (seed msg : Bytes) → IsArray 64 (ed.sign_bytes seed msg)
  pub sign_verifies :
      (seed msg : Bytes) → ed.verifies (ed.public_key seed) msg (ed.sign_bytes seed msg) ≡ true
