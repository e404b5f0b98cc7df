-- ===== src/Key.antt =====
-- crates/sqns-core/src/key.rs: the texts of public keys. The crates bs58 and hex are parameters; a public key is its
-- 32 bytes.
pub mod Secret
use sqns.Base.{
  All, ℕ, ◌≡◌, ◌≤◌, Bool, true, ◌&&◌, ◌||◌, Option, none, some, [], ◌∷◌, length, leb, ◌==◌, take,
  if◌then◌else◌,
}
use sqns.Bytes.{Bytes, IsArray}
use sqns.Bytes.Utf8.Encode.{IsChar}
use sqns.Errors.{bad_key, base58_decode, Result, ok, err}
use sqns.Text.{Text, trim}
use sqns.Text.Trim.{IsSolid}
use sqns.Record.{PubKey}

-- `bs58::encode`, `bs58::decode`, `hex::encode` and `hex::decode`.
pub record Encodings : Type 0 where
  pub encode58 : Bytes → Text
  pub decode58 : Text → Option Bytes
  pub encode_hex : Bytes → Text
  pub decode_hex : Text → Option Bytes

-- The documented behaviour of bs58 on 32 bytes: at most 44 characters of its alphabet, which has no white
-- space, that decode to the bytes.
pub record IsEncodings (enc : Encodings) : Type 0 where
  pub decode58-encode58 : (b : Bytes) → IsArray 32 b → enc.decode58 (enc.encode58 b) ≡ some b
  pub solid : (b : Bytes) → IsArray 32 b → IsSolid (enc.encode58 b)
  pub some_text : (b : Bytes) → IsArray 32 b → 1 ≤ length (enc.encode58 b)
  pub short_text : (b : Bytes) → IsArray 32 b → length (enc.encode58 b) ≤ 44

-- The documented behaviour of hex on 32 bytes: characters without white space, that decode to the bytes.
pub record IsHex (enc : Encodings) : Type 0 where
  pub decode_hex-encode_hex :
      (b : Bytes) → IsArray 32 b → enc.decode_hex (enc.encode_hex b) ≡ some b
  pub solid_hex : (b : Bytes) → IsArray 32 b → IsSolid (enc.encode_hex b)
  pub hex_chars : (b : Bytes) → IsArray 32 b → All IsChar (enc.encode_hex b)

-- `is_ascii_hexdigit`
abbrev pub is_hex : ℕ → Bool
is_hex c = (leb 48 c && leb c 57) || ((leb 65 c && leb c 70) || (leb 97 c && leb c 102))

unfoldable pub all_hex : Text → Bool
all_hex [] = true
all_hex (c ∷ s) = is_hex c && all_hex s

unfoldable pub from_slice : Bytes → Result PubKey
from_slice raw = if length raw == 32 then ok raw else err bad_key

module _ (enc : Encodings) where
  unfoldable pub from_base58 : Text → Result PubKey
  unfolding from_slice
  from_base58 s = elim (enc.decode58 s) [ some raw ↦ from_slice raw | none ↦ err base58_decode ]

  unfoldable pub from_hex : Text → Result PubKey
  unfolding from_slice
  from_hex s = elim (enc.decode_hex s) [ some raw ↦ from_slice raw | none ↦ err bad_key ]

  -- `PubKey::from_str`; a text of 64 bytes that are hexadecimal digits has 64 characters.
  unfoldable pub parse_key : Text → Result PubKey
  unfolding all_hex from_base58 from_hex
  parse_key s = let t = trim s in if length t == 64 && all_hex t then from_hex t else from_base58 t

  -- `Display`, and the first eight characters of it.
  abbrev pub to_base58 : PubKey → Text
  to_base58 k = enc.encode58 k

  abbrev pub short : PubKey → Text
  short k = take 8 (to_base58 k)
