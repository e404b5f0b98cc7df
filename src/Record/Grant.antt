-- ===== src/Record/Grant.antt =====
-- crates/sqns-core/src/record.rs: `DelegationFile`, a delegation as it is carried on disk.
pub mod RoundTrip
use sqns.Base.{ℕ, ◌∷◌, ◌++◌, length, ◌==◌}
use sqns.Bytes.{Bytes, ascii, bytes_eq}
use sqns.Errors.{Error, Result, ok, err}
use sqns.Crypto.{Ed25519}
use sqns.Codec.{Decode, u8, bytes, array, require, pure, decode_whole, ◌>>=◌, ◌>>◌}
use sqns.Record.{PubKey, Delegation}
use sqns.Record.Wire.{encode_delegation, decode_delegation}
use sqns.Record.Authority.{verify_delegation}

abbrev pub delegation_file_magic : Bytes
delegation_file_magic = ascii "SQNSDEL"

abbrev pub delegation_file_version : ℕ
delegation_file_version = 2

pub record DelegationFile : Type 0 where
  pub service_key : PubKey
  pub delegation : Delegation

unfoldable pub encode_file : DelegationFile → Bytes
encode_file f =
    delegation_file_magic
    ++ (delegation_file_version ∷ (f.service_key ++ encode_delegation f.delegation))

-- `DelegationFile::decode`, up to `finish`.
unfoldable pub decode_file_from : Decode DelegationFile
decode_file_from = do
  magic ← bytes (length delegation_file_magic)
  require (bytes_eq magic delegation_file_magic) Error.delegation
  version ← u8
  require (version == delegation_file_version) Error.delegation
  service_key ← array 32
  delegation ← decode_delegation
  pure (record { service_key = service_key; delegation = delegation })

unfoldable pub decode_file : Ed25519 → Bytes → Result DelegationFile
unfolding decode_file_from
decode_file ed input = elim (decode_whole decode_file_from input) [
  | err e ↦ err e
  | ok f ↦ elim (verify_delegation ed f.delegation f.service_key) [ ok _ ↦ ok f | err e ↦ err e ]
]
