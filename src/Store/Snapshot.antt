-- ===== src/Store/Snapshot.antt =====
-- crates/sqnsd/src/store.rs: the snapshot of a store, as bytes and back, and `open`, which loads one. The
-- file is in `Store/Persist`: `open_snapshot` starts from the bytes read, and the records come in the
-- order of the map.
pub mod Bindings
pub mod RoundTrip
use sqns.Base.{ℕ, ◌%◌, ◌^◌, Bool, true, false, List, [], ◌∷◌, ◌++◌, length, ◌==◌, if◌then◌else◌}
use sqns.Bytes.{Bytes, be_bytes, bytes_eq, bytes_lt, ascii}
use sqns.Errors.{malformed_record, Result, ok, err}
use sqns.Crypto.{Ed25519}
use sqns.Record.{PubKey, SignedRecord, is_expired}
use sqns.Record.Wire.{encode_signed, decode_signed_from}
use sqns.Codec.{
  Decode, u8, u32, bytes, array, repeat, require, pure, encode_all, decode_whole, ◌>>=◌, ◌>>◌,
}
use sqns.Map.{Map, insert, values}
use sqns.Store.{Store, PutOutcome, new_store, put, bind}

abbrev pub snapshot_magic : Bytes
snapshot_magic = ascii "SQNSDB"

abbrev pub snapshot_version : ℕ
snapshot_version = 3

-- `sort_by_key(|(key, _)| **key)`
unfoldable pub insert_binding : PubKey → PubKey → Map PubKey → Map PubKey
insert_binding k i [] = (k, i) ∷ []
insert_binding k i ((j, v) ∷ m) =
    let rest = insert_binding k i m in if bytes_lt j k then (j, v) ∷ rest else (k, i) ∷ ((j, v) ∷ m)

unfoldable pub sort_bindings : Map PubKey → Map PubKey
unfolding insert_binding
sort_bindings [] = []
sort_bindings ((k, i) ∷ m) = insert_binding k i (sort_bindings m)

abbrev pub encode_binding : Bytes × PubKey → Bytes
encode_binding b = b.0 ++ b.1

unfoldable pub encode_snapshot : List SignedRecord → Map PubKey → Bytes
unfolding sort_bindings
encode_snapshot recs bindings =
    snapshot_magic
    ++ (snapshot_version
        ∷ (be_bytes 4 (length recs % 2 ^ 32)
            ++ (encode_all encode_signed recs
                ++ (be_bytes 4 (length bindings % 2 ^ 32)
                    ++ encode_all encode_binding (sort_bindings bindings)))))

unfoldable pub decode_binding : Decode (Bytes × PubKey)
decode_binding = do service_key ← array 32; identity ← array 32; pure (service_key, identity)

-- `bindings.insert` for each pair that is read.
unfoldable pub insert_all : Map PubKey → List (Bytes × PubKey) → Map PubKey
insert_all m [] = m
insert_all m ((k, i) ∷ ps) = insert_all (insert m k i) ps

unfoldable pub decode_snapshot_from : Decode (List SignedRecord × Map PubKey)
unfolding decode_binding insert_all
decode_snapshot_from = do
  magic ← bytes (length snapshot_magic)
  require (bytes_eq magic snapshot_magic) malformed_record
  version ← u8
  require (version == snapshot_version) malformed_record
  count ← u32
  recs ← repeat count decode_signed_from
  binding_count ← u32
  pairs ← repeat binding_count decode_binding
  pure (recs, insert_all [] pairs)

unfoldable pub decode_snapshot : Bytes → Result (List SignedRecord × Map PubKey)
decode_snapshot = decode_whole decode_snapshot_from

unfoldable pub bind_all : Store → Map PubKey → Store
bind_all s [] = s
bind_all s ((k, i) ∷ m) = bind_all (bind s k i) m

abbrev pub store_of : Store → Result (PutOutcome × Store) → Store
store_of s (ok (out, t)) = t
store_of s (err e) = s

module _ (ed : Ed25519) where
  -- The loop over the records that were loaded.
  unfoldable pub load : Store → ℕ → List SignedRecord → Store
  load s now [] = s
  load s now (r ∷ rs) =
      load (if is_expired r.rec now then s else store_of s (put ed s now r)) now rs

  unfoldable pub open_snapshot : ℕ → Bytes → Store
  unfolding bind_all load
  open_snapshot now file = elim (decode_snapshot file) [
    | ok (recs, bindings) ↦ load (bind_all new_store bindings) now recs
    | err e ↦ new_store
  ]

-- `persist`, up to the bytes that it writes.
unfoldable pub snapshot_of : Store → Bytes
unfolding encode_snapshot
snapshot_of s = encode_snapshot (values s.records) s.bindings
