-- ===== src/Record/Wire.antt =====
-- crates/sqns-core/src/record.rs: the canonical bytes of endpoints, delegations, records and signed
-- records, and the decoders of these.
pub mod Layout
pub mod RoundTrip
pub mod Canonical
pub mod Sizes
use sqns.Base.{ℕ, ◌+◌, ◌%◌, ◌^◌, not, ◌∷◌, ◌++◌, length, ◌==◌, if◌then◌else◌}
use sqns.Bytes.{Bytes, be_bytes}
use sqns.Errors.{malformed_record, Result}
use sqns.Codec.{
  Decode, u8, u16, u32, u64, bytes, array, string, short_string, repeat, require, lift, pure, fail,
  encode_all, put_string, put_short_string, decode_whole, ◌>>=◌, ◌>>◌,
}
use sqns.Record.{
  PubKey, Host, Endpoint, Delegation, RecordBody, Record, SignedRecord, record_version, live,
  superseded, revoked, v4, v6, name,
}

abbrev pub body_live : ℕ
body_live = 1

abbrev pub body_superseded : ℕ
body_superseded = 2

abbrev pub body_revoked : ℕ
body_revoked = 3

abbrev pub host_v4 : ℕ
host_v4 = 1

abbrev pub host_v6 : ℕ
host_v6 = 2

abbrev pub host_name : ℕ
host_name = 3

encode_host : Host → Bytes
encode_host (v4 a) = host_v4 ∷ a
encode_host (v6 a) = host_v6 ∷ a
encode_host (name n) = host_name ∷ put_short_string n

unfoldable pub encode_endpoint : Endpoint → Bytes
unfolding encode_host
encode_endpoint e =
    be_bytes 2 e.priority ++ (be_bytes 2 e.weight ++ (be_bytes 2 e.port ++ encode_host e.host))

unfoldable pub decode_host : ℕ → Decode Host
decode_host kind =
    if kind == host_v4
    then (do a ← array 4; pure (v4 a))
    else if kind == host_v6
    then (do a ← array 16; pure (v6 a))
    else if kind == host_name
    then (do n ← short_string; require (not (length n == 0)) malformed_record; pure (name n))
    else fail malformed_record

unfoldable pub decode_endpoint : Decode Endpoint
decode_endpoint = do
  priority ← u16
  weight ← u16
  port ← u16
  kind ← u8
  host ← decode_host kind
  pure (record { host = host; port = port; priority = priority; weight = weight })

unfoldable pub encode_delegation : Delegation → Bytes
encode_delegation d = d.identity ++ (be_bytes 8 d.not_after ++ d.signature)

unfoldable pub decode_delegation : Decode Delegation
decode_delegation = do
  identity ← array 32
  not_after ← u64
  signature ← array 64
  pure (record { identity = identity; not_after = not_after; signature = signature })

-- The match on the body in `Record::encode`; `endpoints.len() as u8` keeps the low byte.
unfoldable pub encode_body : RecordBody → Bytes
encode_body (live eps) = body_live ∷ ((length eps % 2 ^ 8) ∷ encode_all encode_endpoint eps)
encode_body (superseded next reason) = body_superseded ∷ (next ++ put_string reason)
encode_body (revoked reason) = body_revoked ∷ put_string reason

unfoldable pub encode_record : Record → Bytes
encode_record r =
    record_version
    ∷ (r.key
        ++ (encode_delegation r.delegation
            ++ (be_bytes 8 r.serial
                ++ (be_bytes 8 r.issued_at ++ (be_bytes 4 r.ttl ++ encode_body r.body)))))

-- The match on the body kind in `Record::decode_from`.
unfoldable pub decode_body : ℕ → Decode RecordBody
decode_body kind =
    if kind == body_live
    then (do count ← u8; eps ← repeat count decode_endpoint; pure (live eps))
    else if kind == body_superseded
    then (do next ← array 32; reason ← string; pure (superseded next reason))
    else if kind == body_revoked
    then (do reason ← string; pure (revoked reason))
    else fail malformed_record

unfoldable pub decode_record_from : Decode Record
decode_record_from = do
  version ← u8
  require (version == record_version) malformed_record
  key ← array 32
  delegation ← decode_delegation
  serial ← u64
  issued_at ← u64
  ttl ← u32
  kind ← u8
  body ← decode_body kind
  pure (record {
    key = key;
    delegation = delegation;
    serial = serial;
    issued_at = issued_at;
    ttl = ttl;
    body = body;
  })

unfoldable pub decode_record : Bytes → Result Record
decode_record = decode_whole decode_record_from

-- `body.len() as u16` keeps the low 16 bits.
unfoldable pub encode_signed : SignedRecord → Bytes
encode_signed s =
    let body = encode_record s.rec in be_bytes 2 (length body % 2 ^ 16) ++ (body ++ s.signature)

unfoldable pub decode_signed_from : Decode SignedRecord
decode_signed_from = do
  len ← u16
  body ← bytes len
  rec ← lift (decode_record body)
  signature ← array 64
  pure (record { rec = rec; signature = signature })

unfoldable pub decode_signed : Bytes → Result SignedRecord
decode_signed = decode_whole decode_signed_from
