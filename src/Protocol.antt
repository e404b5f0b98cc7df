-- ===== src/Protocol.antt =====
-- crates/sqns-core/src/protocol.rs: requests, responses and frames on the wire. A stream is the list
-- of the bytes that are still to come on it; a read that finds too few of them is an I/O error.
pub mod Messages
pub mod Frames
use sqns.Base.{
  ℕ, ◌+◌, ◌*◌, ◌%◌, ◌^◌, Bool, true, false, not, Option, none, some, List, [], ◌∷◌, ◌++◌, length,
  take as front, drop, ltb, leb, ◌==◌, if◌then◌else◌,
}
use sqns.Bytes.{Bytes, be_bytes, from_be, ascii}
use sqns.Errors.{Error, protocol, io, Result, ok, err}
use sqns.Codec.{
  Decode, u8, u16, u32, u64, array, string, repeat, require, pure, fail, put_string, encode_all,
  decode_whole, ◌>>=◌, ◌>>◌,
}
use sqns.Record.{PubKey, SignedRecord}
use sqns.Record.Wire.{encode_signed, decode_signed_from}

abbrev pub default_port : ℕ
default_port = 5300

abbrev pub max_message_len : ℕ
max_message_len = 2 ^ 20

abbrev pub max_sync_batch : ℕ
max_sync_batch = 512

abbrev pub max_recurse : ℕ
max_recurse = 8

abbrev pub default_recurse : ℕ
default_recurse = 4

pub data ErrorCode : Type 0 where
  malformed unsupported bad_signature stale rate_limited internal not_authorized revoked : ErrorCode
  upstream_failed superseded bad_delegation : ErrorCode

-- `code as u16`
unfoldable pub to_u16 : ErrorCode → ℕ
to_u16 malformed = 1
to_u16 unsupported = 2
to_u16 bad_signature = 3
to_u16 stale = 4
to_u16 rate_limited = 5
to_u16 internal = 6
to_u16 not_authorized = 7
to_u16 revoked = 8
to_u16 upstream_failed = 11
to_u16 superseded = 10
to_u16 bad_delegation = 9

unfoldable pub from_u16 : ℕ → ErrorCode
from_u16 v =
    if v == 1
    then malformed
    else if v == 2
    then unsupported
    else if v == 3
    then bad_signature
    else if v == 4
    then stale
    else if v == 5
    then rate_limited
    else if v == 7
    then not_authorized
    else if v == 8
    then revoked
    else if v == 10
    then superseded
    else if v == 11
    then upstream_failed
    else if v == 9
    then bad_delegation
    else internal

pub data Request : Type 0 where
  lookup : PubKey → ℕ → Request
  lookup_identity : PubKey → Request
  publish : SignedRecord → Request
  status : Request
  sync : ℕ → ℕ → Request

pub record StatusInfo : Type 0 where
  pub records : ℕ
  pub cached : ℕ
  pub peers : ℕ
  pub upstreams : ℕ
  pub uptime_secs : ℕ
  pub version : Bytes

pub data Response : Type 0 where
  answer : Option SignedRecord → Option SignedRecord → Response
  published : ℕ → ℕ → Response
  counters : StatusInfo → Response
  records : List SignedRecord → Bool → Response
  error : ErrorCode → Bytes → Response

unfoldable pub request_type : Request → ℕ
request_type (lookup key recurse) = 0x01
request_type (lookup_identity identity) = 0x05
request_type (publish r) = 0x02
request_type status = 0x03
request_type (sync since limit) = 0x04

unfoldable pub encode_request : Request → Bytes
encode_request (lookup key recurse) = key ++ (recurse ∷ [])
encode_request (lookup_identity identity) = identity
encode_request (publish r) = encode_signed r
encode_request status = []
encode_request (sync since limit) = be_bytes 8 since ++ be_bytes 2 limit

-- `min(MAX_RECURSE)`
abbrev pub clamp_recurse : ℕ → ℕ
clamp_recurse n = if ltb max_recurse n then max_recurse else n

unfoldable pub decode_request_from : ℕ → Decode Request
decode_request_from kind =
    if kind == 0x01
    then (do key ← array 32; recurse ← u8; pure (lookup key (clamp_recurse recurse)))
    else if kind == 0x05
    then (do identity ← array 32; pure (lookup_identity identity))
    else if kind == 0x02
    then (do r ← decode_signed_from; pure (publish r))
    else if kind == 0x03
    then pure status
    else if kind == 0x04
    then (do since ← u64; limit ← u16; pure (sync since limit))
    else fail protocol

unfoldable pub decode_request : ℕ → Bytes → Result Request
decode_request kind = decode_whole (decode_request_from kind)

unfoldable pub response_type : Response → ℕ
response_type (answer r next) = 0x81
response_type (published serial expires_at) = 0x82
response_type (counters info) = 0x83
response_type (records rs complete) = 0x84
response_type (error code message) = 0xff

unfoldable pub encode_slot : Option SignedRecord → Bytes
encode_slot (some r) = 1 ∷ encode_signed r
encode_slot none = 0 ∷ []

abbrev pub bool_byte : Bool → ℕ
bool_byte true = 1
bool_byte false = 0

-- `records.len() as u32` keeps the low 32 bits.
unfoldable pub encode_response : Response → Bytes
unfolding encode_slot
encode_response (answer r next) = encode_slot r ++ encode_slot next
encode_response (published serial expires_at) = be_bytes 8 serial ++ be_bytes 8 expires_at
encode_response (counters info) =
    be_bytes 8 info.records
    ++ (be_bytes 8 info.cached
        ++ (be_bytes 4 info.peers
            ++ (be_bytes 4 info.upstreams
                ++ (be_bytes 8 info.uptime_secs ++ put_string info.version))))
encode_response (records rs complete) =
    be_bytes 4 (length rs % 2 ^ 32) ++ (bool_byte complete ∷ encode_all encode_signed rs)
encode_response (error code message) = be_bytes 2 (to_u16 code) ++ put_string message

unfoldable pub decode_slot : Decode (Option SignedRecord)
decode_slot = do
  presence ← u8
  if presence == 0
      then pure none
      else if presence == 1
      then (do r ← decode_signed_from; pure (some r))
      else fail protocol

unfoldable pub decode_response_from : ℕ → Decode Response
decode_response_from kind =
    if kind == 0x81
    then (do r ← decode_slot; next ← decode_slot; pure (answer r next))
    else if kind == 0x82
    then (do serial ← u64; expires_at ← u64; pure (published serial expires_at))
    else if kind == 0x83
    then (do
      held ← u64
      cached ← u64
      peers ← u32
      upstreams ← u32
      uptime ← u64
      version ← string
      pure (
          counters (record {
            records = held;
            cached = cached;
            peers = peers;
            upstreams = upstreams;
            uptime_secs = uptime;
            version = version;
          })))
    else if kind == 0x84
    then (do
      count ← u32
      require (leb count max_sync_batch) protocol
      complete ← u8
      rs ← repeat count decode_signed_from
      pure (records rs (not (complete == 0))))
    else if kind == 0xff
    then (do code ← u16; message ← string; pure (error (from_u16 code) message))
    else fail protocol

unfoldable pub decode_response : ℕ → Bytes → Result Response
decode_response kind = decode_whole (decode_response_from kind)

-- `[type:u8][length:u32][payload]`
unfoldable pub write_frame : ℕ → Bytes → Result Bytes
write_frame kind payload =
    if ltb max_message_len (length payload)
    then err protocol
    else ok (kind ∷ (be_bytes 4 (length payload % 2 ^ 32) ++ payload))

-- `read_exact` of `n` bytes.
unfoldable pub read_exact : ℕ → Bytes → Result (Bytes × Bytes)
read_exact n stream = if ltb (length stream) n then err io else ok (front n stream, drop n stream)

unfoldable pub frame_length : Bytes → ℕ
frame_length header = from_be (drop 1 header)

unfoldable pub frame_kind : Bytes → ℕ
frame_kind header = from_be (front 1 header)

-- The type, the payload and what is left of the stream.
unfoldable pub read_frame : Bytes → Result (ℕ × Bytes × Bytes)
unfolding frame_length frame_kind
read_frame stream = elim (read_exact 5 stream) [
  | err e ↦ err e
  | ok (header, rest) ↦
      if ltb max_message_len (frame_length header)
      then err protocol
      else elim (read_exact (frame_length header) rest) [
        | err e ↦ err e
        | ok (payload, rest') ↦ ok (frame_kind header, payload, rest')
      ]
]

unfoldable pub write_request : Request → Result Bytes
write_request req = write_frame (request_type req) (encode_request req)

unfoldable pub write_response : Response → Result Bytes
write_response resp = write_frame (response_type resp) (encode_response resp)

unfoldable pub read_request : Bytes → Result (Request × Bytes)
read_request stream = elim (read_frame stream) [
  | err e ↦ err e
  | ok (kind, payload, rest) ↦ elim (decode_request kind payload) [
    | ok r ↦ ok (r, rest)
    | err e ↦ err e
  ]
]

unfoldable pub read_response : Bytes → Result (Response × Bytes)
read_response stream = elim (read_frame stream) [
  | err e ↦ err e
  | ok (kind, payload, rest) ↦ elim (decode_response kind payload) [
    | ok r ↦ ok (r, rest)
    | err e ↦ err e
  ]
]
