-- ===== src/Protocol/Messages.antt =====
-- Requests and responses survive the wire, and a decoded request spends no more hops than allowed.
use sqns.Base.{
  ℕ, ◌%◌, ◌^◌, ◌≤◌, ◌<◌, ◌≡◌, sym, ap, Bool, not, Option, none, some, length, All, leb, ◌==◌, subst,
  arith,
}
use sqns.Bytes.{Bytes, IsArray, IsByte}
use sqns.Errors.{protocol, ok}
use sqns.Codec.{u8, u16, u32, u64, array, string, repeat, encode_all}
use sqns.Codec.Consumes.{
  IsText, Consumes, Consumes-bind, Consumes-pure, Consumes-fail, Consumes-if, Consumes-take,
  Consumes-u8, Consumes-unsigned, decode_whole-Consumes,
}
use sqns.Codec.Reads.{
  Reads, Reads-bind, Reads-map, Reads-map_to, Reads-pure, Reads-take, Reads-unsigned, Reads-u8,
  Reads-require, Reads-string, Reads-repeat, decode_whole-Reads,
}
use sqns.Record.{SignedRecord}
use sqns.Record.Wire.{encode_signed, decode_signed_from}
use sqns.Record.Wire.Layout.{IsSigned}
use sqns.Record.Wire.RoundTrip.{Reads-signed}
use sqns.Record.Wire.Canonical.{Consumes-IsSigned}
use sqns.Protocol.{
  ErrorCode, Request, Response, StatusInfo, lookup, lookup_identity, publish, status, sync, answer,
  published, counters, records, error, to_u16, from_u16, request_type, encode_request,
  decode_request_from, decode_request, response_type, encode_slot, encode_response, decode_slot,
  decode_response_from, decode_response, max_recurse, max_sync_batch, bool_byte, clamp_recurse,
}

-- The values of the source's types, with the limits of the decoders.
abbrev pub IsRequest : Request → Type 0
IsRequest (lookup key recurse) = IsArray 32 key × (recurse ≤ max_recurse)
IsRequest (lookup_identity identity) = IsArray 32 identity
IsRequest (publish r) = IsSigned r
IsRequest status = Unit
IsRequest (sync since limit) = (since < 2 ^ 64) × (limit < 2 ^ 16)

abbrev pub IsSlot : Option SignedRecord → Type 0
IsSlot none = Unit
IsSlot (some r) = IsSigned r

pub record IsStatusInfo (i : StatusInfo) : Type 0 where
  pub records : i.records < 2 ^ 64
  pub cached : i.cached < 2 ^ 64
  pub peers : i.peers < 2 ^ 32
  pub upstreams : i.upstreams < 2 ^ 32
  pub uptime_secs : i.uptime_secs < 2 ^ 64
  pub version : IsText 65535 i.version

abbrev pub IsResponse : Response → Type 0
IsResponse (answer r next) = IsSlot r × IsSlot next
IsResponse (published serial expires_at) = (serial < 2 ^ 64) × (expires_at < 2 ^ 64)
IsResponse (counters info) = IsStatusInfo info
IsResponse (records rs complete) = (length rs ≤ max_sync_batch) × All IsSigned rs
IsResponse (error code message) = IsText 65535 message

Reads-request :
    (q : Request) → IsRequest q → Reads (decode_request_from (request_type q)) (encode_request q) q
unfolding decode_request_from request_type encode_request
Reads-request (lookup key recurse) (size, few) =
    Reads-bind (array 32) _ (Reads-take 32 key size.0) (
      Reads-map_to u8 (λ n. lookup key (clamp_recurse n)) (lookup key recurse)
        (ap (lookup key) (unclamped recurse few)) (Reads-u8 recurse (omega arith)))
  where
    unclamped : (n : ℕ) → n ≤ max_recurse → clamp_recurse n ≡ n
    unclamped n h = ground arith
Reads-request (lookup_identity identity) size =
    Reads-map (array 32) lookup_identity (Reads-take 32 identity size.0)
Reads-request (publish r) h = Reads-map decode_signed_from publish (Reads-signed r h)
Reads-request status h = Reads-pure status
Reads-request (sync since limit) (hs, hl) =
    Reads-bind u64 _ (Reads-unsigned 8 since hs)
      (Reads-map u16 (sync since) (Reads-unsigned 2 limit hl))

-- A request that the wire can carry is decoded from its payload under its frame type.
pub decode_request-encode_request :
    (q : Request) → IsRequest q → decode_request (request_type q) (encode_request q) ≡ ok q
unfolding decode_request
decode_request-encode_request q h =
    decode_whole-Reads (decode_request_from (request_type q)) (encode_request q) q
      (Reads-request q h)

Reads-slot : (o : Option SignedRecord) → IsSlot o → Reads decode_slot (encode_slot o) o
unfolding decode_slot encode_slot
Reads-slot none h = Reads-bind u8 _ (Reads-u8 0 (omega arith)) (Reads-pure none)
Reads-slot (some r) h =
    Reads-bind u8 _ (Reads-u8 1 (omega arith))
      (Reads-map decode_signed_from some (Reads-signed r h))

from_u16-to_u16 : (c : ErrorCode) → from_u16 (to_u16 c) ≡ c
unfolding from_u16 to_u16
from_u16-to_u16 c = ground arith

to_u16-lt : (c : ErrorCode) → to_u16 c < 2 ^ 16
unfolding to_u16
to_u16-lt c = ground arith

Reads-response :
    (p : Response)
    → IsResponse p
    → Reads (decode_response_from (response_type p)) (encode_response p) p
unfolding decode_response_from response_type encode_response
Reads-response (answer r next) (hr, hn) =
    Reads-bind decode_slot _ (Reads-slot r hr)
      (Reads-map decode_slot (answer r) (Reads-slot next hn))
Reads-response (published serial expires_at) (hs, he) =
    Reads-bind u64 _ (Reads-unsigned 8 serial hs)
      (Reads-map u64 (published serial) (Reads-unsigned 8 expires_at he))
Reads-response (counters i) h = Reads-bind u64 _ (Reads-unsigned 8 i.records h.records) (
    Reads-bind u64 _ (Reads-unsigned 8 i.cached h.cached) (
      Reads-bind u32 _ (Reads-unsigned 4 i.peers h.peers) (
        Reads-bind u32 _ (Reads-unsigned 4 i.upstreams h.upstreams) (
          Reads-bind u64 _ (Reads-unsigned 8 i.uptime_secs h.uptime_secs)
            (Reads-map string _ (Reads-string i.version h.version.2 h.version.1))))))
Reads-response (records rs complete) (few, all) =
    let count : length rs % 2 ^ 32 ≡ length rs = omega arith in
    Reads-bind u32 _ (Reads-unsigned 4 (length rs % 2 ^ 32) (omega arith)) (
      Reads-require (leb (length rs % 2 ^ 32) max_sync_batch) protocol _ (ground arith) (
        Reads-bind u8 _ (Reads-u8 (bool_byte complete) (bool_byte-lt complete)) (
          Reads-map_to (repeat (length rs % 2 ^ 32) decode_signed_from)
            (λ xs. records xs (not (bool_byte complete == 0))) (records rs complete)
            (ap (records rs) (back complete))
            (subst (λ (n : ℕ). Reads (repeat n decode_signed_from) (encode_all encode_signed rs) rs)
              (sym count)
              (Reads-repeat decode_signed_from encode_signed IsSigned rs Reads-signed all)))))
  where
    bool_byte-lt : (b : Bool) → bool_byte b < 256
    bool_byte-lt b = ground arith

    back : (b : Bool) → not (bool_byte b == 0) ≡ b
    back b = ground arith
Reads-response (error code message) text =
    Reads-bind u16 _ (Reads-unsigned 2 (to_u16 code) (to_u16-lt code)) (
      Reads-map_to string (error (from_u16 (to_u16 code))) (error code message)
        (ap (λ (c : ErrorCode). error c message) (from_u16-to_u16 code))
        (Reads-string message text.2 text.1))

-- So is a response.
pub decode_response-encode_response :
    (p : Response) → IsResponse p → decode_response (response_type p) (encode_response p) ≡ ok p
unfolding decode_response
decode_response-encode_response p h =
    decode_whole-Reads (decode_response_from (response_type p)) (encode_response p) p
      (Reads-response p h)

-- The hops of a request that is a lookup.
abbrev HopsBounded : Request → Type 0
HopsBounded (lookup key recurse) = recurse ≤ max_recurse
HopsBounded _ = Unit

Consumes-request_hops : (kind : ℕ) → Consumes (decode_request_from kind) (λ q bs. HopsBounded q)
unfolding decode_request_from
Consumes-request_hops kind =
    Consumes-if (kind == 0x01) _ _ _
      (λ _. Consumes-bind (array 32) _ _ _ (Consumes-take 32) λ key b1 h1.
        Consumes-bind u8 _ _ _ Consumes-u8
          λ n b2 h2. Consumes-pure _ (lookup key (clamp_recurse n)) (clamped n))
      (λ _.
        Consumes-if (kind == 0x05) _ _ _
          (λ _.
            Consumes-bind (array 32) _ _ _ (Consumes-take 32)
              λ identity b1 h1. Consumes-pure _ (lookup_identity identity) tt)
          (λ _.
            Consumes-if (kind == 0x02) _ _ _
              (λ _.
                Consumes-bind decode_signed_from _ _ _ Consumes-IsSigned
                  λ r b1 h1. Consumes-pure _ (publish r) tt)
              (λ _.
                Consumes-if (kind == 0x03) _ _ _ (λ _. Consumes-pure _ status tt)
                  (λ _.
                    Consumes-if (kind == 0x04) _ _ _
                      (λ _. Consumes-bind u64 _ _ _ (Consumes-unsigned 8) λ since b1 h1.
                        Consumes-bind u16 _ _ _ (Consumes-unsigned 2)
                          λ limit b2 h2. Consumes-pure _ (sync since limit) tt)
                      (λ _. Consumes-fail _ protocol)))))
  where
    clamped : (n : ℕ) → clamp_recurse n ≤ max_recurse
    clamped n = ground arith

-- Whatever the payload, a lookup that is decoded has at most `max_recurse` hops to spend.
pub decode_request_hops :
    (kind : ℕ) (payload key : Bytes) (recurse : ℕ)
    → All IsByte payload
    → decode_request kind payload ≡ ok (lookup key recurse)
    → recurse ≤ max_recurse
unfolding decode_request
decode_request_hops kind payload key recurse bytes e =
    decode_whole-Consumes (decode_request_from kind) (λ q bs. HopsBounded q) payload
      (lookup key recurse) (Consumes-request_hops kind) bytes e
