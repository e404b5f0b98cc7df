-- ===== src/Record/Wire/Sizes.antt =====
-- How many bytes records take in the wire form.
use sqns.Base.{◌+◌, ◌%◌, ◌++◌, ◌^◌, ◌≡◌, length, length-append, arith}
use sqns.Bytes.{be_bytes, length-be_bytes, IsArray}
use sqns.Record.{Delegation, Record, SignedRecord}
use sqns.Record.Wire.{encode_delegation, encode_body, encode_record, encode_signed}
use sqns.Record.Wire.Layout.{IsDelegation, IsSigned}

length-encode_delegation : (d : Delegation) → IsDelegation d → length (encode_delegation d) ≡ 104
unfolding encode_delegation
length-encode_delegation d h = omega (
  arith,
  h.identity.0,
  h.signature.0,
  length-append d.identity (be_bytes 8 d.not_after ++ d.signature),
  length-append (be_bytes 8 d.not_after) d.signature,
  length-be_bytes 8 d.not_after,
)

pub length-encode_record :
    (r : Record)
    → IsArray 32 r.key
    → IsDelegation r.delegation
    → length (encode_record r) ≡ 157 + length (encode_body r.body)
unfolding encode_record
length-encode_record r key d =
    let body = encode_body r.body in
    let ttl = be_bytes 4 r.ttl ++ body in
    let issued = be_bytes 8 r.issued_at ++ ttl in
    let serial = be_bytes 8 r.serial ++ issued in
    omega (
      arith,
      key.0,
      length-encode_delegation r.delegation d,
      length-append r.key (encode_delegation r.delegation ++ serial),
      length-append (encode_delegation r.delegation) serial,
      length-append (be_bytes 8 r.serial) issued,
      length-append (be_bytes 8 r.issued_at) ttl,
      length-append (be_bytes 4 r.ttl) body,
      length-be_bytes 8 r.serial,
      length-be_bytes 8 r.issued_at,
      length-be_bytes 4 r.ttl,
    )

pub length-encode_signed :
    (s : SignedRecord) → IsSigned s → length (encode_signed s) ≡ 66 + length (encode_record s.rec)
unfolding encode_signed
length-encode_signed s h =
    let body = encode_record s.rec in
    omega (
      arith,
      h.signature.0,
      length-append (be_bytes 2 (length body % 2 ^ 16)) (body ++ s.signature),
      length-append body s.signature,
      length-be_bytes 2 (length body % 2 ^ 16),
    )
