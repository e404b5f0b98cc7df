-- ===== src/Record/Wire/Layout.antt =====
-- What the wire form can carry: the sizes and ranges of the source's types, with the limits of the
-- length prefixes and of the decoders.
use sqns.Base.{◌^◌, ◌≤◌, ◌<◌, length, All}
use sqns.Bytes.{IsArray}
use sqns.Codec.Consumes.{IsText}
use sqns.Record.{
  Host, v4, v6, name, Endpoint, Delegation, RecordBody, live, superseded, revoked, Record,
  SignedRecord,
}
use sqns.Record.Wire.{encode_record}

abbrev pub IsHost : Host → Type 0
IsHost (v4 a) = IsArray 4 a
IsHost (v6 a) = IsArray 16 a
IsHost (name n) = IsText 255 n × (1 ≤ length n)

pub record IsEndpoint (e : Endpoint) : Type 0 where
  pub host : IsHost e.host
  pub port : e.port < 2 ^ 16
  pub priority : e.priority < 2 ^ 16
  pub weight : e.weight < 2 ^ 16

pub record IsDelegation (d : Delegation) : Type 0 where
  pub identity : IsArray 32 d.identity
  pub not_after : d.not_after < 2 ^ 64
  pub signature : IsArray 64 d.signature

abbrev pub IsBody : RecordBody → Type 0
IsBody (live eps) = (length eps ≤ 255) × All IsEndpoint eps
IsBody (superseded next reason) = IsArray 32 next × IsText 65535 reason
IsBody (revoked reason) = IsText 65535 reason

pub record IsRecord (r : Record) : Type 0 where
  pub key : IsArray 32 r.key
  pub delegation : IsDelegation r.delegation
  pub serial : r.serial < 2 ^ 64
  pub issued_at : r.issued_at < 2 ^ 64
  pub ttl : r.ttl < 2 ^ 32
  pub body : IsBody r.body

-- A signed record also has to fit the 16 bits of its length prefix.
pub record IsSigned (s : SignedRecord) : Type 0 where
  pub rec : IsRecord s.rec
  pub signature : IsArray 64 s.signature
  pub fits : length (encode_record s.rec) < 2 ^ 16
