-- ===== src/Server.antt =====
-- crates/sqnsd/src/server.rs: one request at a server. A handler takes the server and the time and
-- returns the response, the server after it, and the record that it hands to the replicator to push, if
-- any. The text of an error response is left out.
pub mod Lookup
pub mod Publish
pub mod Stream
pub mod Maintenance
use sqns.Base.{
  ℕ, ◌-◌, ◌%◌, ◌^◌, Bool, true, false, Option, none, some, List, [], length, ltb, ◌==◌, ◌||◌,
  if◌then◌else◌, is_empty,
}
use sqns.Bytes.{Bytes}
use sqns.Errors.{Error, Result, ok, err}
use sqns.Crypto.{Ed25519}
use sqns.Record.{PubKey, SignedRecord, successor, expires_at}
use sqns.Store.{Store, PutOutcome, put, find, identity_records, since}
use sqns.Upstream.{Upstream, Relayed, lookup_upstream}
use sqns.Protocol.{
  ErrorCode, malformed, bad_signature, upstream_failed, bad_delegation, not_authorized, Request,
  lookup, lookup_identity, publish, status, sync, Response, answer, published, counters, records,
  error, StatusInfo, max_sync_batch,
}

pub record Server : Type 0 where
  pub store : Store
  pub upstream : Upstream
  pub peers : ℕ
  pub allow_sync : Bool
  pub started : ℕ
  pub version : Bytes

-- `Server::status`, with the casts of the counters.
unfoldable pub status_of : Server → ℕ → StatusInfo
status_of s now = record {
  records = length s.store.records % 2 ^ 64;
  cached = elim s.upstream.cache [ some c ↦ length c % 2 ^ 64 | none ↦ 0 ];
  peers = s.peers % 2 ^ 32;
  upstreams = length s.upstream.links % 2 ^ 32;
  uptime_secs = now - s.started;
  version = s.version;
}

unfoldable pub code_of : Error → ErrorCode
code_of Error.signature = bad_signature
code_of (Error.revoked key by reason) = ErrorCode.revoked
code_of (Error.superseded key next) = ErrorCode.superseded
code_of Error.delegation = bad_delegation
code_of _ = malformed

-- `limit.clamp(1, MAX_SYNC_BATCH)`
unfoldable pub clamp_limit : ℕ → ℕ
clamp_limit n = if ltb n 1 then 1 else if ltb max_sync_batch n then max_sync_batch else n

-- `record.successor().and_then(|next| self.store.get(&next))`
unfoldable pub forwarded : Store → ℕ → SignedRecord → Option SignedRecord
forwarded s now r = elim (successor r.rec) [ some next ↦ find s now next | none ↦ none ]

unfoldable pub relay : Result (Option Relayed) → Response
relay (ok (some r)) = answer (some r.rec) r.next
relay (ok none) = answer none none
relay (err e) = error upstream_failed []

module _ (ed : Ed25519) where
  unfoldable pub handle_publish :
      Server → ℕ → SignedRecord → Response × Server × Option SignedRecord
  unfolding code_of
  handle_publish s now r = elim (put ed s.store now r) [
    | ok (PutOutcome.stored, t) ↦
        (published r.rec.serial (expires_at r.rec), record s { store = t }, some r)
    | ok (PutOutcome.stale, t) ↦ (error ErrorCode.stale [], record s { store = t }, none)
    | err e ↦ (error (code_of e) [], s, none)
  ]

  -- A lookup of a key that the store does not hold.
  unfoldable pub handle_miss : Server → ℕ → PubKey → ℕ → Response × Server × Option SignedRecord
  unfolding relay
  handle_miss s now key recurse =
      if recurse == 0 || is_empty s.upstream.links
      then (answer none none, s, none)
      else let (found, c) = lookup_upstream ed s.upstream s.store now key (recurse - 1) in
        (relay found, record s { upstream = record (s.upstream) { cache = c } }, none)

  unfoldable pub handle : Server → ℕ → Request → Response × Server × Option SignedRecord
  unfolding status_of clamp_limit forwarded handle_publish handle_miss
  handle s now (lookup key recurse) = elim (find s.store now key) [
    | some r ↦ (answer (some r) (forwarded s.store now r), s, none)
    | none ↦ handle_miss s now key recurse
  ]
  handle s now (lookup_identity identity) =
      (records (identity_records s.store now identity max_sync_batch) true, s, none)
  handle s now (publish r) = handle_publish s now r
  handle s now status = (counters (status_of s now), s, none)
  handle s now (sync from limit) =
      if s.allow_sync
      then (let (rs, complete) = since s.store now from (clamp_limit limit) in
          (records rs complete, s, none))
      else (error not_authorized [], s, none)
