-- ===== src/Publisher.antt =====
-- crates/sqns-client/src/publisher.rs: signing the endpoints of a service key and publishing them. The signing key is
-- its seed, `now_unix()` is an argument, and the servers may change between the three requests that a
-- publication makes.
pub mod First
pub mod Keepalive
pub mod Renumbered
pub mod Serial
use sqns.Base.{
  ℕ, ◌+◌, ◌-◌, ◌/◌, ◌%◌, ◌^◌, Bool, true, false, none, some, List, [], ◌∷◌, ltb, ◌==◌,
  if◌then◌else◌,
}
use sqns.Bytes.{Bytes}
use sqns.Errors.{Error, Result, ok, err, ◌>>=◌, ◌>>◌}
use sqns.Crypto.{Ed25519}
use sqns.Record.{PubKey, Delegation, Endpoint, SignedRecord}
use sqns.Record.Authority.{new_live, validate, sign, verify_delegation}
use sqns.Protocol.{ErrorCode, to_u16}
use sqns.Resolver.{Resolver, ServerLink, lookup_record}
use sqns.Resolver.Publish.{publish_record}

abbrev pub default_ttl : ℕ
default_ttl = 300

pub record Publisher : Type 0 where
  pub signing_key : Bytes
  pub delegation : Delegation
  pub endpoints : List Endpoint
  pub ttl : ℕ
  pub serial : ℕ

abbrev max_of : ℕ → ℕ → ℕ
max_of a b = if ltb a b then b else a

-- In seconds.
unfoldable pub refresh_interval : Publisher → ℕ
refresh_interval p = max_of (p.ttl / 3) 10

-- `fetch_max(held.serial.saturating_add(1))`
unfoldable pub raise_serial : Publisher → ℕ → Publisher
raise_serial p held =
    let raised = if held + 1 == 2 ^ 64 then held else held + 1 in
    record p { serial = max_of p.serial raised }

unfoldable pub is_stale : Result ℕ → Bool
is_stale (err (Error.server code message)) = code == to_u16 ErrorCode.stale
is_stale _ = false

module _ (ed : Ed25519) where
  unfoldable pub new : ℕ → Bytes → Delegation → List Endpoint → ℕ → Result Publisher
  new now service_key delegation endpoints ttl = do
    verify_delegation ed delegation (ed.public_key service_key)
    ok (record {
      signing_key = service_key;
      delegation = delegation;
      endpoints = endpoints;
      ttl = ttl;
      serial = now;
    })

  abbrev pub key : Publisher → PubKey
  key p = ed.public_key p.signing_key

  -- `sign`; the serial is taken, whatever becomes of the record.
  unfoldable pub sign_next : Publisher → ℕ → List Endpoint → Result SignedRecord × Publisher
  sign_next p now endpoints =
      let rec = new_live now (key p) p.delegation p.serial p.ttl endpoints in
      (validate ed rec >> sign ed rec p.signing_key, record p { serial = (p.serial + 1) % 2 ^ 64 })

  unfoldable pub build : Publisher → ℕ → Result SignedRecord × Publisher
  unfolding sign_next
  build p now = sign_next p now p.endpoints

  unfoldable pub adopt_network_serial :
      List ServerLink → Resolver → ℕ → Publisher → Result (Unit {0}) × Publisher × Resolver
  unfolding raise_serial
  adopt_network_serial servers r now p =
      let (got, r') = lookup_record ed servers r now (key p) in
      elim got [
        | err e ↦ (err e, p, r')
        | ok none ↦ (ok tt, p, r')
        | ok (some held) ↦ (ok tt, raise_serial p held.rec.serial, r')
      ]

  -- `resolver.publish(&self.sign(endpoints)?)`
  unfoldable pub publish_next :
      List ServerLink → Resolver → ℕ → Publisher → List Endpoint → Result ℕ × Publisher × Resolver
  unfolding sign_next
  publish_next servers r now p endpoints =
      let (signed, p') = sign_next p now endpoints in
      elim signed [
        | err e ↦ (err e, p', r)
        | ok rec ↦ let (out, r') = publish_record ed servers r now rec in (out, p', r')
      ]

  -- `servers n` are the servers at the request `n`. An error of `sign` is never a server's, so it is not
  -- taken for a stale answer.
  unfoldable pub publish_endpoints :
      (ℕ → List ServerLink)
      → Resolver
      → ℕ
      → Publisher
      → List Endpoint
      → Result ℕ × Publisher × Resolver
  unfolding publish_next adopt_network_serial is_stale
  publish_endpoints servers r now p endpoints =
      let (out, p1, r1) = publish_next (servers 0) r now p endpoints in
      elim (is_stale out) [
        | false ↦ (out, p1, r1)
        | true ↦
            let (adopted, p2, r2) = adopt_network_serial (servers 1) r1 now p1 in
            elim adopted [
              | err e ↦ (err e, p2, r2)
              | ok _ ↦ publish_next (servers 2) r2 now p2 endpoints
            ]
      ]

  unfoldable pub publish :
      (ℕ → List ServerLink) → Resolver → ℕ → Publisher → Result ℕ × Publisher × Resolver
  unfolding publish_endpoints
  publish servers r now p = publish_endpoints servers r now p p.endpoints

  unfoldable pub withdraw :
      (ℕ → List ServerLink) → Resolver → ℕ → Publisher → Result ℕ × Publisher × Resolver
  unfolding publish_endpoints
  withdraw servers r now p = publish_endpoints servers r now p []

  -- `run`, for the ticks that come before the task is dropped: each with its time and the servers at that time.
  -- What a refresh returns is only logged.
  unfoldable pub run :
      List (ℕ × (ℕ → List ServerLink)) → Resolver → Publisher → Publisher × Resolver
  unfolding publish
  run [] r p = (p, r)
  run ((now, servers) ∷ ticks) r p = let (out, p', r') = publish servers r now p in run ticks r' p'
