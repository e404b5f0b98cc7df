-- ===== src/Replication.antt =====
-- crates/sqnsd/src/replication.rs: pulling the records of a peer, and pushing one to every peer. A link is a
-- function from the number of the request and the request to what comes of it, so that a theorem over all
-- links covers a peer that changes between two requests. The clock is read once for a pull; the timer
-- and the log are left out.
pub mod Pull
pub mod Cover
pub mod ServerPeer
pub mod CatchUp
use sqns.Base.{
  ℕ, zero, suc, ◌+◌, ◌-◌, ◌^◌, Bool, true, false, Option, none, some, List, [], ◌∷◌, ltb, leb,
  if◌then◌else◌,
}
use sqns.Errors.{Error, protocol, Result, ok, err}
use sqns.Crypto.{Ed25519}
use sqns.Record.{SignedRecord}
use sqns.Store.{Store, PutOutcome, stored, stale, put}
use sqns.Resolver.{unexpected}
use sqns.Protocol.{
  Request, publish, sync, Response, answer, published, counters, records, error, max_sync_batch,
}

abbrev pub PeerLink : Type 0
PeerLink = ℕ → Request → Result Response

pub record Peer : Type 0 where
  pub link : PeerLink
  pub watermark : ℕ

-- What comes of a pull: the records that were new, or the failure, and the store and the watermark after it.
pub record Pulled : Type 0 where
  pub outcome : Result ℕ
  pub store : Store
  pub watermark : ℕ

-- The match on the response.
abbrev pub batch_of : Result Response → Result (List SignedRecord × Bool)
batch_of (ok (records recs complete)) = ok (recs, complete)
batch_of (ok other) = err (unexpected other)
batch_of (err e) = err e

-- `max().unwrap_or(since)` of the times of issue.
unfoldable pub high_of : List SignedRecord → ℕ
high_of [] = 0
high_of (r ∷ rs) =
    let rest = high_of rs in if ltb rest r.rec.issued_at then r.rec.issued_at else rest

unfoldable pub batch_high : ℕ → List SignedRecord → ℕ
unfolding high_of
batch_high since [] = since
batch_high since (r ∷ rs) = high_of (r ∷ rs)

-- What became of a record that was pushed.
pub data Delivery : Type 0 where
  pushed not_applied unexpected_reply undelivered : Delivery

abbrev pub delivery_of : Result Response → Delivery
delivery_of (ok (published serial expires_at)) = pushed
delivery_of (ok (error code message)) = not_applied
delivery_of (ok other) = unexpected_reply
delivery_of (err e) = undelivered

-- `Replicator::push`
unfoldable pub push : List PeerLink → ℕ → SignedRecord → List Delivery
push [] n r = []
push (link ∷ links) n r = delivery_of (link n (publish r)) ∷ push links n r

-- The time of issue has 64 bits, so the cursor cannot move more often than that.
abbrev pub enough_rounds : ℕ → ℕ
enough_rounds since = suc (2 ^ 64 - since)

module _ (ed : Ed25519) where
  -- The loop over the records of a batch: the store, and the records that were new so far.
  unfoldable pub apply_batch : Store → ℕ → ℕ → List SignedRecord → Store × ℕ
  apply_batch s now applied [] = (s, applied)
  apply_batch s now applied (r ∷ rs) = elim (put ed s now r) [
    | ok (PutOutcome.stored, t) ↦ apply_batch t now (applied + 1) rs
    | ok (PutOutcome.stale, t) ↦ apply_batch t now applied rs
    | err e ↦ apply_batch s now applied rs
  ]

  module _ (link : PeerLink) (now : ℕ) where
    -- The loop, for at most `fuel` rounds, from its request number `n`.
    unfoldable pub pull_loop : ℕ → ℕ → Store → ℕ → ℕ → ℕ → Option Pulled
    unfolding batch_high apply_batch
    pull_loop zero n s watermark since applied = none
    pull_loop (suc fuel) n s watermark since applied =
        elim (batch_of (link n (sync since max_sync_batch))) [
          | err e ↦ some (record { outcome = err e; store = s; watermark = watermark })
          | ok (recs, complete) ↦
              let high = batch_high since recs in
              let (s', applied') = apply_batch s now applied recs in
              elim complete [
                | true ↦ some (record { outcome = ok applied'; store = s'; watermark = high })
                | false ↦ elim (leb high since) [
                  | true ↦ some (record { outcome = ok applied'; store = s'; watermark = high })
                  | false ↦ pull_loop fuel (suc n) s' high high applied'
                ]
              ]
        ]

  unfoldable pub pull : Peer → Store → ℕ → Option Pulled
  unfolding pull_loop
  pull peer s now =
      pull_loop peer.link now (enough_rounds peer.watermark) 0 s peer.watermark peer.watermark 0

  -- One tick of `run`: every peer in turn. A pull that fails ends there, and the next peer follows.
  unfoldable pub pull_all : List Peer → Store → ℕ → Option (List Peer × Store)
  unfolding pull
  pull_all [] s now = some ([], s)
  pull_all (peer ∷ peers) s now = elim (pull peer s now) [
    | none ↦ none
    | some p ↦ elim (pull_all peers p.store now) [
      | none ↦ none
      | some (rest, t) ↦ some (record peer { watermark = p.watermark } ∷ rest, t)
    ]
  ]
