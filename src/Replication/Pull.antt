-- ===== src/Replication/Pull.antt =====
-- Pulling from any peer, whatever it replies: a pull comes to an end, and does to the store what a sequence
-- of calls of `put` does.
use mathlib.Core.Option.{some-injective}
use sqns.Base.{
  ℕ, zero, suc, ◌+◌, ◌-◌, ◌^◌, ◌<◌, ◌≡◌, refl, ap, subst, Bool, true, false, Option, some, List, [],
  ◌∷◌, All, leb, arith, Bool-cases, Option-cases, inl, inr,
}
use sqns.Errors.{Result, ok, err, Result-cases}
use sqns.Crypto.{Ed25519}
use sqns.Record.{PubKey, SignedRecord, is_terminal}
use sqns.Map.{get}
use sqns.Protocol.{sync, max_sync_batch}
use sqns.Store.{Store, stored, stale, put}
use sqns.Store.Invariant.{IsConsistent}
use sqns.Store.History.{
  put_ok, put_err, Reach, here, next, Reach-IsConsistent, Reach-retired, Reach-bound,
}
use sqns.Replication.{
  PeerLink, Peer, Pulled, batch_of, high_of, batch_high, apply_batch, pull_loop, pull,
  enough_rounds, pull_all,
}

-- What a peer replies with, if anything, was decoded from 64 bits.
abbrev pub IsTimed : SignedRecord → Type 0
IsTimed r = r.rec.issued_at < 2 ^ 64

abbrev pub IsTimedBatch : Result (List SignedRecord × Bool) → Type 0
IsTimedBatch (ok (recs, complete)) = All IsTimed recs
IsTimedBatch (err e) = Unit

abbrev pub IsTimedLink : PeerLink → Type 0
IsTimedLink link = (n since : ℕ) → IsTimedBatch (batch_of (link n (sync since max_sync_batch)))

high_of_bound :
    (bound : ℕ) (recs : List SignedRecord)
    → 0 < bound
    → All (λ r. r.rec.issued_at < bound) recs
    → high_of recs < bound
unfolding high_of
high_of_bound bound [] pos h = pos
high_of_bound bound (r ∷ rs) pos h = ground (arith, high_of_bound bound rs pos h.1)

batch_high_bound :
    (since : ℕ) (recs : List SignedRecord)
    → since < 2 ^ 64
    → All IsTimed recs
    → batch_high since recs < 2 ^ 64
unfolding batch_high
batch_high_bound since [] low h = low
batch_high_bound since (r ∷ rs) low h = high_of_bound (2 ^ 64) (r ∷ rs) (omega arith) h

module _ (ed : Ed25519) where
  abbrev Ends : Option Pulled → Type 0
  Ends o = (p : Pulled) × (o ≡ some p)

  pull_loop-Ends :
      (link : PeerLink) (now fuel n : ℕ) (s : Store) (watermark since applied : ℕ)
      → IsTimedLink link
      → since < 2 ^ 64
      → 2 ^ 64 - since < fuel
      → Ends (pull_loop ed link now fuel n s watermark since applied)
  unfolding pull_loop
  pull_loop-Ends link now zero n s watermark since applied timed low enough = absurd (omega arith)
  pull_loop-Ends link now (suc fuel) n s watermark since applied timed low enough =
      elim (Result-cases (batch_of (link n (sync since max_sync_batch)))) [
        | inr (e, same) ↦ rw (same, pull_loop) (_, refl)
        | inl ((recs, true), same) ↦ rw (same, pull_loop) (_, refl)
        | inl ((recs, false), same) ↦ elim (Bool-cases (leb (batch_high since recs) since)) [
          | inl stuck ↦ rw (same, pull_loop, stuck) (_, refl)
          | inr moved ↦
              let high = batch_high since recs in
              let further : since < high = ground arith in
              let bounded =
                batch_high_bound since recs low (subst IsTimedBatch same (timed n since)) in
              let (s', applied') = apply_batch ed s now applied recs in
              rw (same, pull_loop, moved)
                (pull_loop-Ends link now fuel (suc n) s' high high applied' timed bounded
                  (omega arith))
        ]
      ]

  -- A pull comes to an end, whatever the peer replies and in whichever order, as long as the times of issue
  -- have 64 bits: with a result or with the failure of a request.
  pub pull_ends :
      (peer : Peer) (s : Store) (now : ℕ)
      → IsTimedLink peer.link
      → peer.watermark < 2 ^ 64
      → (p : Pulled) × (pull ed peer s now ≡ some p)
  unfolding pull
  pull_ends peer s now timed low =
      pull_loop-Ends peer.link now (enough_rounds peer.watermark) 0 s peer.watermark peer.watermark
        0 timed low (omega arith)

  pub Reach-trans : {s t u : Store} → Reach ed s t → Reach ed t u → Reach ed s u
  Reach-trans a here = a
  Reach-trans a (next b st) = next (Reach-trans a b) st

  pub apply_batch-Reach :
      (s : Store) (now applied : ℕ) (recs : List SignedRecord)
      → Reach ed s (apply_batch ed s now applied recs).0
  unfolding apply_batch
  apply_batch-Reach s now applied [] = here
  apply_batch-Reach s now applied (r ∷ rs) = elim (Result-cases (put ed s now r)) [
    | inl ((stored, t), e) ↦
        rw (e, apply_batch)
          (Reach-trans (next here (put_ok s now r stored t e))
            (apply_batch-Reach t now (applied + 1) rs))
    | inl ((stale, t), e) ↦
        rw (e, apply_batch)
          (Reach-trans (next here (put_ok s now r stale t e)) (apply_batch-Reach t now applied rs))
    | inr (f, e) ↦
        rw (e, apply_batch)
          (Reach-trans (next here (put_err s now r f e)) (apply_batch-Reach s now applied rs))
  ]

  pull_loop-Reach :
      (link : PeerLink) (now fuel n : ℕ) (s : Store) (watermark since applied : ℕ) (p : Pulled)
      → pull_loop ed link now fuel n s watermark since applied ≡ some p
      → Reach ed s p.store
  unfolding pull_loop
  pull_loop-Reach link now zero n s watermark since applied p e = absurd (ground arith)
  pull_loop-Reach link now (suc fuel) n s watermark since applied p e =
      elim (Result-cases (batch_of (link n (sync since max_sync_batch)))) [
        | inr (f, same) ↦
            let result : record { outcome = err f; store = s; watermark = watermark } ≡ p =
              some-injective _ _ (rw (same, pull_loop) at e) in
            subst (Reach ed s) (ap (λ (q : Pulled). q.store) result) here
        | inl ((recs, true), same) ↦ stop recs (some-injective _ _ (rw (same, pull_loop) at e))
        | inl ((recs, false), same) ↦ elim (Bool-cases (leb (batch_high since recs) since)) [
          | inl stuck ↦ stop recs (some-injective _ _ (rw (same, pull_loop, stuck) at e))
          | inr moved ↦
              let high = batch_high since recs in
              let (s', applied') = apply_batch ed s now applied recs in
              Reach-trans (apply_batch-Reach s now applied recs) (
                pull_loop-Reach link now fuel (suc n) s' high high applied' p
                  (rw (same, pull_loop, moved) at e))
        ]
      ]
    where
      stop :
          (recs : List SignedRecord)
          → record {
            outcome = ok (apply_batch ed s now applied recs).1;
            store = (apply_batch ed s now applied recs).0;
            watermark = batch_high since recs;
          }
            ≡ p
          → Reach ed s p.store
      stop recs result =
          subst (Reach ed s) (ap (λ (q : Pulled). q.store) result)
            (apply_batch-Reach s now applied recs)

  -- Whatever the peer replies, a pull does to the store what a history of `put`s does.
  pull-Reach :
      (peer : Peer) (s : Store) (now : ℕ) (p : Pulled)
      → pull ed peer s now ≡ some p
      → Reach ed s p.store
  unfolding pull
  pull-Reach peer s now p e =
      pull_loop-Reach peer.link now (enough_rounds peer.watermark) 0 s peer.watermark peer.watermark
        0 p e

  pull_all-Reach :
      (peers : List Peer) (s : Store) (now : ℕ) (rest : List Peer) (t : Store)
      → pull_all ed peers s now ≡ some (rest, t)
      → Reach ed s t
  unfolding pull_all
  pull_all-Reach [] s now rest t e =
      subst (Reach ed s) (ap (λ (q : List Peer × Store). q.1) (some-injective _ _ e)) here
  pull_all-Reach (peer ∷ peers) s now rest t e = elim (Option-cases (pull ed peer s now)) [
    | inl nothing ↦ absurd (ground arith)
    | inr (p, first) ↦ elim (Option-cases (pull_all ed peers p.store now)) [
      | inl nothing ↦ absurd (ground arith)
      | inr ((rest', t'), others) ↦ Reach-trans (pull-Reach peer s now p first) (
          subst (Reach ed p.store)
            (ap (λ (q : List Peer × Store). q.1)
              (some-injective _ _ (rw (first, pull_all, others) at e)))
            (pull_all-Reach peers p.store now rest' t' others))
    ]
  ]

  -- A round of pulls, whatever the peers reply, leaves a consistent store consistent, and keeps any
  -- record that retires its key, and the binding of any key.
  pub pull_all_safe :
      (peers : List Peer) (s : Store) (now : ℕ) (rest : List Peer) (t : Store) (k : PubKey)
      (x : SignedRecord) (j i : PubKey)
      → IsConsistent ed s
      → get s.records k ≡ some x
      → is_terminal x.rec ≡ true
      → get s.bindings j ≡ some i
      → pull_all ed peers s now ≡ some (rest, t)
      → IsConsistent ed t × (get t.records k ≡ some x) × (get t.bindings j ≡ some i)
  pull_all_safe peers s now rest t k x j i h held dead bound e =
      let r = pull_all-Reach peers s now rest t e in
      (
        Reach-IsConsistent ed s t h r,
        Reach-retired ed s t k x h held dead r,
        Reach-bound ed s t j i bound r,
      )
