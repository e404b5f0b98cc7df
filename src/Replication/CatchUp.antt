-- ===== src/Replication/CatchUp.antt =====
-- Pulling from a peer that is a server of this program, whose store does not change during the pull.
use mathlib.Core.Option.{some-injective}
use sqns.Base.{
  In, ℕ, zero, suc, ◌≤◌, ◌<◌, ◌≡◌, refl, sym, ap, subst, ◌∙◌, ◌+◌, ◌⊎◌, inl, inr, Bool, true, false,
  some, List, [], ◌∷◌, All, ltb, leb, arith, Bool-cases, ◌^◌, length,
}
use sqns.Errors.{ok, err, io, Result-cases}
use sqns.Crypto.{Ed25519}
use sqns.Record.{PubKey, SignedRecord, is_expired}
use sqns.Map.{get, values}
use sqns.Record.Wire.Layout.{IsSigned}
use sqns.Protocol.{sync, max_sync_batch, max_message_len, encode_response}
use sqns.Store.{Store, stored, stale, put, since}
use sqns.Store.Merge.{after}
use sqns.Store.Listing.{In-values, since_sound, since_complete}
use sqns.Server.{Server}
use sqns.Replication.{Pulled, batch_of, batch_high, apply_batch, pull_loop, pull, enough_rounds}
use sqns.Replication.Cover.{refused, refused-after, put-refused, batch_kept}
use sqns.Replication.ServerPeer.{
  batch_high-le, batch_high-lt, All-at, since_window, peer_of, since-IsSigned, batch_of_peer,
  batch_response,
}

module _ (ed : Ed25519) where
  apply_batch-cons :
      (s : Store) (now applied : ℕ) (x : SignedRecord) (xs : List SignedRecord)
      → (n : ℕ) × ((apply_batch ed s now applied (x ∷ xs)).0
          ≡ (apply_batch ed (after s (put ed s now x)) now n xs).0)
  unfolding apply_batch
  apply_batch-cons s now applied x xs = elim (Result-cases (put ed s now x)) [
    | inl ((stored, t), e) ↦ (applied + 1, rw (e, apply_batch) refl)
    | inl ((stale, t), e) ↦ (applied, rw (e, apply_batch) refl)
    | inr (f, e) ↦ (applied, rw (e, apply_batch) refl)
  ]

  In-batch-refused :
      (s : Store) (now applied : ℕ) (recs : List SignedRecord) (r : SignedRecord)
      → In r recs
      → refused ed (apply_batch ed s now applied recs).0 now r ≡ true
  In-batch-refused s now applied [] r m = absurd m
  In-batch-refused s now applied (x ∷ xs) r m =
      let (n, same) = apply_batch-cons s now applied x xs in
      let t = after s (put ed s now x) in
      ap (λ (u : Store). refused ed u now r) same ∙ elim m [
        | inl mine ↦ batch_kept ed t now n xs r (rw mine (put-refused ed s now x))
        | inr later ↦ In-batch-refused t now n xs r later
      ]

  module _ (server : Server) (moment now : ℕ) (k : PubKey) (r : SignedRecord) where
    abbrev batch : ℕ → List SignedRecord × Bool
    batch from = since server.store moment from max_sync_batch

    -- The record was not yet reached, and the watermark is from then on stuck: the batch from there is full of records
    -- that were issued in one and the same second, or it is too long for a response, and the pull has failed.
    abbrev pub IsDeferred : Pulled → Type 0
    IsDeferred p =
        (p.watermark ≤ r.rec.issued_at)
        × ((((batch p.watermark).1 ≡ false)
              × (batch_high p.watermark (batch p.watermark).0 ≡ p.watermark))
            ⊎ ((max_message_len
                  < length (encode_response (batch_response ed server moment p.watermark)))
                × (p.outcome ≡ err io)))

    abbrev Settles : Pulled → Type 0
    Settles p = (refused ed p.store now r ≡ true) ⊎ IsDeferred p

    batch_low : (from : ℕ) → from ≤ batch_high from (batch from).0
    batch_low from =
        batch_high-le from (batch from).0
          (λ x m. (since_sound server.store moment from max_sync_batch x m).3)

    batch_early :
        (from : ℕ)
        → All IsSigned (values server.store.records)
        → from < 2 ^ 64
        → batch_high from (batch from).0 < 2 ^ 64
    batch_early from signed early =
        batch_high-lt from (batch from).0
          (since-IsSigned ed server.store moment from max_sync_batch signed) early

    -- What is known of the store after the batch.
    batch_settles :
        (s : Store) (from applied : ℕ)
        → get server.store.records k ≡ some r
        → is_expired r.rec moment ≡ false
        → (refused ed s now r ≡ true) ⊎ (from ≤ r.rec.issued_at)
        → (refused ed (apply_batch ed s now applied (batch from).0).0 now r ≡ true)
          ⊎ (batch_high from (batch from).0 ≤ r.rec.issued_at)
    batch_settles s from applied held fresh (inl before) =
        inl (batch_kept ed s now applied (batch from).0 r before)
    batch_settles s from applied held fresh (inr late) =
        let high = batch_high from (batch from).0 in
        elim (Bool-cases (ltb r.rec.issued_at high)) [
          | inl low ↦ inl (
              In-batch-refused s now applied (batch from).0 r (
                since_window server.store moment from max_sync_batch k r held late fresh
                  (ground arith)))
          | inr high' ↦ inr (ground arith)
        ]

    batch_whole :
        (s : Store) (from applied : ℕ)
        → get server.store.records k ≡ some r
        → is_expired r.rec moment ≡ false
        → (batch from).1 ≡ true
        → (refused ed s now r ≡ true) ⊎ (from ≤ r.rec.issued_at)
        → refused ed (apply_batch ed s now applied (batch from).0).0 now r ≡ true
    batch_whole s from applied held fresh all (inl before) =
        batch_kept ed s now applied (batch from).0 r before
    batch_whole s from applied held fresh all (inr late) =
        In-batch-refused s now applied (batch from).0 r
          (since_complete server.store moment from max_sync_batch k r all held late fresh)

    same_time : (a b : ℕ) → a ≤ b → leb b a ≡ true → a ≡ b
    same_time a b le back = ground arith

    -- A batch that has nothing later than the watermark.
    batch_stuck :
        (t : Store) (from applied : ℕ)
        → (batch from).1 ≡ false
        → leb (batch_high from (batch from).0) from ≡ true
        → (refused ed t now r ≡ true) ⊎ (batch_high from (batch from).0 ≤ r.rec.issued_at)
        → Settles
            (record { outcome = ok applied; store = t; watermark = batch_high from (batch from).0 })
    batch_stuck t from applied more stuck (inl settled) = inl settled
    batch_stuck t from applied more stuck (inr late) =
        let same = same_time from (batch_high from (batch from).0) (batch_low from) stuck in
        inr (
          late,
          inl (
            subst (λ (w : ℕ). (batch w).1 ≡ false) same more,
            subst (λ (w : ℕ). batch_high w (batch w).0 ≡ w) same (sym same),
          ),
        )

    -- A batch that does not fit a response.
    batch_long :
        (s : Store) (from : ℕ)
        → leb (length (encode_response (batch_response ed server moment from))) max_message_len
          ≡ false
        → (refused ed s now r ≡ true) ⊎ (from ≤ r.rec.issued_at)
        → Settles (record { outcome = err io; store = s; watermark = from })
    batch_long s from long (inl before) = inl before
    batch_long s from long (inr late) = inr (late, inr (ground arith, refl))

    pull_loop-Settles :
        (fuel n : ℕ) (s : Store) (from applied : ℕ) (p : Pulled)
        → server.allow_sync ≡ true
        → All IsSigned (values server.store.records)
        → from < 2 ^ 64
        → get server.store.records k ≡ some r
        → is_expired r.rec moment ≡ false
        → (refused ed s now r ≡ true) ⊎ (from ≤ r.rec.issued_at)
        → pull_loop ed (peer_of ed server moment) now fuel n s from from applied ≡ some p
        → Settles p
    unfolding pull_loop
    pull_loop-Settles zero n s from applied p allowed signed early held fresh state e =
        absurd (ground arith)
    pull_loop-Settles (suc fuel) n s from applied p allowed signed early held fresh state e =
        let got = batch_of_peer ed server moment from n allowed signed early in
        let high = batch_high from (batch from).0 in
        let (t, applied') = apply_batch ed s now applied (batch from).0 in
        let settled = batch_settles s from applied held fresh state in
        elim (Bool-cases
          (leb (length (encode_response (batch_response ed server moment from))) max_message_len)) [
            | inr long ↦
                let reply : batch_of (peer_of ed server moment n (sync from max_sync_batch))
                    ≡ err io =
                  got ∙ rw long refl in
                subst Settles (some-injective _ _ (rw (reply, pull_loop) at e))
                  (batch_long s from long state)
            | inl fits ↦
                let reply : batch_of (peer_of ed server moment n (sync from max_sync_batch))
                    ≡ ok (batch from) =
                  got ∙ rw fits refl in
                elim (Bool-cases (batch from).1) [
                  | inl all ↦
                      subst Settles (some-injective _ _ (rw (reply, pull_loop, all) at e))
                        (inl (batch_whole s from applied held fresh all state))
                  | inr more ↦ elim (Bool-cases (leb high from)) [
                    | inl stuck ↦
                        subst Settles (some-injective _ _ (rw (reply, pull_loop, more, stuck) at e))
                          (batch_stuck t from applied' more stuck settled)
                    | inr moved ↦
                        pull_loop-Settles fuel (suc n) t high applied' p allowed signed
                          (batch_early from signed early) held fresh settled
                          (rw (reply, pull_loop, more, moved) at e)
                  ]
                ]
          ]

    -- A pull from a server that allows it, whose store stays as it is meanwhile and holds only records that the wire
    -- form can carry, and which is reached by bytes over a connection that loses nothing, loses no record that it holds,
    -- unexpired, and that was issued at the watermark or later: after the pull, putting the record changes nothing, or
    -- it is still ahead of the new watermark, which is stuck. Then the batch from there is cut off within a single second,
    -- or it has more than `max_message_len` bytes, so that the pull has failed with an I/O error.
    pub pull_catches_up :
        (s : Store) (watermark : ℕ) (p : Pulled)
        → server.allow_sync ≡ true
        → All IsSigned (values server.store.records)
        → get server.store.records k ≡ some r
        → is_expired r.rec moment ≡ false
        → watermark ≤ r.rec.issued_at
        → pull ed (record { link = peer_of ed server moment; watermark = watermark }) s now ≡ some p
        → (after p.store (put ed p.store now r) ≡ p.store) ⊎ IsDeferred p
    unfolding pull
    pull_catches_up s watermark p allowed signed held fresh late e =
        let mine =
          All-at (values server.store.records) r signed (In-values server.store.records k r held) in
        let early : watermark < 2 ^ 64 = omega (arith, mine.rec.issued_at) in
        elim (pull_loop-Settles (enough_rounds watermark) 0 s watermark 0 p allowed signed early
          held fresh (inr late) e) [
            | inl settled ↦ inl (refused-after ed p.store now r settled)
            | inr deferred ↦ inr deferred
          ]
