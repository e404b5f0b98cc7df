-- ===== src/Server/Publish.antt =====
-- What becomes of a record that is published.
use sqns.Base.{ℕ, ◌≡◌, ◌⊎◌, inl, inr, [], false, sym, ap, refl, ◌∙◌, none, some, arith}
use mathlib.Core.Bool.{true≢false}
use sqns.Bytes.{bytes_eq_refl}
use sqns.Errors.{ok, Result-cases}
use sqns.Crypto.{Ed25519}
use sqns.Record.{SignedRecord, expires_at}
use sqns.Map.{get}
use sqns.Store.{Store, stored, stale, outranked, put}
use sqns.Store.Replay.{outranked_self}
use sqns.Store.Invariant.{put-eq-stored, put-eq-stale, get-records-replace}
use sqns.Protocol.{ErrorCode, published, error, publish}
use sqns.Server.{Server, handle, handle_publish}

module _ (ed : Ed25519) where
  get-put-stored :
      (s t : Store) (now : ℕ) (r : SignedRecord)
      → put ed s now r ≡ ok (stored, t)
      → get t.records r.rec.key ≡ some r
  get-put-stored s t now r e =
      let st = put-eq-stored ed s now r t e in
      rw st.result (get-records-replace s r r.rec.key ∙ rw (bytes_eq_refl r.rec.key) refl)

  pub handle_stored :
      (s : Server) (now : ℕ) (rec : SignedRecord) (t : Store)
      → put ed s.store now rec ≡ ok (stored, t)
      → handle ed s now (publish rec)
        ≡ (published rec.rec.serial (expires_at rec.rec), record s { store = t }, some rec)
  unfolding handle handle_publish
  handle_stored s now rec t e = rw (handle, handle_publish, e) refl

  -- The publisher is told its serial and expiry exactly if the record is then the one held for its
  -- key and is handed on to the peers; for an error nothing changes and nothing is handed on.
  pub handle-publish_outcome :
      (s : Server) (now : ℕ) (r : SignedRecord)
      → (((handle ed s now (publish r)).0 ≡ published r.rec.serial (expires_at r.rec))
          × (get (handle ed s now (publish r)).1.store.records r.rec.key ≡ some r)
          × ((handle ed s now (publish r)).2 ≡ some r))
        ⊎ ((code : ErrorCode) × ((handle ed s now (publish r)).0 ≡ error code [])
            × ((handle ed s now (publish r)).1.store ≡ s.store)
            × ((handle ed s now (publish r)).2 ≡ none))
  unfolding handle handle_publish
  handle-publish_outcome s now r = elim (Result-cases (put ed s.store now r)) [
    | inl ((stored, t), e) ↦
        rw (e, handle, handle_publish) (inl (refl, get-put-stored s.store t now r e, refl))
    | inl ((stale, t), e) ↦
        rw (e, handle, handle_publish) (inr (_, refl, put-eq-stale ed s.store now r t e, refl))
    | inr (x, e) ↦ rw (e, handle, handle_publish) (inr (_, refl, refl, refl))
  ]

  stored_outranks :
      (s t : Store) (now : ℕ) (r : SignedRecord)
      → put ed s now r ≡ ok (stored, t)
      → outranked r (get s.records r.rec.key) ≡ false
  unfolding put
  stored_outranks s t now r e = ground arith

  -- A publish that is sent again, after a first one was stored and before anything else happens at the server, gets
  -- an error at any later time, leaves the store as the first one left it, and is not handed on again.
  pub handle-publish_again :
      (s : Server) (now later : ℕ) (r : SignedRecord)
      → (handle ed s now (publish r)).2 ≡ some r
      → (code : ErrorCode) × ((handle ed (handle ed s now (publish r)).1 later (publish r)).0
          ≡ error code [])
        × ((handle ed (handle ed s now (publish r)).1 later (publish r)).1.store
            ≡ (handle ed s now (publish r)).1.store)
        × ((handle ed (handle ed s now (publish r)).1 later (publish r)).2 ≡ none)
  unfolding handle handle_publish
  handle-publish_again s now later r sent =
      let s' = (handle ed s now (publish r)).1 in
      elim (handle-publish_outcome s now r) [
        | inr (code, failed, same, dropped) ↦ absurd (ground arith)
        | inl (done, held, handed) ↦ elim (Result-cases (put ed s'.store later r)) [
          | inl ((stored, t), e) ↦ absurd (
              true≢false (
                sym (outranked_self ed r)
                ∙ sym (ap (outranked r) held)
                ∙ stored_outranks s'.store t later r e))
          | inl ((stale, t), e) ↦
              rw (e, handle, handle_publish) (_, refl, put-eq-stale ed s'.store later r t e, refl)
          | inr (x, e) ↦ rw (e, handle, handle_publish) (_, refl, refl, refl)
        ]
      ]
