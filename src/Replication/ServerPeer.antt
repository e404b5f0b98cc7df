-- ===== src/Replication/ServerPeer.antt =====
-- A server of this program as a peer, reached by the bytes of requests and responses, and the batches that it sends.
use sqns.Base.{
  In, ℕ, zero, suc, ◌≤◌, ◌<◌, ◌≡◌, refl, sym, ap, subst, ◌∙◌, inl, inr, true, false, some, List, [],
  ◌∷◌, All, take, ltb, leb, arith, Bool-cases, ◌^◌, ◌%◌, ◌++◌, length, length-append, if◌then◌else◌,
}
use sqns.Bytes.{Bytes, be_bytes, length-be_bytes}
use sqns.Errors.{ok, err, io}
use sqns.Crypto.{Ed25519}
use sqns.Record.{PubKey, SignedRecord, is_expired}
use sqns.Map.{get, values}
use sqns.Record.Wire.Layout.{IsSigned}
use sqns.Protocol.{
  Response, records, sync, max_sync_batch, max_message_len, request_type, encode_request,
  encode_response, write_request, write_frame,
}
use sqns.Connect.{exchange}
use sqns.Server.Stream.{connection_to, exchange_serve}
use sqns.Store.{Store, since, sort_records, filter_since}
use sqns.Store.Listing.{
  IsOldestFirst, length-take-le, In-values, In-filter_since, In-sort, sort-IsOldestFirst,
  since_sound,
}
use sqns.Server.{Server, handle, clamp_limit}
use sqns.Replication.{PeerLink, batch_of, high_of, batch_high}

pub batch_high-le :
    (from : ℕ) (recs : List SignedRecord)
    → ((r : SignedRecord) → In r recs → from ≤ r.rec.issued_at)
    → from ≤ batch_high from recs
unfolding batch_high high_of
batch_high-le from [] h = omega arith
batch_high-le from (r ∷ rs) h = ground (arith, h r (inl refl))

high_of-lt : (recs : List SignedRecord) → All IsSigned recs → high_of recs < 2 ^ 64
unfolding high_of
high_of-lt [] h = omega arith
high_of-lt (r ∷ rs) h = ground (arith, h.0.rec.issued_at, high_of-lt rs h.1)

pub batch_high-lt :
    (from : ℕ) (recs : List SignedRecord)
    → All IsSigned recs
    → from < 2 ^ 64
    → batch_high from recs < 2 ^ 64
unfolding batch_high
batch_high-lt from [] h early = early
batch_high-lt from (r ∷ rs) h early = high_of-lt (r ∷ rs) h

All-of : (xs : List SignedRecord) → ((x : SignedRecord) → In x xs → IsSigned x) → All IsSigned xs
All-of [] h = tt
All-of (x ∷ xs) h = (h x (inl refl), All-of xs λ y m. h y (inr m))

pub All-at : (xs : List SignedRecord) (x : SignedRecord) → All IsSigned xs → In x xs → IsSigned x
All-at (y ∷ xs) x h (inl same) = subst IsSigned (sym same) h.0
All-at (y ∷ xs) x h (inr m) = All-at xs x h.1 m
All-at [] x h m = absurd m

-- What is older than the latest record of a sorted prefix is in the prefix.
In-take-high :
    (n : ℕ) (xs : List SignedRecord) (r : SignedRecord)
    → IsOldestFirst xs
    → In r xs
    → r.rec.issued_at < high_of (take n xs)
    → In r (take n xs)
unfolding high_of
In-take-high zero xs r h m low = absurd (ground arith)
In-take-high (suc n) [] r h m low = m
In-take-high (suc n) (x ∷ xs) r h (inl same) low = inl same
In-take-high (suc n) (x ∷ xs) r h (inr m) low =
    inr (In-take-high n xs r h.1 m (later (older xs h.0 m) low))
  where
    older :
        (ys : List SignedRecord)
        → All (λ y. x.rec.issued_at ≤ y.rec.issued_at) ys
        → In r ys
        → x.rec.issued_at ≤ r.rec.issued_at
    older (y ∷ ys) (a, b) (inl same) = ground arith
    older (y ∷ ys) (a, b) (inr m') = older ys b m'
    older [] a m' = absurd m'

    later :
        x.rec.issued_at ≤ r.rec.issued_at
        → r.rec.issued_at < high_of (x ∷ take n xs)
        → r.rec.issued_at < high_of (take n xs)
    later le lt = ground arith

pub since_window :
    (s : Store) (now from limit : ℕ) (k : PubKey) (r : SignedRecord)
    → get s.records k ≡ some r
    → from ≤ r.rec.issued_at
    → is_expired r.rec now ≡ false
    → r.rec.issued_at < batch_high from (since s now from limit).0
    → In r (since s now from limit).0
unfolding since batch_high
since_window s now from limit k r held late fresh low =
    let whole = sort_records (filter_since from now (values s.records)) in
    In-take-high limit whole r (sort-IsOldestFirst (filter_since from now (values s.records)))
      (In-sort r (filter_since from now (values s.records))
        (In-filter_since from now (values s.records) r (In-values s.records k r held) late fresh))
      (below (take limit whole) low)
  where
    below :
        (xs : List SignedRecord)
        → r.rec.issued_at < batch_high from xs
        → r.rec.issued_at < high_of xs
    below [] h = absurd (omega arith)
    below (x ∷ xs) h = h

module _ (ed : Ed25519) where
  -- A server as a peer, at the time `moment`: over a connection that loses nothing, with the encoders, the decoders and
  -- the limit of a frame.
  abbrev pub peer_of : Server → ℕ → PeerLink
  peer_of server moment n req = exchange (connection_to ed server moment) req

  write_sync : (from n : ℕ) → (out : Bytes) × (write_request (sync from n) ≡ ok out)
  unfolding write_request write_frame encode_request
  write_sync from n =
      let payload = be_bytes 8 from ++ be_bytes 2 n in
      let short : ltb max_message_len (length payload) ≡ false = ground (
        arith,
        length-append (be_bytes 8 from) (be_bytes 2 n),
        length-be_bytes 8 from,
        length-be_bytes 2 n,
      ) in
      (
        request_type (sync from n) ∷ (be_bytes 4 (length payload % 2 ^ 32) ++ payload),
        rw (write_request, write_frame, short) refl,
      )

  -- The records of a batch are those of the store.
  pub since-IsSigned :
      (s : Store) (moment from limit : ℕ)
      → All IsSigned (values s.records)
      → All IsSigned (since s moment from limit).0
  since-IsSigned s moment from limit h =
      All-of (since s moment from limit).0
        λ x m. All-at (values s.records) x h ((since_sound s moment from limit x m).2)

  handle_sync :
      (server : Server) (moment from : ℕ)
      → server.allow_sync ≡ true
      → (handle ed server moment (sync from max_sync_batch)).0
        ≡ records
            (since server.store moment from max_sync_batch).0
            (since server.store moment from max_sync_batch).1
  unfolding handle clamp_limit
  handle_sync server moment from allowed = rw allowed refl

  -- The response to the request for the batch from a time on.
  abbrev pub batch_response : Server → ℕ → ℕ → Response
  batch_response server moment from =
      records (since server.store moment from max_sync_batch).0
        (since server.store moment from max_sync_batch).1

  pub batch_of_peer :
      (server : Server) (moment from n : ℕ)
      → server.allow_sync ≡ true
      → All IsSigned (values server.store.records)
      → from < 2 ^ 64
      → batch_of (peer_of server moment n (sync from max_sync_batch)) ≡ (
          if leb (length (encode_response (batch_response server moment from))) max_message_len
          then ok (since server.store moment from max_sync_batch)
          else err io)
  batch_of_peer server moment from n allowed signed early =
      let (out, written) = write_sync from max_sync_batch in
      let reply = handle_sync server moment from allowed in
      let few : length (since server.store moment from max_sync_batch).0 ≤ max_sync_batch =
        unfold since in
        length-take-le max_sync_batch
          (sort_records (filter_since from moment (values server.store.records))) in
      let got =
        (exchange_serve ed server moment (sync from max_sync_batch) out (early, omega arith) written
          (rw reply (few, since-IsSigned server.store moment from max_sync_batch signed))).0 in
      elim (Bool-cases
        (leb (length (encode_response (batch_response server moment from))) max_message_len)) [
          | inl fits ↦
              let answered : peer_of server moment n (sync from max_sync_batch)
                  ≡ ok (batch_response server moment from) =
                got ∙ rw (reply, fits) refl in
              ap batch_of answered ∙ rw fits refl
          | inr long ↦
              let failed : peer_of server moment n (sync from max_sync_batch) ≡ err io =
                got ∙ rw (reply, long) refl in
              ap batch_of failed ∙ rw long refl
        ]
