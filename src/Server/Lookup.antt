-- ===== src/Server/Lookup.antt =====
-- Answers to lookups and listings.
use sqns.Base.{
  ℕ, ◌-◌, ◌≤◌, ◌≡◌, inl, inr, refl, sym, ap, ◌∙◌, subst, false, Option, none, some, List, [],
  length, ◌==◌, ◌||◌, arith, Bool-cases, Option-cases,
}
use sqns.Errors.{Result, ok, err, Result-cases}
use sqns.Crypto.{Ed25519}
use sqns.Record.{PubKey, SignedRecord, successor, is_expired}
use sqns.Map.{get}
use sqns.Map.{values}
use sqns.Store.{
  sort_records, filter_since, put, stored, stale, Store, find, identity_records, since, found_of,
  keys_of,
}
use sqns.Store.Invariant.{IsConsistent}
use sqns.Store.Listing.{length-take-le}
use sqns.Upstream.{Upstream, Relayed}
use sqns.Upstream.Answers.{IsNext, IsReply, IsVerifiedCache, lookup_upstream-IsSound}
use sqns.Cache.Verified.{IsAnswer}
use sqns.Protocol.{
  Request, lookup, lookup_identity, publish, status, sync, Response, answer, records,
  max_sync_batch, published, counters, error,
}
use sqns.Base.{is_empty}
use sqns.Server.{Server, handle, handle_miss, handle_publish, relay, forwarded, clamp_limit}

-- The records of a listing.
abbrev pub listed : Response → List SignedRecord
listed (records rs complete) = rs
listed _ = []

module _ (ed : Ed25519) where
  -- A response to a lookup: a record that answers for the key, with at most one for the key that it forwards to, no
  -- record at all, or an error.
  abbrev pub IsLookupResponse : ℕ → PubKey → Response → Type 0
  IsLookupResponse now k (answer (some r) next) = IsAnswer ed now k r × IsNext ed now r next
  IsLookupResponse now k (answer none next) = next ≡ none
  IsLookupResponse now k (error code message) = Unit
  IsLookupResponse now k (published serial expires_at) = ⊥
  IsLookupResponse now k (counters info) = ⊥
  IsLookupResponse now k (records rs complete) = ⊥

  find-IsAnswer :
      (s : Store) (now : ℕ) (k : PubKey) (r : SignedRecord)
      → IsConsistent ed s
      → find s now k ≡ some r
      → IsAnswer ed now k r
  unfolding find
  find-IsAnswer s now k r h e =
      let (held, fresh) : (get s.records k ≡ some r) × (is_expired r.rec now ≡ false) =
        ground arith in
      let mine = h.held k r held in
      record { own_key = mine.own_key; verified = mine.verified; fresh = fresh }

  forwarded-IsNext :
      (s : Store) (now : ℕ) (r : SignedRecord)
      → IsConsistent ed s
      → IsNext ed now r (forwarded s now r)
  unfolding forwarded
  forwarded-IsNext s now r h = elim (Option-cases (successor r.rec)) [
    | inl last ↦ rw (last, forwarded, IsNext) tt
    | inr (k, named) ↦ elim (Option-cases (find s now k)) [
      | inl absent ↦ rw (named, forwarded, absent, IsNext) tt
      | inr (n, there) ↦
          let a = find-IsAnswer s now k n h there in
          rw (named, forwarded, there, IsNext)
            (
              named ∙ ap some (sym a.own_key),
              subst (λ (j : PubKey). IsAnswer ed now j n) (sym a.own_key) a,
            )
    ]
  ]

  relay_response :
      (now : ℕ) (k : PubKey) (x : Result (Option Relayed))
      → IsReply ed now k x
      → IsLookupResponse now k (relay x)
  unfolding relay
  relay_response now k (ok (some x)) h = h
  relay_response now k (ok none) h = refl
  relay_response now k (err e) h = tt

  handle_miss_sound :
      (s : Server) (now : ℕ) (k : PubKey) (recurse : ℕ)
      → IsVerifiedCache ed s.upstream.cache
      → IsLookupResponse now k (handle_miss ed s now k recurse).0
        × ((handle_miss ed s now k recurse).1.store ≡ s.store)
        × IsVerifiedCache ed (handle_miss ed s now k recurse).1.upstream.cache
  unfolding handle_miss
  handle_miss_sound s now k recurse h =
      elim (Bool-cases (recurse == 0 || is_empty s.upstream.links)) [
        | inl here ↦ rw (here, handle_miss) (refl, refl, h)
        | inr out ↦
            let (reply, kept) =
              lookup_upstream-IsSound ed s.upstream s.store now k (recurse - 1) h in
            rw (out, handle_miss) (relay_response now k _ reply, refl, kept)
      ]

  -- A server whose store is consistent and whose cached records are verified answers a lookup with an error, with no
  -- record at all, or with a verified, unexpired record for the key asked and at most such a record for the key it
  -- forwards to, and with nothing else, whatever the upstreams reply; the store stays as it is, and the cache verified.
  pub handle_lookup_sound :
      (s : Server) (now : ℕ) (k : PubKey) (recurse : ℕ)
      → IsConsistent ed s.store
      → IsVerifiedCache ed s.upstream.cache
      → IsLookupResponse now k (handle ed s now (lookup k recurse)).0
        × ((handle ed s now (lookup k recurse)).1.store ≡ s.store)
        × IsVerifiedCache ed (handle ed s now (lookup k recurse)).1.upstream.cache
  unfolding handle
  handle_lookup_sound s now k recurse c h = elim (Option-cases (find s.store now k)) [
    | inl absent ↦ rw (absent, handle) (handle_miss_sound s now k recurse h)
    | inr (r, there) ↦
        rw (there, handle)
          ((find-IsAnswer s.store now k r c there, forwarded-IsNext s.store now r c), refl, h)
  ]

  relay_lists : (x : Result (Option Relayed)) → listed (relay x) ≡ []
  unfolding relay
  relay_lists (ok (some x)) = refl
  relay_lists (ok none) = refl
  relay_lists (err e) = refl

  handle_miss_lists :
      (s : Server) (now : ℕ) (k : PubKey) (recurse : ℕ)
      → listed (handle_miss ed s now k recurse).0 ≡ []
  unfolding handle_miss
  handle_miss_lists s now k recurse =
      elim (Bool-cases (recurse == 0 || is_empty s.upstream.links)) [
        | inl here ↦ rw (here, handle_miss) refl
        | inr out ↦ rw (out, handle_miss) (relay_lists _)
      ]

  none_listed : (p : Response) → listed p ≡ [] → length (listed p) ≤ max_sync_batch
  none_listed p e = rw e (omega arith)

  handle_publish_lists :
      (s : Server) (now : ℕ) (r : SignedRecord) → listed (handle_publish ed s now r).0 ≡ []
  unfolding handle_publish
  handle_publish_lists s now r = elim (Result-cases (put ed s.store now r)) [
    | inl ((stored, t), e) ↦ rw (e, handle_publish) refl
    | inl ((stale, t), e) ↦ rw (e, handle_publish) refl
    | inr (x, e) ↦ rw (e, handle_publish) refl
  ]

  clamp_bound : (n : ℕ) → clamp_limit n ≤ max_sync_batch
  unfolding clamp_limit
  clamp_bound n = ground arith

  -- A response lists at most `max_sync_batch` records, whatever the request asks for.
  pub handle_records_bound :
      (s : Server) (now : ℕ) (req : Request)
      → length (listed (handle ed s now req).0) ≤ max_sync_batch
  unfolding handle identity_records since
  handle_records_bound s now (lookup k recurse) = elim (Option-cases (find s.store now k)) [
    | inl absent ↦
        rw (absent, handle)
          (none_listed (handle_miss ed s now k recurse).0 (handle_miss_lists s now k recurse))
    | inr (r, there) ↦ rw (there, handle) (omega arith)
  ]
  handle_records_bound s now (lookup_identity i) =
      length-take-le max_sync_batch (found_of (keys_of (get s.store.identity_index i)) s.store now)
  handle_records_bound s now (publish r) =
      none_listed (handle_publish ed s now r).0 (handle_publish_lists s now r)
  handle_records_bound s now status = omega arith
  handle_records_bound s now (sync from limit) = elim (Bool-cases s.allow_sync) [
    | inl allowed ↦
        rw (allowed, handle)
          (omega (
            arith,
            clamp_bound limit,
            length-take-le (clamp_limit limit)
                (sort_records (filter_since from now (values s.store.records))),
          ))
    | inr refused ↦ rw (refused, handle) (omega arith)
  ]

  -- A lookup that has no hop left to spend is answered from the store alone: the upstreams, and what
  -- is cached of them, make no difference, and the server stays as it is.
  pub handle_lookup_no_hops :
      (s : Server) (now : ℕ) (k : PubKey) (u : Upstream)
      → ((handle ed s now (lookup k 0)).0
          ≡ (handle ed (record s { upstream = u }) now (lookup k 0)).0)
        × ((handle ed s now (lookup k 0)).1 ≡ s)
        × ((handle ed s now (lookup k 0)).2 ≡ none)
  unfolding handle handle_miss
  handle_lookup_no_hops s now k u = elim (Option-cases (find s.store now k)) [
    | inl absent ↦ rw (absent, handle) (refl, refl, refl)
    | inr (r, there) ↦ rw (there, handle) (refl, refl, refl)
  ]
