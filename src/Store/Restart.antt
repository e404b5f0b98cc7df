-- ===== src/Store/Restart.antt =====
-- What a restart keeps: a store that was written to a snapshot and is opened from it later.
use sqns.Base.{
  ℕ, ◌+◌, ◌^◌, ◌≤◌, ◌<◌, ◌≡◌, refl, ap, ◌∙◌, Bool, true, false, Option, none, some, List, [], ◌∷◌,
  length, All, arith, Bool-cases, inl, inr, if◌then◌else◌,
}
use sqns.Bytes.{Bytes, bytes_eq, bytes_eq_sound, bytes_eq_refl}
use sqns.Errors.{Error, Result, ok, err, Result-cases}
use sqns.Crypto.{Ed25519}
use sqns.Record.{PubKey, SignedRecord, identity, is_terminal, is_expired, max_clock_skew}
use sqns.Record.Order.{is_expired-is_terminal}
use sqns.Record.Authority.{validate, verify}
use sqns.Record.Wire.Layout.{IsSigned}
use sqns.Map.{Map, get, values}
use sqns.Map.Laws.{IsMap}
use sqns.Store.{
  Store, stored, new_store, admit, put, replace, check_retired, check_bound, outranked,
}
use sqns.Store.Invariant.{IsConsistent, get-records-replace, get-bindings-replace}
use sqns.Store.Snapshot.{
  sort_bindings, insert_all, bind_all, store_of, load, open_snapshot, snapshot_of, decode_snapshot,
}
use sqns.Store.Snapshot.Bindings.{
  sort_bindings-IsMap, get-insert_all, get-bind_all, insert_all-IsMap,
}
use sqns.Store.Snapshot.RoundTrip.{IsBinding, decode_snapshot-encode_snapshot}

module _ (ed : Ed25519) where
  -- The checks of `put` that look at the record and the clock alone.
  unfoldable pub admitted : ℕ → SignedRecord → Bool
  admitted now r = elim (admit ed now r) [ ok _ ↦ true | err _ ↦ false ]

  abbrev pub kept : ℕ → Option SignedRecord → Option SignedRecord
  kept now none = none
  kept now (some r) = if admitted now r then some r else none

  -- One round of the loop.
  abbrev round : Store → ℕ → SignedRecord → Store
  round t now r = if is_expired r.rec now then t else store_of t (put ed t now r)

  admit-is_expired :
      (now : ℕ) (r : SignedRecord) → admit ed now r ≡ ok tt → is_expired r.rec now ≡ false
  unfolding admit
  admit-is_expired now r e = ground arith

  put_free :
      (t : Store) (now : ℕ) (r : SignedRecord)
      → admit ed now r ≡ ok tt
      → get t.records r.rec.key ≡ none
      → get t.bindings r.rec.key ≡ some (identity r.rec)
      → put ed t now r ≡ ok (stored, replace t r)
  unfolding put check_bound check_retired outranked
  put_free t now r a free bound = ground (arith, bytes_eq_refl (identity r.rec))

  put_refused :
      (t : Store) (now : ℕ) (r : SignedRecord) (e : Error)
      → admit ed now r ≡ err e
      → put ed t now r ≡ err e
  unfolding put
  put_refused t now r e bad = ground arith

  -- For a key that has its binding and no record, a round stores the record if it passes its checks.
  round-lem :
      (t : Store) (now : ℕ) (r : SignedRecord)
      → get t.records r.rec.key ≡ none
      → get t.bindings r.rec.key ≡ some (identity r.rec)
      → round t now r ≡ (if admitted now r then replace t r else t)
  unfolding admitted
  round-lem t now r free bound = elim (Result-cases (admit ed now r)) [
    | inl (u, good) ↦
        rw (put_free t now r good free bound, admit-is_expired now r good, good, admitted) refl
    | inr (e, bad) ↦ rw (put_refused t now r e bad, bad, admitted) (either (is_expired r.rec now))
  ]
    where
      either : (b : Bool) → (if b then t else t) ≡ t
      either true = refl
      either false = refl

  round-get :
      (t : Store) (now : ℕ) (r : SignedRecord) (k : PubKey)
      → get t.records r.rec.key ≡ none
      → get t.bindings r.rec.key ≡ some (identity r.rec)
      → (get (round t now r).records k
          ≡ (if bytes_eq r.rec.key k then kept now (some r) else get t.records k))
        × (get (round t now r).bindings k ≡ get t.bindings k)
  round-get t now r k free bound = rw (round-lem t now r free bound) (
      ground
        (arith, bytes_eq_sound r.rec.key k, get-records-replace t r k, get-bindings-replace t r k))

  -- The records of a map that are still to be loaded: each is under its own key, which has its binding and
  -- no record.
  abbrev Waiting : Store → Map SignedRecord → Type 0
  Waiting t m =
      (k : PubKey) (r : SignedRecord)
      → get m k ≡ some r
      → (r.rec.key ≡ k) × (get t.bindings k ≡ some (identity r.rec)) × (get t.records k ≡ none)

  Waiting-on :
      (t : Store) (now : ℕ) (j : PubKey) (r : SignedRecord) (m : Map SignedRecord)
      → get m j ≡ none
      → Waiting t ((j, r) ∷ m)
      → r.rec.key ≡ j
      → get t.records r.rec.key ≡ none
      → get t.bindings r.rec.key ≡ some (identity r.rec)
      → Waiting (round t now r) m
  unfolding get
  Waiting-on t now j r m absent w own free bound k x e = elim (Bool-cases (bytes_eq j k)) [
    | inl same ↦ absurd (ground (arith, bytes_eq_sound j k))
    | inr other ↦
        let (mine, bound', free') = w k x (rw other e) in
        let (recs, binds) = round-get t now r k free bound in
        (mine, binds ∙ bound', recs ∙ ground (arith, own))
  ]

  load-lem :
      (t : Store) (now : ℕ) (m : Map SignedRecord) (k : PubKey)
      → IsMap m
      → Waiting t m
      → (get (load ed t now (values m)).records k
          ≡ elim (get m k) [ some r ↦ kept now (some r) | none ↦ get t.records k ])
        × (get (load ed t now (values m)).bindings k ≡ get t.bindings k)
  unfolding load values get
  load-lem t now [] k h w = (refl, refl)
  load-lem t now ((j, r) ∷ m) k h w =
      let (own, bound, free) = w j r (rw (bytes_eq_refl j) refl) in
      let free' : get t.records r.rec.key ≡ none = ap (get t.records) own ∙ free in
      let bound' : get t.bindings r.rec.key ≡ some (identity r.rec) =
        ap (get t.bindings) own ∙ bound in
      let (recs, binds) =
        load-lem (round t now r) now m k h.1 (Waiting-on t now j r m h.0 w own free' bound') in
      let (recs', binds') = round-get t now r k free' bound' in
      (ground (arith, recs, recs', own, bytes_eq_sound j k, h.0), binds ∙ binds')

  -- The store that the loop starts from.
  abbrev rebound : Store → Store
  rebound s = bind_all new_store (insert_all [] (sort_bindings s.bindings))

  bound_again :
      (s : Store) (k : PubKey)
      → IsMap s.bindings
      → (get (rebound s).bindings k ≡ get s.bindings k) × (get (rebound s).records k ≡ none)
  unfolding get
  bound_again s k h =
      let sorted = sort_bindings s.bindings in
      let (ordered, same) = sort_bindings-IsMap s.bindings h in
      let (binds, recs) =
        get-bind_all new_store (insert_all [] sorted) k (insert_all-IsMap [] sorted tt) in
      (
        binds ∙ get-insert_all [] sorted k ordered ∙ back (get sorted k) ∙ same k,
        ap (λ (m : Map SignedRecord). get m k) recs,
      )
    where
      back : (o : Option PubKey) → elim o [ some i ↦ some i | none ↦ none ] ≡ o
      back none = refl
      back (some i) = refl

  abbrev from_decoded : ℕ → Result (List SignedRecord × Map PubKey) → Store
  from_decoded now (ok (recs, bindings)) = load ed (bind_all new_store bindings) now recs
  from_decoded now (err e) = new_store

  open_snapshot-lem :
      (now : ℕ) (file : Bytes) (d : Result (List SignedRecord × Map PubKey))
      → decode_snapshot file ≡ d
      → open_snapshot ed now file ≡ from_decoded now d
  unfolding open_snapshot
  open_snapshot-lem now file (ok (recs, bindings)) e = rw (e, open_snapshot) refl
  open_snapshot-lem now file (err f) e = rw (e, open_snapshot) refl

  opened :
      (s : Store) (now : ℕ)
      → All IsSigned (values s.records)
      → All IsBinding s.bindings
      → length (values s.records) < 2 ^ 32
      → length s.bindings < 2 ^ 32
      → open_snapshot ed now (snapshot_of s) ≡ load ed (rebound s) now (values s.records)
  unfolding snapshot_of
  opened s now signed pairs few few' =
      open_snapshot-lem now (snapshot_of s) _
        (decode_snapshot-encode_snapshot (values s.records) s.bindings signed pairs few few')

  -- A consistent store of records and keys that the wire form can carry, fewer than 2^32 of each, is
  -- opened from its snapshot, at any time, with the same bindings, and with those of its records that
  -- then pass the checks of a `put`.
  pub restart :
      (s : Store) (now : ℕ) (k : PubKey)
      → IsConsistent ed s
      → All IsSigned (values s.records)
      → All IsBinding s.bindings
      → length (values s.records) < 2 ^ 32
      → length s.bindings < 2 ^ 32
      → (get (open_snapshot ed now (snapshot_of s)).bindings k ≡ get s.bindings k)
        × (get (open_snapshot ed now (snapshot_of s)).records k ≡ kept now (get s.records k))
  restart s now k h signed pairs few few' =
      let waiting : Waiting (rebound s) s.records = λ j x e.
        let mine = h.held j x e in
        let (binds, recs) = bound_again s j h.one_binding in
        (mine.own_key, binds ∙ mine.bound, recs) in
      let (recs, binds) = load-lem (rebound s) now s.records k h.one_record waiting in
      let (binds', recs') = bound_again s k h.one_binding in
      let same = opened s now signed pairs few few' in
      (
        ap (λ (t : Store). get t.bindings k) same ∙ binds ∙ binds',
        ap (λ (t : Store). get t.records k) same ∙ recs ∙ else_none (get s.records k) recs',
      )
    where
      else_none :
          {old : Option SignedRecord} (o : Option SignedRecord)
          → old ≡ none
          → elim o [ some r ↦ kept now (some r) | none ↦ old ] ≡ kept now o
      else_none none e = e
      else_none (some r) e = refl

  retired_admitted :
      (s : Store) (now : ℕ) (x : SignedRecord)
      → validate ed x.rec ≡ ok tt
      → verify ed x ≡ ok tt
      → is_terminal x.rec ≡ true
      → x.rec.issued_at ≤ now + max_clock_skew
      → admitted now x ≡ true
  unfolding admitted admit
  retired_admitted s now x v w dead early = ground (arith, is_expired-is_terminal x.rec now)

  -- Of a consistent store of records and keys that the wire form can carry, fewer than 2^32 of each: a
  -- held record that retires its key is held again after a restart, if the clock is then not more than
  -- the skew that is allowed before its time of issue.
  pub restart_retired :
      (s : Store) (now : ℕ) (k : PubKey) (x : SignedRecord)
      → IsConsistent ed s
      → All IsSigned (values s.records)
      → All IsBinding s.bindings
      → length (values s.records) < 2 ^ 32
      → length s.bindings < 2 ^ 32
      → get s.records k ≡ some x
      → is_terminal x.rec ≡ true
      → x.rec.issued_at ≤ now + max_clock_skew
      → get (open_snapshot ed now (snapshot_of s)).records k ≡ some x
  restart_retired s now k x h signed pairs few few' held dead early =
      let mine = h.held k x held in
      (restart s now k h signed pairs few few').1
      ∙ ap (kept now) held
      ∙ rw (retired_admitted s now x mine.valid mine.verified dead early) refl
