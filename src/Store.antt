-- ===== src/Store.antt =====
-- crates/sqnsd/src/store.rs: the record store. A method takes the store and the time `now_unix()`
-- and returns the new store; the locks are held for the whole of a call here, and `Store/Race` takes
-- the two critical sections of `put` apart. The path of the snapshot is an argument of `persist` and `open`, in `Store/Persist`.
pub mod Invariant
pub mod History
pub mod Merge
pub mod Replay
pub mod Race
pub mod Overlap
pub mod Listing
pub mod Spec
pub mod Snapshot
pub mod Restart
pub mod Persist
use sqns.Base.{
  ℕ, ◌+◌, ◌-◌, ◌%◌, ◌^◌, ◌<◌, Bool, true, false, not, ◌&&◌, ◌||◌, Option, none, some, List, [], ◌∷◌,
  length, take, ltb, leb, ◌==◌, if◌then◌else◌,
}
use sqns.Bytes.{Bytes, bytes_eq, bytes_lt}
use sqns.Errors.{Error, malformed_record, Result, ok, err, check, ◌>>=◌, ◌>>◌}
use sqns.Crypto.{Ed25519}
use sqns.Record.{
  PubKey, Record, SignedRecord, identity, successor, is_terminal, is_expired, expires_at,
  delegation_expired, supersedes, max_clock_skew,
}
use sqns.Record.Authority.{validate, verify, revocation_error}
use sqns.Map.{Map, get, insert, retain, or_insert, set_insert, values}

pub data PutOutcome : Type 0 where
  stored stale : PutOutcome

pub record Store : Type 0 where
  pub records : Map SignedRecord
  pub bindings : Map PubKey
  pub identity_index : Map (List PubKey)
  pub revision : ℕ

abbrev pub new_store : Store
new_store = record { records = []; bindings = []; identity_index = []; revision = 0 }

-- `fetch_add(1)` on the `AtomicU64`.
abbrev pub bump : ℕ → ℕ
bump n = (n + 1) % 2 ^ 64

abbrev pub keys_of : Option (List PubKey) → List PubKey
keys_of none = []
keys_of (some ks) = ks

unfoldable pub bind : Store → PubKey → PubKey → Store
bind s service_key identity = record s {
  bindings = or_insert s.bindings service_key identity;
  identity_index =
      insert s.identity_index identity
        (set_insert service_key (keys_of (get s.identity_index identity)));
}

-- The error a held record's retirement is reported as, if it retires its key.
unfoldable pub retirement_error : SignedRecord → Option Error
unfolding revocation_error successor
retirement_error held = elim (successor held.rec) [
  | some next ↦ some (Error.superseded held.rec.key next)
  | none ↦ revocation_error held
]

unfoldable pub check_retired : Option SignedRecord → Result (Unit {0})
unfolding retirement_error
check_retired none = ok tt
check_retired (some held) = elim (retirement_error held) [ some e ↦ err e | none ↦ ok tt ]

unfoldable pub check_bound : Option PubKey → PubKey → Result (Unit {0})
check_bound none claimed = ok tt
check_bound (some bound) claimed = check (bytes_eq claimed bound) Error.delegation

-- `Some(held) if !record.supersedes(held)`
unfoldable pub outranked : SignedRecord → Option SignedRecord → Bool
outranked r none = false
outranked r (some held) = not (supersedes r.rec held.rec)

unfoldable pub keep : Store → SignedRecord → Store
keep s r = record s { records = insert s.records r.rec.key r }

-- `records.insert`, `bind`, `revision.fetch_add(1)`
unfoldable pub replace : Store → SignedRecord → Store
unfolding bind keep
replace s r =
    let s' = bind (keep s r) r.rec.key (identity r.rec) in record s' { revision = bump s'.revision }

module _ (ed : Ed25519) where
  -- The part of `put` that looks at the record and the clock alone.
  unfoldable pub admit : ℕ → SignedRecord → Result (Unit {0})
  admit now r = do
    validate ed r.rec
    verify ed r
    check (not (ltb (now + max_clock_skew) r.rec.issued_at)) malformed_record
    check (not (is_expired r.rec now)) (Error.expired (now - expires_at r.rec))
    check (not (delegation_expired r.rec.delegation now && not (is_terminal r.rec)))
        Error.delegation

  unfoldable pub put : Store → ℕ → SignedRecord → Result (PutOutcome × Store)
  unfolding check_retired check_bound outranked replace
  put s now r = do
    admit now r
    let key = r.rec.key
    let held = get s.records key
    check_retired held
    check_bound (get s.bindings key) (identity r.rec)
    if outranked r held then ok (stale, s) else ok (stored, replace s r)

  -- `put` up to `drop(records)`, under the lock of the records: the binding is read, not yet written.
  unfoldable pub put_locked : Store → ℕ → SignedRecord → Result (PutOutcome × Store)
  unfolding check_retired check_bound outranked keep
  put_locked s now r = do
    admit now r
    let key = r.rec.key
    let held = get s.records key
    check_retired held
    check_bound (get s.bindings key) (identity r.rec)
    if outranked r held then ok (stale, s) else ok (stored, keep s r)

-- The rest of a `put` that stores, when the lock is gone.
unfoldable pub put_unlocked : Store → SignedRecord → Store
unfolding bind
put_unlocked s r =
    let s' = bind s r.rec.key (identity r.rec) in record s' { revision = bump s'.revision }

-- `Store::get`
unfoldable pub find : Store → ℕ → PubKey → Option SignedRecord
find s now key = elim (get s.records key) [
  | some r ↦ if is_expired r.rec now then none else some r
  | none ↦ none
]

unfoldable pub identity_of : Store → PubKey → Option PubKey
identity_of s service_key = get s.bindings service_key

unfoldable pub found_of : List PubKey → Store → ℕ → List SignedRecord
unfolding find
found_of [] s now = []
found_of (k ∷ ks) s now =
    let rest = found_of ks s now in elim (find s now k) [ some r ↦ r ∷ rest | none ↦ rest ]

unfoldable pub identity_records : Store → ℕ → PubKey → ℕ → List SignedRecord
unfolding found_of
identity_records s now identity limit =
    take limit (found_of (keys_of (get s.identity_index identity)) s now)

-- The order of `sort_by_key(|rec| (rec.record.issued_at, rec.key()))`.
unfoldable pub goes_before : SignedRecord → SignedRecord → Bool
goes_before r x =
    if ltb r.rec.issued_at x.rec.issued_at
    then true
    else (r.rec.issued_at == x.rec.issued_at && bytes_lt r.rec.key x.rec.key)

-- A stable sort: an element goes before the first that it does not follow.
unfoldable pub insert_sorted : SignedRecord → List SignedRecord → List SignedRecord
unfolding goes_before
insert_sorted r [] = r ∷ []
insert_sorted r (x ∷ xs) =
    let rest = insert_sorted r xs in if goes_before x r then x ∷ rest else r ∷ (x ∷ xs)

unfoldable pub sort_records : List SignedRecord → List SignedRecord
unfolding insert_sorted
sort_records [] = []
sort_records (r ∷ rs) = insert_sorted r (sort_records rs)

unfoldable pub filter_since : ℕ → ℕ → List SignedRecord → List SignedRecord
filter_since from now [] = []
filter_since from now (r ∷ rs) =
    let rest = filter_since from now rs in
    if leb from r.rec.issued_at && not (is_expired r.rec now) then r ∷ rest else rest

-- `Store::since`: the records of the batch, and whether it holds all there are.
unfoldable pub since : Store → ℕ → ℕ → ℕ → List SignedRecord × Bool
since s now from limit =
    let out = sort_records (filter_since from now (values s.records)) in
    (take limit out, leb (length out) limit)

unfoldable pub purge_expired : Store → ℕ → Store × ℕ
purge_expired s now =
    let kept = retain (λ r. not (is_expired r.rec now)) s.records in
    let removed = length s.records - length kept in
    (
      record s { records = kept; revision = if ltb 0 removed then bump s.revision else s.revision },
      removed,
    )
