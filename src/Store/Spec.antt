-- ===== src/Store/Spec.antt =====
-- What a store promises, without its tables: each key has a slot, which goes from unseen to bound for
-- good, and to retired for good. `put` and `purge_expired` refine the transitions of the slots.
use mathlib.Core.Path.{ap₂, fun_ext}
use sqns.Base.{
  ℕ, ◌≡◌, refl, sym, ap, ◌∙◌, Bool, true, false, not, Option, none, some, arith, Bool-cases,
  Option-cases, inl, inr, if◌then◌else◌,
}
use sqns.Bytes.{bytes_eq, bytes_eq_sound}
use sqns.Errors.{Error, malformed_record, Result, ok, err, check, ◌>>=◌, ◌>>◌, Result-cases}
use sqns.Crypto.{Ed25519}
use sqns.Record.{
  PubKey, SignedRecord, identity, is_terminal, is_superseded, is_revoked, is_expired, supersedes,
  successor,
}
use sqns.Record.Authority.{revocation_error}
use sqns.Record.Order.{is_expired-is_terminal}
use sqns.Map.{get}
use sqns.Store.{
  Store, PutOutcome, stored, stale, admit, put, find, replace, purge_expired, check_retired,
  check_bound, outranked, retirement_error,
}
use sqns.Store.Invariant.{
  check_bound_same, IsConsistent, get-records-replace, get-bindings-replace, get-records-purge,
}

-- A key that no record was seen for, one that is bound to an identity without a record, and one that is
-- bound and has a record, which retires it or not.
pub data Slot : Type 0 where
  unseen : Slot
  bound : PubKey → Slot
  live_slot : PubKey → SignedRecord → Slot
  retired : PubKey → SignedRecord → Slot

abbrev pub holding : PubKey → SignedRecord → Slot
holding i r = if is_terminal r.rec then retired i r else live_slot i r

abbrev pub SlotMap : Type 0
SlotMap = PubKey → Slot

-- An acceptable record comes for its key.
pub step : Slot → SignedRecord → Result (PutOutcome × Slot)
step unseen r = ok (stored, holding (identity r.rec) r)
step (bound i) r = do check (bytes_eq (identity r.rec) i) Error.delegation; ok (stored, holding i r)
step (live_slot i x) r = do
  check (bytes_eq (identity r.rec) i) Error.delegation
  if supersedes r.rec x.rec then ok (stored, holding i r) else ok (stale, live_slot i x)
step (retired i x) r = elim (retirement_error x) [ some e ↦ err e | none ↦ err malformed_record ]

abbrev pub update : SlotMap → PubKey → Slot → SlotMap
update v k s j = if bytes_eq k j then s else v j

pub spec_put : SlotMap → SignedRecord → Result (PutOutcome × SlotMap)
unfolding step
spec_put v r = step (v r.rec.key) r >>= λ p. ok (p.0, update v r.rec.key p.1)

-- A sweep forgets the records that have expired, and nothing else.
pub sweep : ℕ → Slot → Slot
sweep now (live_slot i x) = if is_expired x.rec now then bound i else live_slot i x
sweep now s = s

pub answer_of : ℕ → Slot → Option SignedRecord
answer_of now (live_slot i x) = if is_expired x.rec now then none else some x
answer_of now (retired i x) = some x
answer_of now s = none

abbrev slot_of : Option PubKey → Option SignedRecord → Slot
slot_of (some i) (some x) = holding i x
slot_of (some i) none = bound i
slot_of none (some x) = holding (identity x.rec) x
slot_of none none = unseen

-- The slot of a key in a store.
unfoldable pub view : Store → SlotMap
view s k = slot_of (get s.bindings k) (get s.records k)

abbrev pub view_result : Result (PutOutcome × Store) → Result (PutOutcome × SlotMap)
view_result (ok (o, t)) = ok (o, view t)
view_result (err e) = err e

-- What `put` decides from the binding and the record of the key alone.
abbrev put_slot : Option PubKey → Option SignedRecord → SignedRecord → Result (PutOutcome × Slot)
put_slot b h r = do
  check_retired h
  check_bound b (identity r.rec)
  if outranked r h then ok (stale, slot_of b h) else ok (stored, holding (identity r.rec) r)

retired_error :
    (x : SignedRecord) → is_terminal x.rec ≡ true → (e : Error) × (retirement_error x ≡ some e)
unfolding retirement_error is_terminal revocation_error successor is_superseded is_revoked
retired_error x dead = elim (Option-cases (retirement_error x)) [
  | inl open' ↦ absurd (ground arith)
  | inr p ↦ p
]

live_error : (x : SignedRecord) → is_terminal x.rec ≡ false → retirement_error x ≡ none
unfolding retirement_error is_terminal revocation_error successor is_superseded is_revoked
live_error x alive = ground arith

put_slot-step :
    (b : Option PubKey) (h : Option SignedRecord) (r : SignedRecord)
    → ((x : SignedRecord) → h ≡ some x → b ≡ some (identity x.rec))
    → put_slot b h r ≡ step (slot_of b h) r
unfolding step check_retired check_bound outranked
put_slot-step none none r k = refl
put_slot-step (some i) none r k = ground (arith, bytes_eq_sound (identity r.rec) i)
put_slot-step none (some x) r k = absurd (ground (arith, k x refl))
put_slot-step (some i) (some x) r k = elim (Bool-cases (is_terminal x.rec)) [
  | inl dead ↦ let (e, error) = retired_error x dead in ground (arith, error)
  | inr alive ↦ ground (arith, live_error x alive, bytes_eq_sound (identity r.rec) i)
]

-- The same on the whole store.
abbrev chosen : Store → SignedRecord → PutOutcome → Store
chosen s r stored = replace s r
chosen s r stale = s

module _ (ed : Ed25519) (s : Store) (now : ℕ) (r : SignedRecord) where
  put-put_slot :
      admit ed now r ≡ ok tt
      → put ed s now r ≡ (
          put_slot (get s.bindings r.rec.key) (get s.records r.rec.key) r >>= λ p.
          ok (p.0, chosen s r p.0))
  unfolding put
  put-put_slot a = ground arith

  put_slot-stored :
      (sl : Slot)
      → put_slot (get s.bindings r.rec.key) (get s.records r.rec.key) r ≡ ok (stored, sl)
      → (check_bound (get s.bindings r.rec.key) (identity r.rec) ≡ ok tt)
        × (sl ≡ holding (identity r.rec) r)
  put_slot-stored sl e = ground arith

  put_slot-stale :
      (sl : Slot)
      → put_slot (get s.bindings r.rec.key) (get s.records r.rec.key) r ≡ ok (stale, sl)
      → sl ≡ view s r.rec.key
  unfolding view
  put_slot-stale sl e = ground arith

  -- Putting a slot back changes nothing.
  update_same : (v : SlotMap) (k : PubKey) (j : PubKey) → v j ≡ update v k (v k) j
  update_same v k j = elim (Bool-cases (bytes_eq k j)) [
    | inl same ↦ rw same (ap v (sym (bytes_eq_sound k j same)))
    | inr other ↦ rw other refl
  ]

  -- The binding after `or_insert`.
  abbrev bound_by : Option PubKey → Bool → Option PubKey
  bound_by o mine = elim o [ some i ↦ some i | none ↦ if mine then some (identity r.rec) else none ]

  bound_after :
      (b : Option PubKey)
      → check_bound b (identity r.rec) ≡ ok tt
      → bound_by b true ≡ some (identity r.rec)
  bound_after none e = refl
  bound_after (some i) e = ap some (sym (check_bound_same i (identity r.rec) e))

  bound_before : (b : Option PubKey) → bound_by b false ≡ b
  bound_before none = refl
  bound_before (some i) = refl

  view-replace :
      check_bound (get s.bindings r.rec.key) (identity r.rec) ≡ ok tt
      → (j : PubKey)
      → view (replace s r) j ≡ update (view s) r.rec.key (holding (identity r.rec) r) j
  unfolding view
  view-replace c j = elim (Bool-cases (bytes_eq r.rec.key j)) [
    | inl same ↦
        let key : r.rec.key ≡ j = bytes_eq_sound r.rec.key j same in
        let b : get (replace s r).bindings j ≡ some (identity r.rec) =
          get-bindings-replace s r j
          ∙ ap (bound_by (get s.bindings j)) same
          ∙ bound_after (get s.bindings j) (
              ap (λ (k : PubKey). check_bound (get s.bindings k) (identity r.rec)) (sym key) ∙ c) in
        let h : get (replace s r).records j ≡ some r = get-records-replace s r j ∙ rw same refl in
        ap₂ slot_of b h ∙ rw same refl
    | inr other ↦
        let b : get (replace s r).bindings j ≡ get s.bindings j =
          get-bindings-replace s r j
          ∙ ap (bound_by (get s.bindings j)) other
          ∙ bound_before (get s.bindings j) in
        let h : get (replace s r).records j ≡ get s.records j =
          get-records-replace s r j ∙ rw other refl in
        ap₂ slot_of b h ∙ rw other refl
  ]

  put_refused : (e : Error) → admit ed now r ≡ err e → put ed s now r ≡ err e
  unfolding put
  put_refused e bad = ground arith

  -- `put` refines the transition of the slots: in a consistent store it accepts, finds stale or refuses
  -- with an error exactly as the record's own checks and the slot of its key say, and the slots of the
  -- store after it, of all keys, are as the transition leaves them.
  pub put_refines :
      IsConsistent ed s → view_result (put ed s now r) ≡ (admit ed now r >> spec_put (view s) r)
  unfolding spec_put
  put_refines h = elim (Result-cases (admit ed now r)) [
    | inr (e, bad) ↦ rw (put_refused e bad, bad) refl
    | inl (u, good) ↦
        let b = get s.bindings r.rec.key in
        let o = get s.records r.rec.key in
        let agrees : put_slot b o r ≡ step (view s r.rec.key) r =
          unfold view in
          put_slot-step b o r (λ x e. ap (get s.bindings) refl ∙ (h.held r.rec.key x e).bound) in
        elim (Result-cases (put_slot b o r)) [
          | inr (e, bad) ↦
              let spec : step (view s r.rec.key) r ≡ err e = sym agrees ∙ bad in
              rw (put-put_slot good, bad, good, spec) refl
          | inl ((stored, sl), e) ↦
              let spec : step (view s r.rec.key) r ≡ ok (stored, sl) = sym agrees ∙ e in
              let (c, same) = put_slot-stored sl e in
              rw (put-put_slot good, e, good, spec)
                (ap (λ (v : SlotMap). ok (stored, v))
                  (fun_ext (view-replace c) ∙ ap (update (view s) r.rec.key) (sym same)))
          | inl ((stale, sl), e) ↦
              let spec : step (view s r.rec.key) r ≡ ok (stale, sl) = sym agrees ∙ e in
              let same = put_slot-stale sl e in
              rw (put-put_slot good, e, good, spec)
                (ap (λ (v : SlotMap). ok (stale, v))
                  (fun_ext (update_same (view s) r.rec.key)
                    ∙ ap (update (view s) r.rec.key) (sym same)))
        ]
  ]

-- What the other operations do to a slot.
module _ (ed : Ed25519) (s : Store) (now : ℕ) where
  find_slot :
      (b : Option PubKey) (o : Option SignedRecord)
      → elim o [ some r ↦ if is_expired r.rec now then none else some r | none ↦ none ]
        ≡ answer_of now (slot_of b o)
  unfolding answer_of
  find_slot none none = refl
  find_slot (some i) none = refl
  find_slot none (some x) = ground (arith, is_expired-is_terminal x.rec now)
  find_slot (some i) (some x) = ground (arith, is_expired-is_terminal x.rec now)

  sweep_slot :
      (b : Option PubKey) (o : Option SignedRecord)
      → ((x : SignedRecord) → o ≡ some x → b ≡ some (identity x.rec))
      → slot_of b
          (elim o [ some r ↦ if not (is_expired r.rec now) then some r else none | none ↦ none ])
        ≡ sweep now (slot_of b o)
  unfolding sweep
  sweep_slot none none k = refl
  sweep_slot (some i) none k = refl
  sweep_slot none (some x) k = absurd (ground (arith, k x refl))
  sweep_slot (some i) (some x) k = ground (arith, is_expired-is_terminal x.rec now)

  -- A query and a sweep see nothing of a store but the slots: `get` answers with the slot of the key,
  -- and a sweep of a consistent store lets the expired live records go, whatever the key.
  pub find_purge_refine :
      (k : PubKey)
      → IsConsistent ed s
      → (find s now k ≡ answer_of now (view s k))
        × (view (purge_expired s now).0 k ≡ sweep now (view s k))
  unfolding view find purge_expired
  find_purge_refine k h = (
    find_slot (get s.bindings k) (get s.records k),
    ap (slot_of (get s.bindings k)) (get-records-purge ed s now k h.one_record)
        ∙ sweep_slot (get s.bindings k) (get s.records k) (λ x e. (h.held k x e).bound),
  )
