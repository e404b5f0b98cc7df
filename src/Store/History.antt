-- ===== src/Store/History.antt =====
-- The store over time: any sequence of whole calls of `put` and `purge_expired`, at any times, whatever
-- their outcome; Store/Overlap takes calls of `put` that overlap apart. (`get`, `since` and the other queries change nothing.)
use sqns.Base.{ℕ, ◌≡◌, sym, ap, ◌∙◌, true, false, some, Bool-cases, inl, inr, arith}
use sqns.Bytes.{bytes_eq, bytes_eq_sound}
use sqns.Errors.{Error, ok, err}
use sqns.Crypto.{Ed25519}
use sqns.Record.{PubKey, SignedRecord, is_terminal}
use sqns.Record.Order.{is_expired-is_terminal}
use sqns.Map.{get}
use sqns.Store.{Store, PutOutcome, stored, stale, put, purge_expired, check_retired}
use sqns.Store.Invariant.{
  IsConsistent, put-eq-stored, put-eq-stale, put-IsConsistent, purge_expired-IsConsistent,
  get-records-replace, get-bindings-replace, get-records-purge, check_retired_live,
}

pub data Step (ed : Ed25519) : Store → Store → Type 0 where
  put_ok :
      (s : Store) (now : ℕ) (r : SignedRecord) (out : PutOutcome) (t : Store)
      → put ed s now r ≡ ok (out, t)
      → Step ed s t
  put_err :
      (s : Store) (now : ℕ) (r : SignedRecord) (e : Error) → put ed s now r ≡ err e → Step ed s s
  purge : (s : Store) (now : ℕ) → Step ed s (purge_expired s now).0

pub data Reach (ed : Ed25519) (s : Store) : Store → Type 0 where
  here : Reach ed s s
  next : {t u : Store} → Reach ed s t → Step ed t u → Reach ed s u

module _ (ed : Ed25519) where
  Step-IsConsistent : {s t : Store} → Step ed s t → IsConsistent ed s → IsConsistent ed t
  Step-IsConsistent (put_ok s now r out t e) h = put-IsConsistent ed s now r out t h e
  Step-IsConsistent (put_err s now r er e) h = h
  Step-IsConsistent (purge s now) h = purge_expired-IsConsistent ed s now h

  -- From a consistent store, every history of whole calls, one after the other, leads to a consistent store.
  pub Reach-IsConsistent : (s t : Store) → IsConsistent ed s → Reach ed s t → IsConsistent ed t
  Reach-IsConsistent s t h here = h
  Reach-IsConsistent s t h (next r st) = Step-IsConsistent st (Reach-IsConsistent s _ h r)

  Step_retired :
      {s t : Store}
      → Step ed s t
      → IsConsistent ed s
      → (k : PubKey) (x : SignedRecord) → get s.records k ≡ some x
      → is_terminal x.rec ≡ true
      → get t.records k ≡ some x
  Step_retired (put_ok s now r stale t e) h k x held dead = rw (put-eq-stale ed s now r t e) held
  Step_retired (put_ok s now r stored t e) h k x held dead =
      let st = put-eq-stored ed s now r t e in
      rw st.result (elim (Bool-cases (bytes_eq r.rec.key k)) [
        | inl same ↦
            let key : r.rec.key ≡ k = bytes_eq_sound r.rec.key k same in
            let mine : get s.records r.rec.key ≡ some x = ap (get s.records) key ∙ held in
            let alive : is_terminal x.rec ≡ false =
              check_retired_live x (ap check_retired (sym mine) ∙ st.open_key) in
            cc
        | inr other ↦ ground (arith, get-records-replace s r k)
      ])
  Step_retired (put_err s now r er e) h k x held dead = held
  Step_retired (purge s now) h k x held dead =
      ground (arith, get-records-purge ed s now k h.one_record, is_expired-is_terminal x.rec now)

  Step_bound :
      {s t : Store}
      → Step ed s t
      → (k i : PubKey) → get s.bindings k ≡ some i
      → get t.bindings k ≡ some i
  Step_bound (put_ok s now r stale t e) k i b = rw (put-eq-stale ed s now r t e) b
  Step_bound (put_ok s now r stored t e) k i b =
      rw ((put-eq-stored ed s now r t e).result) (ground (arith, get-bindings-replace s r k))
  Step_bound (put_err s now r er e) k i b = b
  Step_bound (purge s now) k i b = unfold purge_expired in b

  -- From a consistent store, a held record that retires its key is never replaced, swept or lost,
  -- whatever is put and whenever.
  pub Reach-retired :
      (s t : Store) (k : PubKey) (x : SignedRecord)
      → IsConsistent ed s
      → get s.records k ≡ some x
      → is_terminal x.rec ≡ true
      → Reach ed s t
      → get t.records k ≡ some x
  Reach-retired s t k x h held dead here = held
  Reach-retired s t k x h held dead (next r st) =
      Step_retired st (Reach-IsConsistent s _ h r) k x (Reach-retired s _ k x h held dead r) dead

  pub Reach-bound :
      (s t : Store) (k i : PubKey)
      → get s.bindings k ≡ some i
      → Reach ed s t
      → get t.bindings k ≡ some i
  Reach-bound s t k i b here = b
  Reach-bound s t k i b (next r st) = Step_bound st k i (Reach-bound s _ k i b r)
