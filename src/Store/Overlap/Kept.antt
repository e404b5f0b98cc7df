-- ===== src/Store/Overlap/Kept.antt =====
-- What every history of overlapping calls keeps of the store.
use mathlib.Core.Option.{some-injective}
use sqns.Base.{
  ℕ, ◌≡◌, refl, sym, ap, ◌∙◌, subst, some, List, ◌∷◌, ◌++◌, inl, inr, arith, Bool-cases,
}
use sqns.Bytes.{bytes_eq, bytes_eq_sound}
use sqns.Errors.{ok}
use sqns.Crypto.{Ed25519}
use sqns.Record.{PubKey, SignedRecord, identity}
use sqns.Map.{get}
use sqns.Map.Laws.{IsMap, insert-IsMap, or_insert-IsMap, retain-IsMap}
use sqns.Store.{Store, stored, stale, keep, put_locked, put_unlocked, check_bound, purge_expired}
use sqns.Store.Invariant.{IsConsistent, admit_checks, check_bound_same, get-records-purge}
use sqns.Store.Overlap.{
  Move, begin, outdated, refuse, finish, sweep, Moves, still, move, IsKnown, IsGenuine, IsSettling,
  IsUnder, Keeps, In-insert, get-records-keep, bindings-keep, records-put_unlocked, still_bound,
  now_bound,
}

module _ (ed : Ed25519) where
  put_locked-eq-stored :
      (s : Store) (now : ℕ) (r : SignedRecord) (t : Store)
      → put_locked ed s now r ≡ ok (stored, t)
      → Keeps ed s now r t
  unfolding put_locked
  put_locked-eq-stored s now r t e = record {
    admitted = ground arith;
    same_identity = ground arith;
    result = ground arith;
  }

  put_locked-eq-stale :
      (s : Store) (now : ℕ) (r : SignedRecord) (t : Store)
      → put_locked ed s now r ≡ ok (stale, t)
      → t ≡ s
  unfolding put_locked
  put_locked-eq-stale s now r t e = ground arith

  keep-IsSettling :
      (s t : Store) (now : ℕ) (r : SignedRecord) (calls : List SignedRecord)
      → Keeps ed s now r t
      → IsSettling ed s calls
      → IsSettling ed (keep s r) (r ∷ calls)
  unfolding keep
  keep-IsSettling s t now r calls st h = record {
    one_record = insert-IsMap s.records r.rec.key r h.one_record;
    one_binding = h.one_binding;
    held = λ k x e. elim (Bool-cases (bytes_eq r.rec.key k)) [
      | inl same ↦
          let key : r.rec.key ≡ k = bytes_eq_sound r.rec.key k same in
          let this : r ≡ x = ground (arith, get-records-keep s r k) in
          let (valid, verified) = admit_checks ed now r st.admitted in
          subst (IsGenuine ed (keep s r) (r ∷ calls) k) this (record {
            own_key = key;
            valid = valid;
            verified = verified;
            known = inr (r, inl refl, key);
          })
      | inr other ↦
          let old = h.held k x (ground (arith, get-records-keep s r k)) in
          record {
            own_key = old.own_key;
            valid = old.valid;
            verified = old.verified;
            known = elim old.known [
              | inl bound ↦ inl bound
              | inr (p, m, key) ↦ inr (p, inr m, key)
            ];
          }
    ];
  }

  finish-IsKnown :
      (s : Store) (r : SignedRecord) (before later : List SignedRecord) (k : PubKey)
      → IsKnown s (before ++ (r ∷ later)) k
      → IsKnown (put_unlocked s r) (before ++ later) k
  finish-IsKnown s r before later k (inl (i, b)) = inl (i, still_bound s r k i b)
  finish-IsKnown s r before later k (inr (p, m, key)) = elim (In-insert p r before later m) [
    | inl same ↦
        let (i, b) = now_bound s r in
        let mine : r.rec.key ≡ k = ap (λ (x : SignedRecord). x.rec.key) (sym same) ∙ key in
        inl (i, ap (get (put_unlocked s r).bindings) (sym mine) ∙ b)
    | inr there ↦ inr (p, there, key)
  ]

  Move-IsSettling :
      {s t : Store} {calls calls' : List SignedRecord}
      → Move ed s calls t calls'
      → IsSettling ed s calls
      → IsSettling ed t calls'
  unfolding put_unlocked purge_expired
  Move-IsSettling (begin s now r t calls e) h =
      let st = put_locked-eq-stored s now r t e in
      subst (λ (u : Store). IsSettling ed u (r ∷ calls)) (sym st.result)
        (keep-IsSettling s t now r calls st h)
  Move-IsSettling (outdated s now r t calls e) h =
      subst (λ (u : Store). IsSettling ed u calls) (sym (put_locked-eq-stale s now r t e)) h
  Move-IsSettling (refuse s now r e calls f) h = h
  Move-IsSettling (finish s r before later) h = record {
    one_record = h.one_record;
    one_binding = or_insert-IsMap s.bindings r.rec.key (identity r.rec) h.one_binding;
    held = λ k x e.
        let old = h.held k x (ap (λ m. get m k) (sym (records-put_unlocked s r)) ∙ e) in
        record {
          own_key = old.own_key;
          valid = old.valid;
          verified = old.verified;
          known = finish-IsKnown s r before later k old.known;
        };
  }
  Move-IsSettling (sweep s now calls) h = record {
    one_record = retain-IsMap _ s.records h.one_record;
    one_binding = h.one_binding;
    held = λ k x e.
        let old = h.held k x (ground (arith, get-records-purge ed s now k h.one_record)) in
        record {
          own_key = old.own_key;
          valid = old.valid;
          verified = old.verified;
          known = old.known;
        };
  }

  Moves-IsSettling :
      (s : Store) {t : Store} {calls : List SignedRecord}
      → IsConsistent ed s
      → Moves ed s t calls
      → IsSettling ed t calls
  Moves-IsSettling s h still = record {
    one_record = h.one_record;
    one_binding = h.one_binding;
    held = λ k r e.
        let x = h.held k r e in
        record {
          own_key = x.own_key;
          valid = x.valid;
          verified = x.verified;
          known = inl (identity r.rec, x.bound);
        };
  }
  Moves-IsSettling s h (move before m) = Move-IsSettling m (Moves-IsSettling s h before)

  keep-IsUnder :
      (s t : Store) (now : ℕ) (r : SignedRecord) (k i : PubKey)
      → Keeps ed s now r t
      → IsUnder s k i
      → IsUnder (keep s r) k i
  keep-IsUnder s t now r k i st h = record {
    bound = ap (λ m. get m k) (bindings-keep s r) ∙ h.bound;
    mine = λ x e. elim (Bool-cases (bytes_eq r.rec.key k)) [
      | inl same ↦
          let key : r.rec.key ≡ k = bytes_eq_sound r.rec.key k same in
          let this : r ≡ x = ground (arith, get-records-keep s r k) in
          let bound : get s.bindings r.rec.key ≡ some i = ap (get s.bindings) key ∙ h.bound in
          subst (λ (y : SignedRecord). identity y.rec ≡ i) this
            (check_bound_same i (identity r.rec)
              (ap (λ b. check_bound b (identity r.rec)) (sym bound) ∙ st.same_identity))
      | inr other ↦ h.mine x (ground (arith, get-records-keep s r k))
    ];
  }

  Move-IsUnder :
      {s t : Store} {calls calls' : List SignedRecord} (k i : PubKey)
      → Move ed s calls t calls'
      → IsMap s.records
      → IsUnder s k i
      → IsUnder t k i
  Move-IsUnder k i (begin s now r t calls e) one h =
      let st = put_locked-eq-stored s now r t e in
      subst (λ (u : Store). IsUnder u k i) (sym st.result) (keep-IsUnder s t now r k i st h)
  Move-IsUnder k i (outdated s now r t calls e) one h =
      subst (λ (u : Store). IsUnder u k i) (sym (put_locked-eq-stale s now r t e)) h
  Move-IsUnder k i (refuse s now r e calls f) one h = h
  Move-IsUnder k i (finish s r before later) one h = record {
    bound = still_bound s r k i h.bound;
    mine = λ x e. h.mine x (ap (λ m. get m k) (sym (records-put_unlocked s r)) ∙ e);
  }
  Move-IsUnder k i (sweep s now calls) one h = record {
    bound = unfold purge_expired in h.bound;
    mine = λ x e. h.mine x (ground (arith, get-records-purge ed s now k one));
  }

  bound-IsUnder :
      (s : Store) (k i : PubKey) → IsConsistent ed s → get s.bindings k ≡ some i → IsUnder s k i
  bound-IsUnder s k i h b = record {
    bound = b;
    mine = λ r e. some-injective _ _ (sym ((h.held k r e).bound) ∙ b);
  }

  Moves-IsUnder :
      (s : Store) {t : Store} {calls : List SignedRecord} (k i : PubKey)
      → IsConsistent ed s
      → get s.bindings k ≡ some i
      → Moves ed s t calls
      → IsUnder t k i
  Moves-IsUnder s k i h b still = bound-IsUnder s k i h b
  Moves-IsUnder s k i h b (move before m) =
      Move-IsUnder k i m ((Moves-IsSettling s h before).one_record) (Moves-IsUnder s k i h b before)

  -- Of a store that starts consistent, at any time of any history in which calls of `put` overlap, each in two parts
  -- around the lock of the records, and sweeps come in between: each record it holds is under its own key, is valid and
  -- verified, and its key is bound, or a call that stored a record of the key is still to bind it; and a key that was
  -- bound to an identity at the start still is, and a record held for it comes under that identity.
  pub Moves-invariant :
      (s t : Store) (calls : List SignedRecord)
      → IsConsistent ed s
      → Moves ed s t calls
      → IsSettling ed t calls × ((k i : PubKey) → get s.bindings k ≡ some i → IsUnder t k i)
  Moves-invariant s t calls h m = (Moves-IsSettling s h m, λ k i b. Moves-IsUnder s k i h b m)
