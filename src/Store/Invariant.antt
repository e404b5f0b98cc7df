-- ===== src/Store/Invariant.antt =====
-- The invariant of the store, and what `put` and `purge_expired` do to a key's record and binding.
use sqns.Base.{
  ℕ, ◌≡◌, refl, sym, ap, ◌∙◌, subst, false, not, Option, none, some, Bool-cases, inl, inr, arith,
  if◌then◌else◌,
}
use sqns.Bytes.{bytes_eq, bytes_eq_refl, bytes_eq_sound}
use sqns.Errors.{ok}
use sqns.Crypto.{Ed25519}
use sqns.Record.{PubKey, SignedRecord, identity, is_terminal, is_expired}
use sqns.Record.Authority.{validate, verify, revocation_error}
use sqns.Map.{get}
use sqns.Map.Laws.{
  IsMap, get-insert, get-or_insert, get-retain, insert-IsMap, or_insert-IsMap, retain-IsMap,
}
use sqns.Store.{
  Store, PutOutcome, stored, stale, new_store, replace, admit, put, check_retired, check_bound,
  outranked, purge_expired, retirement_error,
}

-- What a successful `put` went through.
pub record Stores (ed : Ed25519) (s : Store) (now : ℕ) (r : SignedRecord) (t : Store) : Type 0 where
  pub admitted : admit ed now r ≡ ok tt
  pub open_key : check_retired (get s.records r.rec.key) ≡ ok tt
  pub same_identity : check_bound (get s.bindings r.rec.key) (identity r.rec) ≡ ok tt
  pub newer : outranked r (get s.records r.rec.key) ≡ false
  pub result : t ≡ replace s r

module _ (ed : Ed25519) (s : Store) (now : ℕ) (r : SignedRecord) (t : Store) where
  pub put-eq-stored : put ed s now r ≡ ok (stored, t) → Stores ed s now r t
  unfolding put
  put-eq-stored e = record {
    admitted = ground arith;
    open_key = ground arith;
    same_identity = ground arith;
    newer = ground arith;
    result = ground arith;
  }

  pub put-eq-stale : put ed s now r ≡ ok (stale, t) → t ≡ s
  unfolding put
  put-eq-stale e = ground arith

pub get-records-replace :
    (s : Store) (r : SignedRecord) (k : PubKey)
    → get (replace s r).records k ≡ (if bytes_eq r.rec.key k then some r else get s.records k)
unfolding replace
get-records-replace s r k = get-insert s.records r.rec.key k r

pub get-bindings-replace :
    (s : Store) (r : SignedRecord) (k : PubKey)
    → get (replace s r).bindings k ≡ elim (get s.bindings k) [
      | some i ↦ some i
      | none ↦ if bytes_eq r.rec.key k then some (identity r.rec) else none
    ]
unfolding replace
get-bindings-replace s r k = get-or_insert s.bindings r.rec.key k (identity r.rec)

-- Nothing is accepted for a key whose record retires it.
pub check_retired_live :
    (held : SignedRecord) → check_retired (some held) ≡ ok tt → is_terminal held.rec ≡ false
unfolding check_retired retirement_error is_terminal revocation_error
check_retired_live held e = ground arith

-- A key that is bound is bound to the identity that the record claims.
pub check_bound_same :
    (bound claimed : PubKey) → check_bound (some bound) claimed ≡ ok tt → claimed ≡ bound
unfolding check_bound
check_bound_same bound claimed e = ground (arith, bytes_eq_sound claimed bound)

-- A held record speaks for the key it is held under, stands on its signatures, and comes under the
-- identity to which the key is bound.
pub record IsHeld (ed : Ed25519) (s : Store) (k : PubKey) (r : SignedRecord) : Type 0 where
  pub own_key : r.rec.key ≡ k
  pub bound : get s.bindings k ≡ some (identity r.rec)
  pub valid : validate ed r.rec ≡ ok tt
  pub verified : verify ed r ≡ ok tt

pub record IsConsistent (ed : Ed25519) (s : Store) : Type 0 where
  pub one_record : IsMap s.records
  pub one_binding : IsMap s.bindings
  pub held : (k : PubKey) (r : SignedRecord) → get s.records k ≡ some r → IsHeld ed s k r

pub new_store-IsConsistent : (ed : Ed25519) → IsConsistent ed new_store
unfolding get
new_store-IsConsistent ed = record { one_record = tt; one_binding = tt; held = λ k r e. cc }

module _ (ed : Ed25519) where
  pub admit_checks :
      (now : ℕ) (r : SignedRecord)
      → admit ed now r ≡ ok tt
      → (validate ed r.rec ≡ ok tt) × (verify ed r ≡ ok tt)
  unfolding admit
  admit_checks now r e = ground arith

  -- The binding of the record's key after it was stored is the record's identity.
  stored_bound :
      (s t : Store) (now : ℕ) (r : SignedRecord)
      → Stores ed s now r t
      → get (replace s r).bindings r.rec.key ≡ some (identity r.rec)
  stored_bound s t now r st =
      get-bindings-replace s r r.rec.key ∙ go (get s.bindings r.rec.key) st.same_identity
    where
      go :
          (o : Option PubKey)
          → check_bound o (identity r.rec) ≡ ok tt
          → elim o [
            | some i ↦ some i
            | none ↦ if bytes_eq r.rec.key r.rec.key then some (identity r.rec) else none
          ]
            ≡ some (identity r.rec)
      go none e = rw (bytes_eq_refl r.rec.key) refl
      go (some i) e = ap some (sym (check_bound_same i (identity r.rec) e))

  replace-IsHeld :
      (s t : Store) (now : ℕ) (r : SignedRecord)
      → IsConsistent ed s
      → Stores ed s now r t
      → (k : PubKey) (x : SignedRecord) → get (replace s r).records k ≡ some x
      → IsHeld ed (replace s r) k x
  replace-IsHeld s t now r h st k x e = elim (Bool-cases (bytes_eq r.rec.key k)) [
    | inl same ↦
        let key : r.rec.key ≡ k = bytes_eq_sound r.rec.key k same in
        let this : r ≡ x = ground (arith, get-records-replace s r k) in
        let (valid, verified) = admit_checks now r st.admitted in
        rw (← this) (record {
          own_key = key;
          bound =
              subst (λ (j : PubKey). get (replace s r).bindings j ≡ some (identity r.rec)) key
                (stored_bound s t now r st);
          valid = valid;
          verified = verified;
        })
    | inr other ↦
        let old = h.held k x (ground (arith, get-records-replace s r k)) in
        record {
          own_key = old.own_key;
          bound = ground (arith, get-bindings-replace s r k, old.bound);
          valid = old.valid;
          verified = old.verified;
        }
  ]

  -- Every outcome of `put` leaves a consistent store consistent.
  pub put-IsConsistent :
      (s : Store) (now : ℕ) (r : SignedRecord) (out : PutOutcome) (t : Store)
      → IsConsistent ed s
      → put ed s now r ≡ ok (out, t)
      → IsConsistent ed t
  put-IsConsistent s now r stale t h e = rw (put-eq-stale ed s now r t e) h
  put-IsConsistent s now r stored t h e =
      let st = put-eq-stored ed s now r t e in
      rw st.result (record {
        one_record = unfold replace in insert-IsMap s.records r.rec.key r h.one_record;
        one_binding =
            unfold replace in or_insert-IsMap s.bindings r.rec.key (identity r.rec) h.one_binding;
        held = replace-IsHeld s t now r h st;
      })

  pub get-records-purge :
      (s : Store) (now : ℕ) (k : PubKey)
      → IsMap s.records
      → get (purge_expired s now).0.records k ≡ elim (get s.records k) [
        | some r ↦ if not (is_expired r.rec now) then some r else none
        | none ↦ none
      ]
  unfolding purge_expired
  get-records-purge s now k h = get-retain (λ r. not (is_expired r.rec now)) s.records k h

  pub purge_expired-IsConsistent :
      (s : Store) (now : ℕ) → IsConsistent ed s → IsConsistent ed (purge_expired s now).0
  purge_expired-IsConsistent s now h = record {
    one_record =
        unfold purge_expired in
        retain-IsMap (λ r. not (is_expired r.rec now)) s.records h.one_record;
    one_binding = unfold purge_expired in h.one_binding;
    held = λ k x e.
        let old = h.held k x (ground (arith, get-records-purge s now k h.one_record)) in
        record {
          own_key = old.own_key;
          bound = unfold purge_expired in old.bound;
          valid = old.valid;
          verified = old.verified;
        };
  }
