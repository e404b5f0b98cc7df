-- ===== src/Store/Race.antt =====
-- Two calls of `put` at once: the records are locked while a record is checked and inserted, and the
-- key is bound when that lock has been dropped.
use sqns.Base.{ℕ, ◌≡◌, ◌≢◌, refl, sym, ap, ◌∙◌, true, false, some, none, arith}
use sqns.Bytes.{bytes_eq_refl}
use sqns.Errors.{ok}
use sqns.Crypto.{Ed25519}
use sqns.Record.{SignedRecord, identity, is_terminal, supersedes}
use sqns.Map.{get}
use sqns.Map.Laws.{get-insert, get-or_insert}
use sqns.Store.{Store, stored, admit, put, put_locked, put_unlocked, keep}
use sqns.Store.Invariant.{IsConsistent}
use sqns.Store.Merge.{check_retired_of_live}

module _ (ed : Ed25519) where
  -- A call of `put` with no other in between is its two parts, one after the other.
  pub put-put_locked :
      (s t : Store) (now : ℕ) (r : SignedRecord)
      → put_locked ed s now r ≡ ok (stored, t)
      → put ed s now r ≡ ok (stored, put_unlocked t r)
  unfolding put put_locked put_unlocked
  put-put_locked s t now r e = ground arith

  first_part :
      (s : Store) (now : ℕ) (r : SignedRecord)
      → admit ed now r ≡ ok tt
      → get s.records r.rec.key ≡ none
      → get s.bindings r.rec.key ≡ none
      → put_locked ed s now r ≡ ok (stored, keep s r)
  unfolding put_locked
  first_part s now r a free unbound = ground arith

  second_part :
      (s : Store) (now : ℕ) (r x : SignedRecord)
      → admit ed now x ≡ ok tt
      → is_terminal r.rec ≡ false
      → supersedes x.rec r.rec ≡ true
      → get s.records x.rec.key ≡ some r
      → get s.bindings x.rec.key ≡ none
      → put_locked ed s now x ≡ ok (stored, keep s x)
  unfolding put_locked
  second_part s now r x a live newer held unbound = ground (arith, check_retired_of_live ed r live)

  -- For a key that the store has never seen, two records under different identities, the second newer,
  -- are both accepted if the second call comes while the first has not yet bound the key. Then the
  -- second record is held, the key is bound to the identity of the first, and the store's invariant is lost.
  pub put_race :
      (s : Store) (now : ℕ) (r x : SignedRecord)
      → admit ed now r ≡ ok tt
      → admit ed now x ≡ ok tt
      → x.rec.key ≡ r.rec.key
      → identity x.rec ≢ identity r.rec
      → is_terminal r.rec ≡ false
      → supersedes x.rec r.rec ≡ true
      → get s.records r.rec.key ≡ none
      → get s.bindings r.rec.key ≡ none
      → (t u : Store) × (put_locked ed s now r ≡ ok (stored, t))
        × (put_locked ed t now x ≡ ok (stored, u))
        × (get (put_unlocked (put_unlocked u r) x).records r.rec.key ≡ some x)
        × (get (put_unlocked (put_unlocked u r) x).bindings r.rec.key ≡ some (identity r.rec))
        × (¬ (IsConsistent ed (put_unlocked (put_unlocked u r) x)))
  unfolding keep put_unlocked
  put_race s now r x ar ax key differ live newer free unbound =
      let t = keep s r in
      let u = keep t x in
      let held_t : get t.records x.rec.key ≡ some r =
        ap (get t.records) key
        ∙ get-insert s.records r.rec.key r.rec.key r
        ∙ rw (bytes_eq_refl r.rec.key) refl in
      let unbound_t : get t.bindings x.rec.key ≡ none = ap (get s.bindings) key ∙ unbound in
      let record_u : get (put_unlocked (put_unlocked u r) x).records r.rec.key ≡ some x =
        ap (get (put_unlocked (put_unlocked u r) x).records) (sym key)
        ∙ get-insert t.records x.rec.key x.rec.key x
        ∙ rw (bytes_eq_refl x.rec.key) refl in
      let binding_u : get (put_unlocked (put_unlocked u r) x).bindings r.rec.key
          ≡ some (identity r.rec) =
        ground (
          arith,
          unbound,
          bytes_eq_refl r.rec.key,
          get-or_insert s.bindings r.rec.key r.rec.key (identity r.rec),
          get-or_insert (put_unlocked u r).bindings x.rec.key r.rec.key (identity x.rec),
        ) in
      (
        t,
        u,
        first_part s now r ar free unbound,
        second_part t now r x ax live newer held_t unbound_t,
        record_u,
        binding_u,
        λ h. let b = (h.held r.rec.key x record_u).bound in differ (cc),
      )
