-- ===== src/Replication/Cover.antt =====
-- A record that a store has no use for, because it was put or would be refused: no later `put` changes that.
use mathlib.Core.Path.{ap₂}
use sqns.Base.{
  ℕ, ◌+◌, ◌≡◌, refl, sym, ap, ◌∙◌, Bool, true, false, Option, none, some, List, [], ◌∷◌, arith,
  Bool-cases, inl, inr, if◌then◌else◌,
}
use sqns.Bytes.{bytes_eq, bytes_eq_sound, bytes_eq_refl}
use sqns.Errors.{Error, Result, ok, err, Result-cases}
use sqns.Crypto.{Ed25519}
use sqns.Record.{PubKey, SignedRecord, identity, supersedes}
use sqns.Map.{get}
use sqns.Store.{Store, stored, stale, admit, put, check_retired, check_bound, outranked}
use sqns.Store.Invariant.{get-records-replace, get-bindings-replace, put-eq-stored, put-eq-stale}
use sqns.Store.Merge.{after}
use sqns.Replication.{apply_batch}

-- Not stored, going by the checks of the record, the binding and the record of its key.
abbrev verdict : Result (Unit {0}) → Option PubKey → Option SignedRecord → SignedRecord → Bool
verdict (err e) b h r = true
verdict (ok u) b h r = elim (check_retired h) [
  | err e ↦ true
  | ok _ ↦ elim (check_bound b (identity r.rec)) [ err e ↦ true | ok _ ↦ outranked r h ]
]

-- The binding of a key once `x` is stored, which is for that key or not.
abbrev bound_by : Option PubKey → SignedRecord → Bool → Option PubKey
bound_by b x mine = elim b [ some i ↦ some i | none ↦ if mine then some (identity x.rec) else none ]

verdict_kept :
    (a : Result (Unit {0})) (b : Option PubKey) (h : Option SignedRecord) (r x : SignedRecord)
    → check_retired h ≡ ok tt
    → outranked x h ≡ false
    → verdict a b h r ≡ true
    → verdict a (bound_by b x true) (some x) r ≡ true
unfolding check_retired check_bound outranked supersedes
verdict_kept (err e) b h r x open_key newer v = refl
verdict_kept (ok u) none none r x open_key newer v = absurd (ground arith)
verdict_kept (ok u) none (some y) r x open_key newer v = ground arith
verdict_kept (ok u) (some i) none r x open_key newer v = ground arith
verdict_kept (ok u) (some i) (some y) r x open_key newer v = ground arith

module _ (ed : Ed25519) where
  abbrev pub refused : Store → ℕ → SignedRecord → Bool
  refused s now r = verdict (admit ed now r) (get s.bindings r.rec.key) (get s.records r.rec.key) r

  pub refused-after :
      (s : Store) (now : ℕ) (r : SignedRecord)
      → refused s now r ≡ true
      → after s (put ed s now r) ≡ s
  unfolding put
  refused-after s now r v = ground arith

  stored_refused :
      (s t : Store) (now : ℕ) (r : SignedRecord)
      → put ed s now r ≡ ok (stored, t)
      → refused t now r ≡ true
  unfolding outranked supersedes
  stored_refused s t now r e =
      let st = put-eq-stored ed s now r t e in
      rw st.result (ground (arith, get-records-replace s r r.rec.key, bytes_eq_refl r.rec.key))

  stale_refused :
      (s t : Store) (now : ℕ) (r : SignedRecord)
      → put ed s now r ≡ ok (stale, t)
      → refused s now r ≡ true
  unfolding put
  stale_refused s t now r e = ground arith

  error_refused :
      (s : Store) (now : ℕ) (r : SignedRecord) (f : Error)
      → put ed s now r ≡ err f
      → refused s now r ≡ true
  unfolding put
  error_refused s now r f e = ground arith

  -- A record that was put is of no use a second time.
  pub put-refused :
      (s : Store) (now : ℕ) (r : SignedRecord) → refused (after s (put ed s now r)) now r ≡ true
  put-refused s now r = elim (Result-cases (put ed s now r)) [
    | inl ((stored, t), e) ↦ rw e (stored_refused s t now r e)
    | inl ((stale, t), e) ↦ rw (e, put-eq-stale ed s now r t e) (stale_refused s t now r e)
    | inr (f, e) ↦ rw e (error_refused s now r f e)
  ]

  -- And stays so, whatever is put after it.
  pub refused_kept :
      (s : Store) (now : ℕ) (r x : SignedRecord)
      → refused s now r ≡ true
      → refused (after s (put ed s now x)) now r ≡ true
  refused_kept s now r x v = elim (Result-cases (put ed s now x)) [
    | inr (f, e) ↦ rw e v
    | inl ((stale, t), e) ↦ rw (e, put-eq-stale ed s now x t e) v
    | inl ((stored, t), e) ↦
        let st = put-eq-stored ed s now x t e in
        rw (e, st.result)
          (elim (Bool-cases (bytes_eq x.rec.key r.rec.key)) [
            | inr other ↦
                let binds =
                  get-bindings-replace s x r.rec.key
                  ∙ ap (bound_by (get s.bindings r.rec.key) x) other in
                ap₂ judged (binds ∙ unbound (get s.bindings r.rec.key))
                  (get-records-replace s x r.rec.key ∙ rw other refl)
                ∙ v
            | inl mine ↦
                let key : x.rec.key ≡ r.rec.key = bytes_eq_sound x.rec.key r.rec.key mine in
                ap₂ judged
                  (get-bindings-replace s x r.rec.key
                    ∙ ap (bound_by (get s.bindings r.rec.key) x) mine)
                  (get-records-replace s x r.rec.key ∙ rw mine refl)
                ∙ verdict_kept (admit ed now r) (get s.bindings r.rec.key) (get s.records r.rec.key)
                    r x
                    (ap (λ (k : PubKey). check_retired (get s.records k)) (sym key) ∙ st.open_key)
                    (ap (λ (k : PubKey). outranked x (get s.records k)) (sym key) ∙ st.newer) v
          ])
  ]
    where
      judged : Option PubKey → Option SignedRecord → Bool
      judged b h = verdict (admit ed now r) b h r

      unbound : (b : Option PubKey) → bound_by b x false ≡ b
      unbound none = refl
      unbound (some i) = refl

  -- So does a whole batch.
  pub batch_kept :
      (s : Store) (now applied : ℕ) (recs : List SignedRecord) (r : SignedRecord)
      → refused s now r ≡ true
      → refused (apply_batch ed s now applied recs).0 now r ≡ true
  unfolding apply_batch
  batch_kept s now applied [] r v = v
  batch_kept s now applied (x ∷ xs) r v =
      let kept = refused_kept s now r x v in
      elim (Result-cases (put ed s now x)) [
        | inl ((stored, t), e) ↦
            rw (e, apply_batch) (batch_kept t now (applied + 1) xs r (rw e at kept))
        | inl ((stale, t), e) ↦ rw (e, apply_batch) (batch_kept t now applied xs r (rw e at kept))
        | inr (f, e) ↦ rw (e, apply_batch) (batch_kept s now applied xs r v)
      ]
