-- ===== src/Upstream/Answers.antt =====
-- What a relaying server passes on.
use sqns.Base.{
  ℕ, suc, ◌≡◌, refl, sym, ap, ◌∙◌, Option, none, some, List, [], ◌∷◌, length, ltb, ◌==◌, arith,
  Bool-cases, Option-cases, inl, inr, subst,
}
use sqns.Bytes.{bytes_eq_sound}
use sqns.Errors.{Error, Result, ok, err, Result-cases}
use sqns.Crypto.{Ed25519}
use sqns.Record.{PubKey, SignedRecord, successor}
use sqns.Record.Authority.{verify_answer}
use sqns.Store.{Store}
use sqns.Cache
use sqns.Cache.Verified.{IsAnswer, IsVerified, IsHit, insert-IsVerified, get_sound}
use sqns.Cache.{Entry, found, missing, is_fresh}
use sqns.Protocol.{lookup, answer, published, counters, records, error}
use sqns.Upstream.{
  Outcome, replied, failed, timed_out, Relayed, Upstream, cached_answer, cached_successor, remember,
  remember_missing, accept, accept_successor, accepted_successor, ask, flatten, after_cache,
  outcomes, lookup_upstream,
}

module _ (ed : Ed25519) where
  -- The record that comes along is an answer for the key that the first record forwards to.
  abbrev pub IsNext : ℕ → SignedRecord → Option SignedRecord → Type 0
  IsNext now r none = Unit
  IsNext now r (some next) =
      (successor r.rec ≡ some next.rec.key) × IsAnswer ed now next.rec.key next

  abbrev pub IsReply : ℕ → PubKey → Result (Option Relayed) → Type 0
  IsReply now k (ok (some x)) = IsAnswer ed now k x.rec × IsNext now x.rec x.next
  IsReply now k _ = Unit

  abbrev pub IsVerifiedCache : Option Cache.Cache → Type 0
  IsVerifiedCache none = Unit
  IsVerifiedCache (some c) = IsVerified ed c

  accept-IsAnswer :
      (s : Store) (now : ℕ) (k : PubKey) (r : SignedRecord) (u : Unit {0})
      → accept ed s now k r ≡ ok u
      → IsAnswer ed now k r
  unfolding accept verify_answer
  accept-IsAnswer s now k r u e = record {
    own_key = ground (arith, bytes_eq_sound r.rec.key k);
    verified = ground arith;
    fresh = ground arith;
  }

  accept_successor-eq-some :
      (s : Store) (now : ℕ) (r next n : SignedRecord)
      → accept_successor ed s now r next ≡ some n
      → (successor r.rec ≡ some n.rec.key) × IsAnswer ed now n.rec.key n
  unfolding accept_successor
  accept_successor-eq-some s now r next n e = elim (Option-cases (successor r.rec)) [
    | inl nothing ↦ absurd (ground arith)
    | inr (x, named) ↦
        let (same, a, eq) : (next.rec.key ≡ x) × (accept ed s now x next ≡ ok tt) × (next ≡ n) =
          ground (arith, bytes_eq_sound next.rec.key x) in
        subst
          (λ (m : SignedRecord). (successor r.rec ≡ some m.rec.key) × IsAnswer ed now m.rec.key m)
          eq
          (
            named ∙ ap some (sym same),
            subst (λ (k : PubKey). IsAnswer ed now k next) (sym same)
                (accept-IsAnswer s now x next tt a),
          )
  ]

  accepted-IsNext :
      (s : Store) (now : ℕ) (r : SignedRecord) (o : Option SignedRecord)
      → IsNext now r (accepted_successor ed s now r o)
  accepted-IsNext s now r none = tt
  accepted-IsNext s now r (some next) = elim (Option-cases (accept_successor ed s now r next)) [
    | inl none' ↦ rw none' tt
    | inr (n, some') ↦ rw some' (accept_successor-eq-some s now r next n some')
  ]

  remember-IsVerified :
      (c : Option Cache.Cache) (now : ℕ) (r : SignedRecord) (next : Option SignedRecord)
      (k : PubKey)
      → IsVerifiedCache c
      → IsAnswer ed now k r
      → IsNext now r next
      → IsVerifiedCache (remember c r next)
  unfolding remember Cache.put
  remember-IsVerified none now r next k h a n = tt
  remember-IsVerified (some c) now r none k h a n =
      insert-IsVerified ed c r.rec.key (found r) h (refl, a.verified)
  remember-IsVerified (some c) now r (some next) k h a n =
      insert-IsVerified ed (Cache.put c r) next.rec.key (found next)
        (insert-IsVerified ed c r.rec.key (found r) h (refl, a.verified)) (refl, (n.1).verified)

  abbrev pub IsSound : ℕ → PubKey → Result (Option Relayed) × Option Cache.Cache → Type 0
  IsSound now k p = IsReply now k p.0 × IsVerifiedCache p.1

  module _ (s : Store) (now : ℕ) (c : Option Cache.Cache) (k : PubKey) (all answered : ℕ)
      (r : SignedRecord) (next : Option SignedRecord) (os : List Outcome) where
    ask_accepted :
        (u : Unit {0})
        → accept ed s now k r ≡ ok u
        → ask ed s now c k all answered (replied (answer (some r) next) ∷ os) ≡ (
          ok (some (record { rec = r; next = accepted_successor ed s now r next })),
          remember c r (accepted_successor ed s now r next),
        )
    unfolding ask
    ask_accepted u good = rw (good, ask) refl

    ask_refused :
        (e : Error)
        → accept ed s now k r ≡ err e
        → ask ed s now c k all answered (replied (answer (some r) next) ∷ os)
          ≡ ask ed s now c k all (suc answered) os
    unfolding ask
    ask_refused e bad = rw (bad, ask) refl

  ask_sound :
      (s : Store) (now : ℕ) (c : Option Cache.Cache) (k : PubKey) (all answered : ℕ)
      (os : List Outcome)
      → IsVerifiedCache c
      → IsReply now k (ask ed s now c k all answered os).0
        × IsVerifiedCache (ask ed s now c k all answered os).1
  unfolding ask remember_missing Cache.put_missing
  ask_sound s now none k all answered [] h = elim (Bool-cases (answered == all)) [
    | inl x ↦ rw x (tt, tt)
    | inr x ↦ elim (Bool-cases (ltb 0 answered)) [
      | inl y ↦ rw (x, y) (tt, tt)
      | inr y ↦ rw (x, y) (tt, tt)
    ]
  ]
  ask_sound s now (some c) k all answered [] h = elim (Bool-cases (answered == all)) [
    | inl x ↦ rw x (tt, insert-IsVerified ed c k _ h tt)
    | inr x ↦ elim (Bool-cases (ltb 0 answered)) [
      | inl y ↦ rw (x, y) (tt, h)
      | inr y ↦ rw (x, y) (tt, h)
    ]
  ]
  ask_sound s now c k all answered (replied (answer (some r) next) ∷ os) h =
      elim (Result-cases (accept ed s now k r)) [
        | inl (u, good) ↦
            let a = accept-IsAnswer s now k r u good in
            let n = accepted-IsNext s now r next in
            subst (IsSound now k) (sym (ask_accepted s now c k all answered r next os u good))
              ((a, n), remember-IsVerified c now r (accepted_successor ed s now r next) k h a n)
        | inr (e, bad) ↦
            subst (IsSound now k) (sym (ask_refused s now c k all answered r next os e bad))
              (ask_sound s now c k all (suc answered) os h)
      ]
  ask_sound s now c k all answered (replied (answer none next) ∷ os) h =
      ask_sound s now c k all (suc answered) os h
  ask_sound s now c k all answered (replied (published a b) ∷ os) h =
      ask_sound s now c k all answered os h
  ask_sound s now c k all answered (replied (counters a) ∷ os) h =
      ask_sound s now c k all answered os h
  ask_sound s now c k all answered (replied (records a b) ∷ os) h =
      ask_sound s now c k all answered os h
  ask_sound s now c k all answered (replied (error a b) ∷ os) h =
      ask_sound s now c k all answered os h
  ask_sound s now c k all answered (failed ∷ os) h = ask_sound s now c k all answered os h
  ask_sound s now c k all answered (timed_out ∷ os) h = ask_sound s now c k all answered os h

  cached_answer_sound :
      (c : Option Cache.Cache) (now : ℕ) (k : PubKey)
      → IsVerifiedCache c
      → IsHit ed now k (cached_answer c now k).0 × IsVerifiedCache (cached_answer c now k).1
  unfolding cached_answer
  cached_answer_sound none now k h = (tt, tt)
  cached_answer_sound (some c) now k h = get_sound ed c now k h

  hit-IsNext :
      (now : ℕ) (k : PubKey) (r : SignedRecord) (hit : Option (Option SignedRecord))
      → successor r.rec ≡ some k
      → IsHit ed now k hit
      → IsNext now r (flatten hit)
  hit-IsNext now k r none e h = tt
  hit-IsNext now k r (some none) e h = tt
  hit-IsNext now k r (some (some n)) e h =
      (e ∙ ap some (sym h.own_key), subst (λ (j : PubKey). IsAnswer ed now j n) (sym h.own_key) h)

  cached_successor_sound :
      (c : Option Cache.Cache) (now : ℕ) (r : SignedRecord)
      → IsVerifiedCache c
      → IsNext now r (cached_successor c now r).0 × IsVerifiedCache (cached_successor c now r).1
  unfolding cached_successor
  cached_successor_sound c now r h = elim (Option-cases (successor r.rec)) [
    | inl last ↦ rw (last, cached_successor, IsNext) (tt, h)
    | inr (k, named) ↦
        let (hit, kept) = cached_answer_sound c now k h in
        rw (named, cached_successor) (hit-IsNext now k r (cached_answer c now k).0 named hit, kept)
  ]

  after_cache-IsSound :
      (u : Upstream) (s : Store) (now : ℕ) (k : PubKey) (recurse : ℕ)
      (hit : Option (Option SignedRecord)) (c : Option Cache.Cache)
      → IsHit ed now k hit
      → IsVerifiedCache c
      → IsSound now k (after_cache ed u s now k recurse hit c)
  unfolding after_cache
  after_cache-IsSound u s now k recurse (some (some r)) c a h =
      let (next, kept) = cached_successor_sound c now r h in ((a, next), kept)
  after_cache-IsSound u s now k recurse (some none) c a h = (tt, h)
  after_cache-IsSound u s now k recurse none c a h =
      ask_sound s now c k (length u.links) 0 (outcomes u.links (lookup k recurse)) h

  -- From a cache whose records are verified, whatever the links answer: a lookup gives nothing but a
  -- verified, unexpired record for the key asked, with at most such a record for the key it forwards to,
  -- and the cache it leaves has verified records only.
  pub lookup_upstream-IsSound :
      (u : Upstream) (s : Store) (now : ℕ) (k : PubKey) (recurse : ℕ)
      → IsVerifiedCache u.cache
      → IsSound now k (lookup_upstream ed u s now k recurse)
  unfolding lookup_upstream
  lookup_upstream-IsSound u s now k recurse h =
      let (hit, kept) = cached_answer_sound u.cache now k h in
      after_cache-IsSound u s now k recurse (cached_answer u.cache now k).0
        (cached_answer u.cache now k).1 hit kept
