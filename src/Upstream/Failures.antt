-- ===== src/Upstream/Failures.antt =====
-- When no upstream has the key: an answer that it is missing, or a failure.
use sqns.Base.{
  ℕ, suc, ◌+◌, ◌≡◌, ap, ◌∙◌, Option, none, some, List, [], ◌∷◌, length, ltb, ◌==◌, arith,
  if◌then◌else◌,
}
use sqns.Errors.{Error, ok, err}
use sqns.Crypto.{Ed25519}
use sqns.Record.{PubKey}
use sqns.Store.{Store}
use sqns.Cache
use sqns.Protocol.{answer, published, counters, records, error, upstream_failed, to_u16}
use sqns.Upstream.{Outcome, replied, failed, timed_out, ask, remember_missing}

-- How many of the outcomes say that the key is missing, if none of them has a record.
abbrev pub misses : List Outcome → ℕ
misses [] = 0
misses (replied (answer none next) ∷ os) = suc (misses os)
misses (_ ∷ os) = misses os

-- None of the outcomes has a record.
abbrev pub HasNoRecord : List Outcome → Type 0
HasNoRecord [] = Unit
HasNoRecord (replied (answer (some r) next) ∷ os) = ⊥
HasNoRecord (_ ∷ os) = HasNoRecord os

module _ (ed : Ed25519) where
  ask_from :
      (s : Store) (now : ℕ) (c : Option Cache.Cache) (k : PubKey) (all answered : ℕ)
      (os : List Outcome)
      → HasNoRecord os
      → ask ed s now c k all answered os ≡ ask ed s now c k all (answered + misses os) []
  unfolding ask
  ask_from s now c k all answered [] h =
      let same : answered ≡ answered + 0 = omega arith in
      ap (λ (n : ℕ). ask ed s now c k all n []) same
  ask_from s now c k all answered (replied (answer none next) ∷ os) h =
      let same : suc answered + misses os ≡ answered + suc (misses os) = omega arith in
      ask_from s now c k all (suc answered) os h ∙ ap (λ (n : ℕ). ask ed s now c k all n []) same
  ask_from s now c k all answered (replied (answer (some r) next) ∷ os) h = absurd h
  ask_from s now c k all answered (replied (published a b) ∷ os) h =
      ask_from s now c k all answered os h
  ask_from s now c k all answered (replied (counters a) ∷ os) h =
      ask_from s now c k all answered os h
  ask_from s now c k all answered (replied (records a b) ∷ os) h =
      ask_from s now c k all answered os h
  ask_from s now c k all answered (replied (error a b) ∷ os) h =
      ask_from s now c k all answered os h
  ask_from s now c k all answered (failed ∷ os) h = ask_from s now c k all answered os h
  ask_from s now c k all answered (timed_out ∷ os) h = ask_from s now c k all answered os h

  -- If no link has a record to offer, the outcome depends on how many of the links say that the key
  -- is missing: it is remembered as missing when all do, it is reported as missing when some do and the
  -- others fail, and an error is reported when none does.
  pub ask_missing :
      (s : Store) (now : ℕ) (c : Option Cache.Cache) (k : PubKey) (os : List Outcome)
      → HasNoRecord os
      → ask ed s now c k (length os) 0 os ≡ (
          if misses os == length os
          then (ok none, remember_missing c now k)
          else if ltb 0 (misses os)
          then (ok none, c)
          else (err (Error.server (to_u16 upstream_failed) []), c))
  unfolding ask
  ask_missing s now c k os h =
      let same : 0 + misses os ≡ misses os = omega arith in
      ask_from s now c k (length os) 0 os h ∙ ap (λ (n : ℕ). ask ed s now c k (length os) n []) same
