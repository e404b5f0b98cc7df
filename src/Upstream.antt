-- ===== src/Upstream.antt =====
-- crates/sqnsd/src/upstream.rs: asking other servers for a key. A link is a function from the request
-- to what comes of it in the time given, a reply or a failure; the semaphore and the message texts are
-- left out, and the clock is read once for a lookup.
pub mod Answers
pub mod Failures
use sqns.Base.{
  ℕ, suc, Bool, true, false, not, ◌&&◌, Option, none, some, List, [], ◌∷◌, length, ltb, ◌==◌,
  if◌then◌else◌,
}
use sqns.Bytes.{bytes_eq}
use sqns.Errors.{Error, Result, ok, err, check, ◌>>=◌, ◌>>◌}
use sqns.Crypto.{Ed25519}
use sqns.Record.{PubKey, SignedRecord, identity, successor}
use sqns.Record.Authority.{verify_answer}
use sqns.Store.{Store, identity_of}
use sqns.Cache
use sqns.Protocol.{Request, lookup, Response, answer, upstream_failed, to_u16}

pub data Outcome : Type 0 where
  replied : Response → Outcome
  failed timed_out : Outcome

abbrev pub Link : Type 0
Link = Request → Outcome

pub record Relayed : Type 0 where
  pub rec : SignedRecord
  pub next : Option SignedRecord

pub record Upstream : Type 0 where
  pub links : List Link
  pub cache : Option Cache.Cache

unfoldable pub cached_answer :
    Option Cache.Cache → ℕ → PubKey → Option (Option SignedRecord) × Option Cache.Cache
cached_answer none now key = (none, none)
cached_answer (some c) now key = let (hit, c') = Cache.get c now key in (hit, some c')

abbrev pub flatten : Option (Option SignedRecord) → Option SignedRecord
flatten none = none
flatten (some o) = o

-- The successor for a cached tombstone, if it happens to be cached too.
unfoldable pub cached_successor :
    Option Cache.Cache → ℕ → SignedRecord → Option SignedRecord × Option Cache.Cache
unfolding cached_answer
cached_successor c now r = elim (successor r.rec) [
  | none ↦ (none, c)
  | some next ↦ let (hit, c') = cached_answer c now next in (flatten hit, c')
]

unfoldable pub remember :
    Option Cache.Cache → SignedRecord → Option SignedRecord → Option Cache.Cache
remember none r next = none
remember (some c) r none = some (Cache.put c r)
remember (some c) r (some next) = some (Cache.put (Cache.put c r) next)

unfoldable pub remember_missing : Option Cache.Cache → ℕ → PubKey → Option Cache.Cache
remember_missing none now key = none
remember_missing (some c) now key = some (Cache.put_missing c now key)

abbrev pub outcomes : List Link → Request → List Outcome
outcomes [] req = []
outcomes (l ∷ ls) req = l req ∷ outcomes ls req

-- `Upstream::purge`
unfoldable pub purge_relayed : Upstream → ℕ → Upstream × ℕ
purge_relayed u now = elim u.cache [
  | none ↦ (u, 0)
  | some c ↦ let (kept, removed) = Cache.purge c now in (record u { cache = some kept }, removed)
]

module _ (ed : Ed25519) where
  unfoldable pub accept_bound : Option PubKey → SignedRecord → Result (Unit {0})
  accept_bound none r = ok tt
  accept_bound (some bound) r = check (bytes_eq (identity r.rec) bound) Error.delegation

  unfoldable pub accept : Store → ℕ → PubKey → SignedRecord → Result (Unit {0})
  unfolding accept_bound
  accept s now key r = do verify_answer ed r key now; accept_bound (identity_of s key) r

  unfoldable pub accept_successor : Store → ℕ → SignedRecord → SignedRecord → Option SignedRecord
  unfolding accept
  accept_successor s now r next = elim (successor r.rec) [
    | none ↦ none
    | some expected ↦
        if bytes_eq next.rec.key expected
        then elim (accept s now expected next) [ ok _ ↦ some next | err e ↦ none ]
        else none
  ]

  -- `successor.and_then(|s| self.accept_successor(&rec, *s))`
  abbrev pub accepted_successor :
      Store → ℕ → SignedRecord → Option SignedRecord → Option SignedRecord
  accepted_successor s now r none = none
  accepted_successor s now r (some next) = accept_successor s now r next

  -- The loop over what the links answer; `answered` counts the answers so far, of `all` links.
  unfoldable pub ask :
      Store
      → ℕ
      → Option Cache.Cache
      → PubKey
      → ℕ
      → ℕ
      → List Outcome
      → Result (Option Relayed) × Option Cache.Cache
  unfolding accept accept_successor remember remember_missing
  ask s now c key all answered [] =
      if answered == all
      then (ok none, remember_missing c now key)
      else if ltb 0 answered
      then (ok none, c)
      else (err (Error.server (to_u16 upstream_failed) []), c)
  ask s now c key all answered (replied (answer (some r) next) ∷ os) = elim (accept s now key r) [
    | ok _ ↦
        let next' = accepted_successor s now r next in
        (ok (some (record { rec = r; next = next' })), remember c r next')
    | err e ↦ ask s now c key all (suc answered) os
  ]
  ask s now c key all answered (replied (answer none next) ∷ os) =
      ask s now c key all (suc answered) os
  ask s now c key all answered (_ ∷ os) = ask s now c key all answered os

  -- The rest of a lookup, when the cache has answered or has not.
  unfoldable pub after_cache :
      Upstream
      → Store
      → ℕ
      → PubKey
      → ℕ
      → Option (Option SignedRecord)
      → Option Cache.Cache
      → Result (Option Relayed) × Option Cache.Cache
  unfolding cached_successor ask
  after_cache u s now key recurse (some (some r)) c =
      let (next, c') = cached_successor c now r in (ok (some (record { rec = r; next = next })), c')
  after_cache u s now key recurse (some none) c = (ok none, c)
  after_cache u s now key recurse none c =
      ask s now c key (length u.links) 0 (outcomes u.links (lookup key recurse))

  -- `Upstream::lookup`: what was found, and the cache.
  unfoldable pub lookup_upstream :
      Upstream → Store → ℕ → PubKey → ℕ → Result (Option Relayed) × Option Cache.Cache
  unfolding cached_answer after_cache
  lookup_upstream u s now key recurse =
      let (hit, c) = cached_answer u.cache now key in after_cache u s now key recurse hit c
