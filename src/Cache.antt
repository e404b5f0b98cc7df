-- ===== src/Cache.antt =====
-- crates/sqns-client/src/cache.rs: the cache of answers, which a resolver and a relaying server keep.
-- A method takes the cache and the time and returns the new cache; the mutex is held for the whole of
-- a method.
pub mod Laws
pub mod Verified
use sqns.Base.{
  ℕ, ◌+◌, ◌-◌, ◌%◌, ◌^◌, Bool, true, false, not, Option, none, some, [], length, ltb, if◌then◌else◌,
}
use sqns.Record.{PubKey, SignedRecord, is_expired}
use sqns.Map.{Map, get as entry, insert, remove, retain}

-- How long a negative answer is remembered, in seconds.
abbrev pub negative_ttl : ℕ
negative_ttl = 30

pub data Entry : Type 0 where
  found : SignedRecord → Entry
  missing : ℕ → Entry

abbrev pub Cache : Type 0
Cache = Map Entry

abbrev pub new : Cache
new = []

-- Whether an entry still answers.
unfoldable pub is_fresh : ℕ → Entry → Bool
is_fresh now (found r) = not (is_expired r.rec now)
is_fresh now (missing until) = ltb now until

abbrev pub answer_of : Entry → Option SignedRecord
answer_of (found r) = some r
answer_of (missing until) = none

unfoldable pub get : Cache → ℕ → PubKey → Option (Option SignedRecord) × Cache
unfolding is_fresh
get c now key = elim (entry c key) [
  | some e ↦ if is_fresh now e then (some (answer_of e), c) else (none, remove c key)
  | none ↦ (none, c)
]

unfoldable pub put : Cache → SignedRecord → Cache
put c r = insert c r.rec.key (found r)

unfoldable pub put_missing : Cache → ℕ → PubKey → Cache
put_missing c now key = insert c key (missing ((now + negative_ttl) % 2 ^ 64))

unfoldable pub invalidate : Cache → PubKey → Cache
invalidate c key = remove c key

unfoldable pub purge : Cache → ℕ → Cache × ℕ
unfolding is_fresh
purge c now = let kept = retain (is_fresh now) c in (kept, length c - length kept)

abbrev pub clear : Cache → Cache
clear c = []
