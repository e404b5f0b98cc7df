-- ===== src/Cache/Laws.antt =====
-- What the cache answers, and for how long.
use sqns.Base.{
  ℕ, ◌+◌, ◌%◌, ◌^◌, ◌<◌, ◌≤◌, ◌≡◌, refl, ap, sym, ◌∙◌, true, Option, none, some, ltb, arith,
  if◌then◌else◌,
}
use sqns.Bytes.{bytes_eq}
use sqns.Record.{PubKey, SignedRecord, is_expired}
use sqns.Map.{get as entry}
use sqns.Map.Laws.{get-insert, get-retain, IsMap}
use sqns.Cache.{
  Cache, Entry, found, missing, negative_ttl, is_fresh, answer_of, get, put, put_missing, purge,
}

abbrev hit : ℕ → Option Entry → Option (Option SignedRecord)
hit now o = elim o [ some e ↦ if is_fresh now e then some (answer_of e) else none | none ↦ none ]

get-hit : (c : Cache) (now : ℕ) (k : PubKey) → (get c now k).0 ≡ hit now (entry c k)
unfolding get
get-hit c now k = ground arith

-- Whatever was cached before: a record that was put answers for its key until it expires and not
-- after, and the answers for other keys stay as they were.
pub get-put :
    (c : Cache) (r : SignedRecord) (now : ℕ) (k : PubKey)
    → (get (put c r) now k).0 ≡ (
        if bytes_eq r.rec.key k
        then (if is_expired r.rec now then none else some (some r))
        else (get c now k).0)
unfolding put is_fresh
get-put c r now k =
    ground (arith, get-hit (put c r) now k, get-hit c now k, get-insert c r.rec.key k (found r))

-- A key that was found to be missing is answered as missing for the seconds of `negative_ttl` and not
-- after, at a time that does not overflow, and the answers for other keys stay as they were.
pub get-put_missing :
    (c : Cache) (noted now : ℕ) (key k : PubKey)
    → noted + negative_ttl < 2 ^ 64
    → (get (put_missing c noted key) now k).0 ≡ (
        if bytes_eq key k
        then (if ltb now (noted + negative_ttl) then some none else none)
        else (get c now k).0)
unfolding put_missing is_fresh
get-put_missing c noted now key k h = ground (
  arith,
  get-hit (put_missing c noted key) now k,
  get-hit c now k,
  get-insert c key k (missing ((noted + negative_ttl) % 2 ^ 64)),
)

fresh_earlier :
    (now later : ℕ) (e : Entry) → now ≤ later → is_fresh later e ≡ true → is_fresh now e ≡ true
unfolding is_fresh is_expired
fresh_earlier now later (found r) le f = ground arith
fresh_earlier now later (missing until) le f = ground arith

abbrev still : ℕ → Option Entry → Option Entry
still now o = elim o [ some e ↦ if is_fresh now e then some e else none | none ↦ none ]

purged_hit :
    (now later : ℕ) (o : Option Entry) → now ≤ later → hit later (still now o) ≡ hit later o
purged_hit now later none le = refl
purged_hit now later (some e) le = ground (arith, fresh_earlier now later e le)

-- Sweeping a cache that has one entry for each key changes no answer, then or later.
pub get-purge :
    (c : Cache) (now later : ℕ) (k : PubKey)
    → IsMap c
    → now ≤ later
    → (get (purge c now).0 later k).0 ≡ (get c later k).0
unfolding purge
get-purge c now later k h le =
    get-hit (purge c now).0 later k
    ∙ ap (hit later) (get-retain (is_fresh now) c k h)
    ∙ purged_hit now later (entry c k) le
    ∙ sym (get-hit c later k)
