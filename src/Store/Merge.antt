-- ===== src/Store/Merge.antt =====
-- What the order of `put` calls does to what is held for a key.
use mathlib.Core.Path.{ap₂}
use sqns.Base.{
  ℕ, ◌≡◌, ◌≢◌, refl, sym, ap, ◌∙◌, true, false, Option, none, some, arith, if◌then◌else◌,
}
use sqns.Bytes.{bytes_eq, bytes_eq_sound, bytes_eq_refl}
use sqns.Errors.{Result, ok, err}
use sqns.Crypto.{Ed25519}
use sqns.Record.{PubKey, SignedRecord, identity, is_terminal, supersedes}
use sqns.Map.{get}
use sqns.Store.{Store, PutOutcome, admit, put, check_retired, check_bound}
use sqns.Store.Invariant.{get-records-replace, get-bindings-replace, check_retired_live}

-- The store that a call of `put` leaves: an error changes nothing.
abbrev pub after : Store → Result (PutOutcome × Store) → Store
after s (ok (out, t)) = t
after s (err e) = s

-- A key is open to a record: it has no binding, or is bound to the record's identity.
abbrev pub Open : Store → SignedRecord → Type 0
Open s r = check_bound (get s.bindings r.rec.key) (identity r.rec) ≡ ok tt

-- What is held for a key that is not retired, once `r` was put.
abbrev pub winner : SignedRecord → Option SignedRecord → SignedRecord
winner r none = r
winner r (some held) = if supersedes r.rec held.rec then r else held

module _ (ed : Ed25519) where
  -- A record that passes the checks, for a key that no held record retires and under its identity,
  -- leaves the one of the two that supersedes the other, or the held one; other keys keep theirs.
  pub get-after-put :
      (s : Store) (now : ℕ) (r : SignedRecord) (k : PubKey)
      → admit ed now r ≡ ok tt
      → check_retired (get s.records r.rec.key) ≡ ok tt
      → Open s r
      → get (after s (put ed s now r)).records k ≡ (
          if bytes_eq r.rec.key k
          then some (winner r (get s.records r.rec.key))
          else get s.records k)
  unfolding put
  get-after-put s now r k a c o =
      ground (arith, get-records-replace s r k, bytes_eq_sound r.rec.key k)

  -- The record of a key that is put first, and then another at the same time.
  abbrev pub put_both : Store → ℕ → SignedRecord → SignedRecord → Store
  put_both s now r x = after (after s (put ed s now r)) (put ed (after s (put ed s now r)) now x)

  pub check_retired_of_live :
      (held : SignedRecord) → is_terminal held.rec ≡ false → check_retired (some held) ≡ ok tt
  unfolding check_retired is_terminal
  check_retired_of_live held live = ground arith

  winner_live :
      (r : SignedRecord) (o : Option SignedRecord)
      → is_terminal r.rec ≡ false
      → check_retired o ≡ ok tt
      → is_terminal (winner r o).rec ≡ false
  winner_live r none live c = live
  winner_live r (some held) live c = ground (arith, check_retired_live held c)

  Open-after :
      (s : Store) (now : ℕ) (r x : SignedRecord)
      → x.rec.key ≡ r.rec.key
      → identity x.rec ≡ identity r.rec
      → Open s r
      → Open (after s (put ed s now r)) x
  unfolding put check_bound
  Open-after s now r x k i o =
      ground (arith, get-bindings-replace s r x.rec.key, bytes_eq_refl (identity r.rec))

  retired-after :
      (s : Store) (now : ℕ) (r : SignedRecord)
      → admit ed now r ≡ ok tt
      → is_terminal r.rec ≡ false
      → check_retired (get s.records r.rec.key) ≡ ok tt
      → Open s r
      → check_retired (get (after s (put ed s now r)).records r.rec.key) ≡ ok tt
  retired-after s now r a live c o =
      ap check_retired (get-after-put s now r r.rec.key a c o ∙ rw (bytes_eq_refl r.rec.key) refl)
      ∙ check_retired_of_live (winner r (get s.records r.rec.key))
          (winner_live r (get s.records r.rec.key) live c)

  winners_agree :
      (r x : SignedRecord) (o : Option SignedRecord)
      → is_terminal r.rec ≡ false
      → is_terminal x.rec ≡ false
      → check_retired o ≡ ok tt
      → supersedes r.rec x.rec ≡ true
      → winner x (some (winner r o)) ≡ winner r (some (winner x o))
  unfolding supersedes
  winners_agree r x none lr lx c h = ground arith
  winners_agree r x (some held) lr lx c h = ground (arith, check_retired_live held c)

  module _ (s : Store) (now : ℕ) (r x : SignedRecord) (k : PubKey) where
    get-put_both :
        admit ed now r ≡ ok tt
        → admit ed now x ≡ ok tt
        → is_terminal r.rec ≡ false
        → x.rec.key ≡ r.rec.key
        → identity x.rec ≡ identity r.rec
        → check_retired (get s.records r.rec.key) ≡ ok tt
        → Open s r
        → get (put_both s now r x).records k ≡ (
            if bytes_eq r.rec.key k
            then some (winner x (some (winner r (get s.records r.rec.key))))
            else get s.records k)
    get-put_both ar ax lr key id c o =
        let t = after s (put ed s now r) in
        let held : get t.records x.rec.key ≡ some (winner r (get s.records r.rec.key)) =
          ap (get t.records) key
          ∙ get-after-put s now r r.rec.key ar c o
          ∙ rw (bytes_eq_refl r.rec.key) refl in
        let fresh : check_retired (get t.records x.rec.key) ≡ ok tt =
          ap (λ (j : PubKey). check_retired (get t.records j)) key
          ∙ retired-after s now r ar lr c o in
        ground (
          arith,
          held,
          key,
          get-after-put t now x k ax fresh (Open-after s now r x key id o),
          get-after-put s now r k ar c o,
        )

  module _ (s : Store) (now : ℕ) (r x : SignedRecord) (k : PubKey) where
    -- Two live records for one key and under one identity, one of them newer, leave the same record
    -- for every key in either order, if the key is not retired and is open to their identity.
    pub put_both_comm :
        admit ed now r ≡ ok tt
        → admit ed now x ≡ ok tt
        → is_terminal r.rec ≡ false
        → is_terminal x.rec ≡ false
        → x.rec.key ≡ r.rec.key
        → identity x.rec ≡ identity r.rec
        → check_retired (get s.records r.rec.key) ≡ ok tt
        → Open s r
        → supersedes r.rec x.rec ≡ true
        → get (put_both s now r x).records k ≡ get (put_both s now x r).records k
    put_both_comm ar ax lr lx key id c o newer =
        let c' : check_retired (get s.records x.rec.key) ≡ ok tt =
          ap (λ (j : PubKey). check_retired (get s.records j)) key ∙ c in
        let o' : Open s x = ap₂ (λ (j i : PubKey). check_bound (get s.bindings j) i) key id ∙ o in
        let same : get s.records x.rec.key ≡ get s.records r.rec.key = ap (get s.records) key in
        ground (
          arith,
          key,
          same,
          get-put_both s now r x k ar ax lr key id c o,
          get-put_both s now x r k ax ar lx (sym key) (sym id) c' o',
          winners_agree r x (get s.records r.rec.key) lr lx c newer,
        )

  put_closed :
      (t : Store) (now : ℕ) (x y : SignedRecord)
      → get t.records x.rec.key ≡ some y
      → is_terminal y.rec ≡ true
      → after t (put ed t now x) ≡ t
  unfolding put
  put_closed t now x y held dead = ground (arith, check_retired_live y, held)

  winner_terminal :
      (r : SignedRecord) (o : Option SignedRecord)
      → is_terminal r.rec ≡ true
      → check_retired o ≡ ok tt
      → winner r o ≡ r
  unfolding supersedes
  winner_terminal r none dead c = refl
  winner_terminal r (some held) dead c = ground (arith, check_retired_live held c)

  module _ (s : Store) (now : ℕ) (r : SignedRecord) where
    held_retirement :
        admit ed now r ≡ ok tt
        → is_terminal r.rec ≡ true
        → check_retired (get s.records r.rec.key) ≡ ok tt
        → Open s r
        → get (after s (put ed s now r)).records r.rec.key ≡ some r
    held_retirement ar dead c o =
        get-after-put s now r r.rec.key ar c o
        ∙ rw (bytes_eq_refl r.rec.key)
            (ap some (winner_terminal r (get s.records r.rec.key) dead c))

    -- After a record that retires its key was accepted, it is the one held for the key, and putting any
    -- record for the key, at any time, leaves the whole store as it is.
    pub put-after_retirement :
        (later : ℕ) (x : SignedRecord)
        → admit ed now r ≡ ok tt
        → is_terminal r.rec ≡ true
        → x.rec.key ≡ r.rec.key
        → check_retired (get s.records r.rec.key) ≡ ok tt
        → Open s r
        → (get (after s (put ed s now r)).records r.rec.key ≡ some r)
          × (after (after s (put ed s now r)) (put ed (after s (put ed s now r)) later x)
              ≡ after s (put ed s now r))
    put-after_retirement later x ar dead key c o =
        let held = held_retirement ar dead c o in
        (
          held,
          put_closed (after s (put ed s now r)) later x r
              (ap (get (after s (put ed s now r)).records) key ∙ held) dead,
        )

  -- Two different records that retire one key, each acceptable by itself for the key while it is not
  -- retired and open to the identity of each, leave different records for the key in the two orders.
  pub put_both_retirements :
      (s : Store) (now : ℕ) (r x : SignedRecord)
      → admit ed now r ≡ ok tt
      → admit ed now x ≡ ok tt
      → is_terminal r.rec ≡ true
      → is_terminal x.rec ≡ true
      → x.rec.key ≡ r.rec.key
      → check_retired (get s.records r.rec.key) ≡ ok tt
      → Open s r
      → Open s x
      → r ≢ x
      → get (put_both s now r x).records r.rec.key ≢ get (put_both s now x r).records r.rec.key
  put_both_retirements s now r x ar ax dr dx key c o o' differ e =
      let c' : check_retired (get s.records x.rec.key) ≡ ok tt =
        ap (λ (j : PubKey). check_retired (get s.records j)) key ∙ c in
      let (first, closed) = put-after_retirement s now r now x ar dr key c o in
      let (first', closed') = put-after_retirement s now x now r ax dx (sym key) c' o' in
      let mine : get (put_both s now r x).records r.rec.key ≡ some r =
        ap (λ (t : Store). get t.records r.rec.key) closed ∙ first in
      let other : get (put_both s now x r).records r.rec.key ≡ some x =
        ap (λ (t : Store). get t.records r.rec.key) closed'
        ∙ ap (get (after s (put ed s now x)).records) (sym key)
        ∙ first' in
      let same : some r ≡ some x = sym mine ∙ e ∙ other in differ (cc)
