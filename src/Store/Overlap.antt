-- ===== src/Store/Overlap.antt =====
-- crates/sqnsd/src/store.rs: the store while calls of `put` overlap. A call stores its record under the lock of the
-- records and binds the key when it has dropped that lock; other calls and sweeps come in between.
pub mod Kept
use mathlib.Core.Option.{some-injective}
use sqns.Base.{
  ℕ, ◌≡◌, ◌⊎◌, refl, sym, ap, ◌∙◌, subst, some, none, List, [], ◌∷◌, ◌++◌, In, inl, inr, arith,
  Bool-cases, Option-cases, if◌then◌else◌,
}
use sqns.Bytes.{bytes_eq, bytes_eq_refl, bytes_eq_sound}
use sqns.Errors.{Error, ok, err}
use sqns.Crypto.{Ed25519}
use sqns.Record.{PubKey, SignedRecord, identity}
use sqns.Record.Authority.{validate, verify}
use sqns.Map.{get}
use sqns.Map.Laws.{IsMap, get-insert, get-or_insert, insert-IsMap, or_insert-IsMap, retain-IsMap}
use sqns.Store.{
  Store, stored, stale, admit, keep, put_locked, put_unlocked, check_bound, purge_expired,
}
use sqns.Store.Invariant.{IsConsistent, admit_checks, check_bound_same, get-records-purge}

-- One step, with the records that calls have stored and not yet bound, before it and after it.
pub data Move (ed : Ed25519) : Store → List SignedRecord → Store → List SignedRecord → Type 0 where
  begin :
      (s : Store) (now : ℕ) (r : SignedRecord) (t : Store) (calls : List SignedRecord)
      → put_locked ed s now r ≡ ok (stored, t)
      → Move ed s calls t (r ∷ calls)
  outdated :
      (s : Store) (now : ℕ) (r : SignedRecord) (t : Store) (calls : List SignedRecord)
      → put_locked ed s now r ≡ ok (stale, t)
      → Move ed s calls t calls
  refuse :
      (s : Store) (now : ℕ) (r : SignedRecord) (e : Error) (calls : List SignedRecord)
      → put_locked ed s now r ≡ err e
      → Move ed s calls s calls
  finish :
      (s : Store) (r : SignedRecord) (before later : List SignedRecord)
      → Move ed s (before ++ (r ∷ later)) (put_unlocked s r) (before ++ later)
  sweep :
      (s : Store) (now : ℕ) (calls : List SignedRecord)
      → Move ed s calls (purge_expired s now).0 calls

-- Any number of steps, from a store without open calls.
pub data Moves (ed : Ed25519) (s : Store) : Store → List SignedRecord → Type 0 where
  still : Moves ed s s []
  move :
      {t u : Store} {calls calls' : List SignedRecord}
      → Moves ed s t calls
      → Move ed t calls u calls'
      → Moves ed s u calls'

-- The key is bound, or an open call is still to bind it.
abbrev pub IsKnown : Store → List SignedRecord → PubKey → Type 0
IsKnown s calls k =
    ((i : PubKey) × (get s.bindings k ≡ some i))
    ⊎ ((p : SignedRecord) × In p calls × (p.rec.key ≡ k))

pub record IsGenuine (ed : Ed25519) (s : Store) (calls : List SignedRecord) (k : PubKey)
    (r : SignedRecord) : Type 0 where
  pub own_key : r.rec.key ≡ k
  pub valid : validate ed r.rec ≡ ok tt
  pub verified : verify ed r ≡ ok tt
  pub known : IsKnown s calls k

pub record IsSettling (ed : Ed25519) (s : Store) (calls : List SignedRecord) : Type 0 where
  pub one_record : IsMap s.records
  pub one_binding : IsMap s.bindings
  pub held : (k : PubKey) (r : SignedRecord) → get s.records k ≡ some r → IsGenuine ed s calls k r

-- A key that is bound to an identity, and whose record comes under it.
pub record IsUnder (s : Store) (k i : PubKey) : Type 0 where
  pub bound : get s.bindings k ≡ some i
  pub mine : (r : SignedRecord) → get s.records k ≡ some r → identity r.rec ≡ i

-- What a call that stores went through under the lock.
pub record Keeps (ed : Ed25519) (s : Store) (now : ℕ) (r : SignedRecord) (t : Store) : Type 0 where
  pub admitted : admit ed now r ≡ ok tt
  pub same_identity : check_bound (get s.bindings r.rec.key) (identity r.rec) ≡ ok tt
  pub result : t ≡ keep s r

pub In-insert :
    (x r : SignedRecord) (before later : List SignedRecord)
    → In x (before ++ (r ∷ later))
    → (x ≡ r) ⊎ In x (before ++ later)
In-insert x r [] later m = m
In-insert x r (b ∷ before) later (inl same) = inr (inl same)
In-insert x r (b ∷ before) later (inr m) = elim (In-insert x r before later m) [
  | inl same ↦ inl same
  | inr there ↦ inr (inr there)
]

pub get-records-keep :
    (s : Store) (r : SignedRecord) (k : PubKey)
    → get (keep s r).records k ≡ (if bytes_eq r.rec.key k then some r else get s.records k)
unfolding keep
get-records-keep s r k = get-insert s.records r.rec.key k r

pub bindings-keep : (s : Store) (r : SignedRecord) → (keep s r).bindings ≡ s.bindings
unfolding keep
bindings-keep s r = refl

pub records-put_unlocked : (s : Store) (r : SignedRecord) → (put_unlocked s r).records ≡ s.records
unfolding put_unlocked
records-put_unlocked s r = refl

pub get-bindings-put_unlocked :
    (s : Store) (r : SignedRecord) (k : PubKey)
    → get (put_unlocked s r).bindings k ≡ elim (get s.bindings k) [
      | some i ↦ some i
      | none ↦ if bytes_eq r.rec.key k then some (identity r.rec) else none
    ]
unfolding put_unlocked
get-bindings-put_unlocked s r k = get-or_insert s.bindings r.rec.key k (identity r.rec)

pub still_bound :
    (s : Store) (r : SignedRecord) (k i : PubKey)
    → get s.bindings k ≡ some i
    → get (put_unlocked s r).bindings k ≡ some i
still_bound s r k i b = get-bindings-put_unlocked s r k ∙ rw b refl

pub now_bound :
    (s : Store) (r : SignedRecord)
    → (i : PubKey) × (get (put_unlocked s r).bindings r.rec.key ≡ some i)
now_bound s r = elim (Option-cases (get s.bindings r.rec.key)) [
  | inl free ↦ (
    identity r.rec,
    get-bindings-put_unlocked s r r.rec.key ∙ rw (free, bytes_eq_refl r.rec.key) refl,
  )
  | inr (i, b) ↦ (i, still_bound s r r.rec.key i b)
]
