-- ===== src/Cache/Verified.antt =====
-- Caches whose records are verified, and what they answer.
use sqns.Base.{
  ℕ, ◌≡◌, sym, subst, false, Option, some, [], ◌∷◌, ltb, arith, Bool-cases, Option-cases, inl, inr,
}
use sqns.Bytes.{bytes_eq, bytes_eq_sound}
use sqns.Errors.{ok}
use sqns.Crypto.{Ed25519}
use sqns.Record.{PubKey, SignedRecord, is_expired}
use sqns.Record.Authority.{verify}
use sqns.Map.{get, insert, remove}
use sqns.Cache
use sqns.Cache.{Entry, found, missing, is_fresh}

module _ (ed : Ed25519) where
  -- The record answers for the key at the time: it is the key's own, its signatures hold and it has
  -- not expired.
  pub record IsAnswer (now : ℕ) (k : PubKey) (r : SignedRecord) : Type 0 where
    pub own_key : r.rec.key ≡ k
    pub verified : verify ed r ≡ ok tt
    pub fresh : is_expired r.rec now ≡ false

  abbrev pub IsEntry : PubKey → Entry → Type 0
  IsEntry k (found r) = (r.rec.key ≡ k) × (verify ed r ≡ ok tt)
  IsEntry k (missing until) = Unit

  -- Every record in the cache is verified and under its own key.
  abbrev pub IsVerified : Cache.Cache → Type 0
  IsVerified [] = Unit
  IsVerified ((k, e) ∷ c) = IsEntry k e × IsVerified c

  entry-IsEntry :
      (c : Cache.Cache) (k : PubKey) (e : Entry) → IsVerified c → get c k ≡ some e → IsEntry k e
  unfolding get
  entry-IsEntry [] k e h g = cc
  entry-IsEntry ((j, w) ∷ c) k e h g = elim (Bool-cases (bytes_eq j k)) [
    | inl same ↦
        let held : w ≡ e = ground arith in
        subst (λ (i : PubKey). IsEntry i e) (bytes_eq_sound j k same) (subst (IsEntry j) held h.0)
    | inr other ↦ entry-IsEntry c k e h.1 (rw other at g)
  ]

  pub insert-IsVerified :
      (c : Cache.Cache) (k : PubKey) (e : Entry)
      → IsVerified c
      → IsEntry k e
      → IsVerified (insert c k e)
  unfolding insert
  insert-IsVerified [] k e h g = (g, tt)
  insert-IsVerified ((j, w) ∷ c) k e h g = elim (Bool-cases (bytes_eq j k)) [
    | inl same ↦ rw same (subst (λ i. IsEntry i e) (sym (bytes_eq_sound j k same)) g, h.1)
    | inr other ↦ rw other (h.0, insert-IsVerified c k e h.1 g)
  ]

  remove-IsVerified : (c : Cache.Cache) (k : PubKey) → IsVerified c → IsVerified (remove c k)
  unfolding remove
  remove-IsVerified [] k h = tt
  remove-IsVerified ((j, w) ∷ c) k h = elim (Bool-cases (bytes_eq j k)) [
    | inl same ↦ rw same (remove-IsVerified c k h.1)
    | inr other ↦ rw other (h.0, remove-IsVerified c k h.1)
  ]

  -- What a cache lookup gives, and the cache after it.
  abbrev pub IsHit : ℕ → PubKey → Option (Option SignedRecord) → Type 0
  IsHit now k (some (some r)) = IsAnswer now k r
  IsHit now k _ = Unit

  get_held :
      (c : Cache.Cache) (now : ℕ) (k : PubKey) (e : Entry)
      → get c k ≡ some e
      → IsEntry k e
      → IsVerified c
      → IsHit now k (Cache.get c now k).0 × IsVerified (Cache.get c now k).1
  unfolding Cache.get is_fresh
  get_held c now k (found r) there mine h = elim (Bool-cases (is_expired r.rec now)) [
    | inl old ↦ rw (there, old, Cache.get, IsHit) (tt, remove-IsVerified c k h)
    | inr new ↦
        rw (there, new, Cache.get, IsHit)
          (record { own_key = mine.0; verified = mine.1; fresh = new }, h)
  ]
  get_held c now k (missing until) there mine h = elim (Bool-cases (ltb now until)) [
    | inl new ↦ rw (there, new, Cache.get, IsHit) (tt, h)
    | inr old ↦ rw (there, old, Cache.get, IsHit) (tt, remove-IsVerified c k h)
  ]

  pub get_sound :
      (c : Cache.Cache) (now : ℕ) (k : PubKey)
      → IsVerified c
      → IsHit now k (Cache.get c now k).0 × IsVerified (Cache.get c now k).1
  unfolding Cache.get
  get_sound c now k h = elim (Option-cases (get c k)) [
    | inl absent ↦ rw (absent, Cache.get, IsHit) (tt, h)
    | inr (e, there) ↦ get_held c now k e there (entry-IsEntry c k e h there) h
  ]
