-- ===== src/Store/Listing.antt =====
-- The batches that `since` returns to a replicating peer.
use sqns.Base.{
  ℕ, zero, suc, ◌≤◌, ◌≡◌, refl, sym, ap, ◌⊎◌, inl, inr, true, false, not, ◌&&◌, some, List, [], ◌∷◌,
  length, take, leb, All, All-take, subst, Bool-cases, arith,
}
use sqns.Base.{In}
use sqns.Record.{PubKey, SignedRecord, is_expired}
use sqns.Map.{Map, get, values}
use sqns.Store.{Store, since, filter_since, sort_records, insert_sorted, goes_before}

-- Oldest first.
abbrev pub IsOldestFirst : List SignedRecord → Type 0
IsOldestFirst [] = Unit
IsOldestFirst (x ∷ xs) = All (λ y. x.rec.issued_at ≤ y.rec.issued_at) xs × IsOldestFirst xs

pub In-values :
    (m : Map SignedRecord) (k : PubKey) (r : SignedRecord) → get m k ≡ some r → In r (values m)
unfolding get values
In-values [] k r e = cc
In-values ((j, w) ∷ m) k r e = ground (arith, In-values m k r)

pub In-filter_since :
    (from now : ℕ) (rs : List SignedRecord) (r : SignedRecord)
    → In r rs
    → from ≤ r.rec.issued_at
    → is_expired r.rec now ≡ false
    → In r (filter_since from now rs)
unfolding filter_since
In-filter_since from now (x ∷ xs) r (inl same) old fresh = ground arith
In-filter_since from now (x ∷ xs) r (inr rest) old fresh =
    ground (arith, In-filter_since from now xs r rest old fresh)
In-filter_since from now [] r h old fresh = absurd h

filter_sound :
    (from now : ℕ) (rs : List SignedRecord) (r : SignedRecord)
    → In r (filter_since from now rs)
    → In r rs × (from ≤ r.rec.issued_at) × (is_expired r.rec now ≡ false)
unfolding filter_since
filter_sound from now [] r h = absurd h
filter_sound from now (x ∷ xs) r h =
    elim (Bool-cases (leb from x.rec.issued_at && not (is_expired x.rec now))) [
      | inl kept ↦ go (filter_sound from now xs r) (rw kept at h) kept
      | inr dropped ↦ let (a, b, c) = filter_sound from now xs r (rw dropped at h) in (inr a, b, c)
    ]
  where
    go :
        (In r (filter_since from now xs)
          → In r xs × (from ≤ r.rec.issued_at) × (is_expired r.rec now ≡ false))
        → In r (x ∷ filter_since from now xs)
        → (leb from x.rec.issued_at && not (is_expired x.rec now)) ≡ true
        → In r (x ∷ xs) × (from ≤ r.rec.issued_at) × (is_expired r.rec now ≡ false)
    go ih (inl same) kept = (inl same, ground arith, ground arith)
    go ih (inr rest) kept = let (a, b, c) = ih rest in (inr a, b, c)

In-insert :
    (r y : SignedRecord) (xs : List SignedRecord) → (r ≡ y) ⊎ In r xs → In r (insert_sorted y xs)
unfolding insert_sorted
In-insert r y [] h = h
In-insert r y (x ∷ xs) (inl same) = ground (arith, In-insert r y xs (inl same))
In-insert r y (x ∷ xs) (inr (inl here)) = ground arith
In-insert r y (x ∷ xs) (inr (inr later)) = ground (arith, In-insert r y xs (inr later))

pub In-sort : (r : SignedRecord) (xs : List SignedRecord) → In r xs → In r (sort_records xs)
unfolding sort_records
In-sort r (x ∷ xs) (inl same) = In-insert r x (sort_records xs) (inl same)
In-sort r (x ∷ xs) (inr rest) = In-insert r x (sort_records xs) (inr (In-sort r xs rest))
In-sort r [] h = absurd h

insert_only :
    (r y : SignedRecord) (xs : List SignedRecord) → In r (insert_sorted y xs) → (r ≡ y) ⊎ In r xs
unfolding insert_sorted
insert_only r y [] h = h
insert_only r y (x ∷ xs) h = elim (Bool-cases (goes_before x y)) [
  | inl first ↦ go (insert_only r y xs) (rw first at h)
  | inr other ↦ whole (rw other at h)
]
  where
    whole : In r (y ∷ (x ∷ xs)) → (r ≡ y) ⊎ In r (x ∷ xs)
    whole k = k

    go :
        (In r (insert_sorted y xs) → (r ≡ y) ⊎ In r xs)
        → In r (x ∷ insert_sorted y xs)
        → (r ≡ y) ⊎ In r (x ∷ xs)
    go ih (inl same) = inr (inl same)
    go ih (inr rest) = elim (ih rest) [ inl a ↦ inl a | inr b ↦ inr (inr b) ]

sort_only : (r : SignedRecord) (xs : List SignedRecord) → In r (sort_records xs) → In r xs
unfolding sort_records
sort_only r [] h = h
sort_only r (x ∷ xs) h = elim (insert_only r x (sort_records xs) h) [
  | inl a ↦ inl a
  | inr b ↦ inr (sort_only r xs b)
]

insert_bound :
    (n : ℕ) (y : SignedRecord) (xs : List SignedRecord)
    → n ≤ y.rec.issued_at
    → All (λ z. n ≤ z.rec.issued_at) xs
    → All (λ z. n ≤ z.rec.issued_at) (insert_sorted y xs)
unfolding insert_sorted
insert_bound n y [] h k = (h, tt)
insert_bound n y (x ∷ xs) h k = ground (arith, insert_bound n y xs h k.1)

weaken :
    (m n : ℕ) (xs : List SignedRecord)
    → m ≤ n
    → All (λ z. n ≤ z.rec.issued_at) xs
    → All (λ z. m ≤ z.rec.issued_at) xs
weaken m n [] h k = tt
weaken m n (x ∷ xs) h k = (omega arith, weaken m n xs h k.1)

goes_before-le : (r x : SignedRecord) → goes_before r x ≡ true → r.rec.issued_at ≤ x.rec.issued_at
unfolding goes_before
goes_before-le r x h = ground arith

not_before-le : (r x : SignedRecord) → goes_before r x ≡ false → x.rec.issued_at ≤ r.rec.issued_at
unfolding goes_before
not_before-le r x h = ground arith

insert-IsOldestFirst :
    (y : SignedRecord) (xs : List SignedRecord)
    → IsOldestFirst xs
    → IsOldestFirst (insert_sorted y xs)
unfolding insert_sorted
insert-IsOldestFirst y [] h = (tt, tt)
insert-IsOldestFirst y (x ∷ xs) h = elim (Bool-cases (goes_before x y)) [
  | inl first ↦
      rw (first, insert_sorted)
        (
          insert_bound x.rec.issued_at y xs (goes_before-le x y first) h.0,
          insert-IsOldestFirst y xs h.1,
        )
  | inr other ↦
      rw (other, insert_sorted)
        (
          (
            not_before-le x y other,
            weaken y.rec.issued_at x.rec.issued_at xs (not_before-le x y other) h.0,
          ),
          h,
        )
]

pub sort-IsOldestFirst : (xs : List SignedRecord) → IsOldestFirst (sort_records xs)
unfolding sort_records
sort-IsOldestFirst [] = tt
sort-IsOldestFirst (x ∷ xs) = insert-IsOldestFirst x (sort_records xs) (sort-IsOldestFirst xs)

In-take : (n : ℕ) (r : SignedRecord) (xs : List SignedRecord) → In r (take n xs) → In r xs
In-take (suc n) r (x ∷ xs) (inl same) = inl same
In-take (suc n) r (x ∷ xs) (inr rest) = inr (In-take n r xs rest)
In-take (suc n) r [] h = absurd h
In-take zero r xs h = absurd h

take_whole : (n : ℕ) (xs : List SignedRecord) → length xs ≤ n → take n xs ≡ xs
take_whole zero [] h = refl
take_whole zero (x ∷ xs) h = absurd (omega arith)
take_whole (suc n) [] h = refl
take_whole (suc n) (x ∷ xs) h = ap (◌∷◌ x) (take_whole n xs (omega arith))

pub length-take-le : (n : ℕ) (xs : List SignedRecord) → length (take n xs) ≤ n
length-take-le zero xs = omega arith
length-take-le (suc n) [] = omega arith
length-take-le (suc n) (x ∷ xs) = omega (arith, length-take-le n xs)

take-IsOldestFirst : (n : ℕ) (xs : List SignedRecord) → IsOldestFirst xs → IsOldestFirst (take n xs)
take-IsOldestFirst zero xs h = tt
take-IsOldestFirst (suc n) [] h = tt
take-IsOldestFirst (suc n) (x ∷ xs) h =
    (All-take (λ y. x.rec.issued_at ≤ y.rec.issued_at) n xs h.0, take-IsOldestFirst n xs h.1)

-- A batch is ordered by the time of issue, holds at most `limit` records, and only such as the store
-- holds, issued at `from` or later and not expired.
pub since_sound :
    (s : Store) (now from limit : ℕ) (r : SignedRecord)
    → In r (since s now from limit).0
    → IsOldestFirst (since s now from limit).0
      × (length (since s now from limit).0 ≤ limit)
      × In r (values s.records)
      × (from ≤ r.rec.issued_at)
      × (is_expired r.rec now ≡ false)
unfolding since
since_sound s now from limit r h =
    let whole = sort_records (filter_since from now (values s.records)) in
    let (held, later, fresh) =
      filter_sound from now (values s.records) r (sort_only r _ (In-take limit r whole h)) in
    (
      take-IsOldestFirst limit whole
          (sort-IsOldestFirst (filter_since from now (values s.records))),
      length-take-le limit whole,
      held,
      later,
      fresh,
    )

-- A batch that is said to be complete has every record that the store holds under a key, that was
-- issued at `from` or later and has not expired.
pub since_complete :
    (s : Store) (now from limit : ℕ) (k : PubKey) (r : SignedRecord)
    → (since s now from limit).1 ≡ true
    → get s.records k ≡ some r
    → from ≤ r.rec.issued_at
    → is_expired r.rec now ≡ false
    → In r (since s now from limit).0
unfolding since
since_complete s now from limit k r all held later fresh =
    let whole = sort_records (filter_since from now (values s.records)) in
    subst (In r) (sym (take_whole limit whole (fits whole all))) (
      In-sort r (filter_since from now (values s.records))
        (In-filter_since from now (values s.records) r (In-values s.records k r held) later fresh))
  where
    fits : (xs : List SignedRecord) → leb (length xs) limit ≡ true → length xs ≤ limit
    fits xs h = ground arith
