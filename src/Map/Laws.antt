-- ===== src/Map/Laws.antt =====
-- What a lookup finds after each operation on a map.
use sqns.Base.{◌≡◌, refl, Bool, none, some, [], ◌∷◌, arith, if◌then◌else◌}
use sqns.Bytes.{Bytes, bytes_eq, bytes_eq_iff}
use sqns.Map.{Map, get, insert, remove, retain, or_insert}

module _ {ℓ} {V : Type ℓ} where
  pub get-insert :
      (m : Map V) (k j : Bytes) (v : V)
      → get (insert m k v) j ≡ (if bytes_eq k j then some v else get m j)
  unfolding get insert
  get-insert [] k j v = refl
  get-insert ((i, w) ∷ m) k j v =
      ground (arith, bytes_eq_iff k j, bytes_eq_iff i k, bytes_eq_iff i j, get-insert m k j v)

  pub get-remove :
      (m : Map V) (k j : Bytes) → get (remove m k) j ≡ (if bytes_eq k j then none else get m j)
  unfolding get remove
  get-remove [] k j = ground arith
  get-remove ((i, w) ∷ m) k j =
      ground (arith, bytes_eq_iff k j, bytes_eq_iff i k, bytes_eq_iff i j, get-remove m k j)

  pub get-or_insert :
      (m : Map V) (k j : Bytes) (v : V)
      → get (or_insert m k v) j
        ≡ elim (get m j) [ some w ↦ some w | none ↦ if bytes_eq k j then some v else none ]
  unfolding or_insert
  get-or_insert m k j v = ground (arith, bytes_eq_iff k j, get-insert m k j v)

  -- No key twice: no entry is hidden behind another.
  abbrev pub IsMap : Map V → Type ℓ
  IsMap [] = Unit {ℓ}
  IsMap ((j, w) ∷ m) = (get m j ≡ none) × IsMap m

  pub insert-IsMap : (m : Map V) (k : Bytes) (v : V) → IsMap m → IsMap (insert m k v)
  unfolding get insert
  insert-IsMap [] k v h = (refl, tt)
  insert-IsMap ((j, w) ∷ m) k v h =
      ground (arith, get-insert m k j v, bytes_eq_iff j k, bytes_eq_iff k j, insert-IsMap m k v h.1)

  pub or_insert-IsMap : (m : Map V) (k : Bytes) (v : V) → IsMap m → IsMap (or_insert m k v)
  unfolding or_insert
  or_insert-IsMap m k v h = ground (arith, insert-IsMap m k v h)

  retain_absent :
      (keep : V → Bool) (m : Map V) (k : Bytes) → get m k ≡ none → get (retain keep m) k ≡ none
  unfolding get retain
  retain_absent keep [] k h = refl
  retain_absent keep ((j, w) ∷ m) k h = ground (arith, retain_absent keep m k)

  pub get-retain :
      (keep : V → Bool) (m : Map V) (k : Bytes)
      → IsMap m
      → get (retain keep m) k
        ≡ elim (get m k) [ some w ↦ if keep w then some w else none | none ↦ none ]
  unfolding get retain
  get-retain keep [] k h = refl
  get-retain keep ((j, w) ∷ m) k h =
      ground (arith, bytes_eq_iff j k, get-retain keep m k h.1, retain_absent keep m j)

  pub retain-IsMap : (keep : V → Bool) (m : Map V) → IsMap m → IsMap (retain keep m)
  unfolding get retain
  retain-IsMap keep [] h = tt
  retain-IsMap keep ((j, w) ∷ m) h = ground (arith, retain_absent keep m j, retain-IsMap keep m h.1)
