-- ===== src/Map.antt =====
-- `HashMap<PubKey, V>` and `BTreeSet<PubKey>` as lists. The order of a map's entries stands for the
-- order in which the hash map would iterate.
pub mod Laws
use sqns.Base.{Bool, true, false, not, Option, none, some, List, [], ◌∷◌, if◌then◌else◌}
use sqns.Bytes.{Bytes, bytes_eq, bytes_lt}

abbrev pub Map {ℓ} : Type ℓ → Type ℓ
Map V = List (Bytes × V)

module _ {ℓ} {V : Type ℓ} where
  unfoldable pub get : Map V → Bytes → Option V
  get [] k = none
  get ((j, v) ∷ m) k = if bytes_eq j k then some v else get m k

  unfoldable pub insert : Map V → Bytes → V → Map V
  insert [] k v = (k, v) ∷ []
  insert ((j, w) ∷ m) k v = if bytes_eq j k then (j, v) ∷ m else (j, w) ∷ insert m k v

  unfoldable pub remove : Map V → Bytes → Map V
  remove [] k = []
  remove ((j, w) ∷ m) k = let rest = remove m k in if bytes_eq j k then rest else (j, w) ∷ rest

  -- `retain(|_, v| keep(v))`
  unfoldable pub retain : (V → Bool) → Map V → Map V
  retain keep [] = []
  retain keep ((j, w) ∷ m) = let rest = retain keep m in if keep w then (j, w) ∷ rest else rest

  -- `entry(k).or_insert(v)`
  unfoldable pub or_insert : Map V → Bytes → V → Map V
  unfolding get insert
  or_insert m k v = elim (get m k) [ some w ↦ m | none ↦ insert m k v ]

  unfoldable pub values : Map V → List V
  values [] = []
  values ((j, w) ∷ m) = w ∷ values m

-- A sorted set of keys.
unfoldable pub set_insert : Bytes → List Bytes → List Bytes
set_insert k [] = k ∷ []
set_insert k (j ∷ ks) =
    let rest = set_insert k ks in
    if bytes_eq j k then j ∷ ks else if bytes_lt k j then k ∷ (j ∷ ks) else j ∷ rest
