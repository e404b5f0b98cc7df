-- ===== src/Store/Snapshot/Bindings.antt =====
-- The bindings in a snapshot: sorting, inserting and binding them again loses none.
use sqns.Base.{
  suc, ◌≡◌, refl, ap, ◌∙◌, Option, none, some, [], ◌∷◌, length, All, arith, Bool-cases, inl, inr,
  if◌then◌else◌,
}
use sqns.Bytes.{Bytes, bytes_eq, bytes_eq_sound, bytes_eq_iff, bytes_lt}
use sqns.Record.{PubKey}
use sqns.Map.{Map, get, insert}
use sqns.Map.Laws.{get-insert, get-or_insert, IsMap, insert-IsMap}
use sqns.Store.{Store, bind}
use sqns.Store.Snapshot.{insert_binding, sort_bindings, insert_all, bind_all}

get-insert_binding :
    (k i : PubKey) (m : Map PubKey) (j : PubKey)
    → get m k ≡ none
    → get (insert_binding k i m) j ≡ (if bytes_eq k j then some i else get m j)
unfolding insert_binding get
get-insert_binding k i [] j h = refl
get-insert_binding k i ((l, v) ∷ m) j h =
    ground (arith, bytes_eq_iff k j, bytes_eq_iff l j, bytes_eq_iff l k, get-insert_binding k i m j)

insert_binding-IsMap :
    (k i : PubKey) (m : Map PubKey) → get m k ≡ none → IsMap m → IsMap (insert_binding k i m)
unfolding insert_binding get
insert_binding-IsMap k i [] h v = (refl, tt)
insert_binding-IsMap k i ((l, w) ∷ m) h v = ground (
  arith,
  bytes_eq_iff l k,
  bytes_eq_iff k l,
  get-insert_binding k i m l,
  insert_binding-IsMap k i m,
)

-- Sorting keeps what is found under each key, and one entry for each.
pub sort_bindings-IsMap :
    (m : Map PubKey)
    → IsMap m
    → IsMap (sort_bindings m) × ((j : PubKey) → get (sort_bindings m) j ≡ get m j)
unfolding sort_bindings get
sort_bindings-IsMap [] h = (tt, λ j. refl)
sort_bindings-IsMap ((k, i) ∷ m) h =
    let (sorted, same) = sort_bindings-IsMap m h.1 in
    let absent : get (sort_bindings m) k ≡ none = same k ∙ h.0 in
    (
      insert_binding-IsMap k i (sort_bindings m) absent sorted,
      λ j.
          get-insert_binding k i (sort_bindings m) j absent
          ∙ ap (λ (o : Option PubKey). if bytes_eq k j then some i else o) (same j),
    )

insert_binding-All :
    (P : Bytes × PubKey → Type 0) (k i : PubKey) (m : Map PubKey)
    → P (k, i)
    → All P m
    → All P (insert_binding k i m) × (length (insert_binding k i m) ≡ suc (length m))
unfolding insert_binding
insert_binding-All P k i [] h a = ((h, tt), refl)
insert_binding-All P k i ((l, w) ∷ m) h a = elim (Bool-cases (bytes_lt l k)) [
  | inl before ↦
      let (all, size) = insert_binding-All P k i m h a.1 in
      rw (before, insert_binding) ((a.0, all), ap suc size)
  | inr after ↦ rw (after, insert_binding) ((h, a), refl)
]

pub sort_bindings-All :
    (P : Bytes × PubKey → Type 0) (m : Map PubKey)
    → All P m
    → All P (sort_bindings m) × (length (sort_bindings m) ≡ length m)
unfolding sort_bindings
sort_bindings-All P [] a = (tt, refl)
sort_bindings-All P ((k, i) ∷ m) a =
    let (all, size) = sort_bindings-All P m a.1 in
    let (all', size') = insert_binding-All P k i (sort_bindings m) a.0 all in
    (all', size' ∙ ap suc size)

pub get-insert_all :
    (acc ps : Map PubKey) (j : PubKey)
    → IsMap ps
    → get (insert_all acc ps) j ≡ elim (get ps j) [ some i ↦ some i | none ↦ get acc j ]
unfolding insert_all get
get-insert_all acc [] j h = refl
get-insert_all acc ((k, i) ∷ ps) j h =
    ground
      (arith, bytes_eq_sound k j, get-insert_all (insert acc k i) ps j h.1, get-insert acc k j i)

-- Binding all pairs binds each key as the pairs say, unless it is bound, and touches no record.
pub get-bind_all :
    (s : Store) (m : Map PubKey) (j : PubKey)
    → IsMap m
    → (get (bind_all s m).bindings j ≡ elim (get s.bindings j) [ some i ↦ some i | none ↦ get m j ])
      × ((bind_all s m).records ≡ s.records)
unfolding bind_all get bind
get-bind_all s [] j h = (ground arith, refl)
get-bind_all s ((k, i) ∷ m) j h =
    let (found, kept) = get-bind_all (bind s k i) m j h.1 in
    (ground (arith, bytes_eq_sound k j, found, get-or_insert s.bindings k j i), kept)

pub insert_all-IsMap : (acc ps : Map PubKey) → IsMap acc → IsMap (insert_all acc ps)
unfolding insert_all
insert_all-IsMap acc [] h = h
insert_all-IsMap acc ((k, i) ∷ ps) h = insert_all-IsMap (insert acc k i) ps (insert-IsMap acc k i h)
