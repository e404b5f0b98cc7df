-- ===== src/Select.antt =====
-- crates/sqns-client/src/select.rs: the order in which the endpoints of a record are tried. The random
-- number generator is a parameter: `draw n total` is the number it gives at its call `n`, for the range
-- `0..total`. What panics in the source is `none` here.
pub mod Bands
pub mod Draw
pub mod Ordered
use sqns.Base.{
  ℕ, zero, suc, ◌+◌, ◌-◌, ◌<◌, true, false, Option, none, some, List, [], ◌∷◌, ◌++◌, length, ltb,
  leb, ◌==◌, if◌then◌else◌,
}
use sqns.Record.{Endpoint, Record, endpoints}

abbrev pub Rng : Type 0
Rng = ℕ → ℕ → ℕ

-- `random_range(0..total)` lies in the range, which may not be empty.
abbrev pub IsRng : Rng → Type 0
IsRng draw = (n total : ℕ) → 0 < total → draw n total < total

abbrev pub Band : Type 0
Band = ℕ × List Endpoint

-- `sort_by_key(|e| e.priority)`, which is stable.
unfoldable pub insert_endpoint : Endpoint → List Endpoint → List Endpoint
insert_endpoint e [] = e ∷ []
insert_endpoint e (x ∷ xs) =
    let rest = insert_endpoint e xs in if ltb x.priority e.priority then x ∷ rest else e ∷ (x ∷ xs)

unfoldable pub sort_endpoints : List Endpoint → List Endpoint
unfolding insert_endpoint
sort_endpoints [] = []
sort_endpoints (e ∷ es) = insert_endpoint e (sort_endpoints es)

-- The match on `bands.last_mut()`.
unfoldable pub push_band : List Band → Endpoint → List Band
push_band [] e = (e.priority, e ∷ []) ∷ []
push_band ((p, band) ∷ []) e =
    if p == e.priority then (p, band ++ (e ∷ [])) ∷ [] else (p, band) ∷ ((e.priority, e ∷ []) ∷ [])
push_band (x ∷ (y ∷ bands)) e = x ∷ push_band (y ∷ bands) e

unfoldable pub push_bands : List Band → List Endpoint → List Band
unfolding push_band
push_bands bands [] = bands
push_bands bands (e ∷ es) = push_bands (push_band bands e) es

abbrev pub total_weight : List Endpoint → ℕ
total_weight [] = 0
total_weight (e ∷ es) = e.weight + total_weight es

-- The `for` loop from the index `i`, with what `chosen` was before it.
unfoldable pub scan : ℕ → ℕ → ℕ → List Endpoint → ℕ
scan pick i chosen [] = chosen
scan pick i chosen (e ∷ es) =
    let on = scan (pick - e.weight) (suc i) chosen es in if ltb pick e.weight then i else on

unfoldable pub choose : Rng → ℕ → List Endpoint → ℕ
unfolding scan
choose draw n band =
    if total_weight band == 0 then 0 else scan (draw n (total_weight band)) 0 (length band - 1) band

-- `Vec::remove`: the element and the rest, if the index is in range.
unfoldable pub take_out : ℕ → List Endpoint → Option (Endpoint × List Endpoint)
take_out i [] = none
take_out zero (e ∷ es) = some (e, es)
take_out (suc i) (e ∷ es) = elim (take_out i es) [
  | none ↦ none
  | some (x, rest) ↦ some (x, e ∷ rest)
]

-- `while !band.is_empty()`, at most `fuel` times: what is pushed to `out`, and the calls made of the
-- generator so far.
unfoldable pub drain : Rng → ℕ → ℕ → List Endpoint → Option (List Endpoint × ℕ)
unfolding choose take_out
drain draw fuel n [] = some ([], n)
drain draw zero n (e ∷ es) = none
drain draw (suc fuel) n (e ∷ es) = elim (take_out (choose draw n (e ∷ es)) (e ∷ es)) [
  | none ↦ none
  | some (x, rest) ↦ elim (drain draw fuel (suc n) rest) [
    | none ↦ none
    | some (out, n') ↦ some (x ∷ out, n')
  ]
]

unfoldable pub drain_all : Rng → ℕ → List Band → Option (List Endpoint)
unfolding drain
drain_all draw n [] = some []
drain_all draw n ((p, band) ∷ bands) = elim (drain draw (length band) n band) [
  | none ↦ none
  | some (out, n') ↦ elim (drain_all draw n' bands) [ none ↦ none | some outs ↦ some (out ++ outs) ]
]

unfoldable pub order_with : Rng → Record → Option (List Endpoint)
unfolding sort_endpoints push_bands drain_all
order_with draw r = drain_all draw 0 (push_bands [] (sort_endpoints (endpoints r)))
