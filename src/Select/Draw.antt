-- ===== src/Select/Draw.antt =====
-- Drawing the endpoints of one band by weight.
use mathlib.Core.List.Perm
use mathlib.Core.List.{Perm}
use sqns.Base.{
  ℕ, zero, suc, ◌+◌, ◌-◌, ◌≤◌, ◌<◌, ◌≡◌, ◌⊎◌, inl, inr, refl, sym, ap, ◌∙◌, Option, some, List, [],
  ◌∷◌, length, All, ltb, ◌==◌, arith, Bool-cases,
}
use sqns.Record.{Endpoint}
use sqns.Select.{Rng, IsRng, total_weight, scan, choose, take_out, drain}

-- Where an endpoint may come before another: in a lower priority, or in the same one unless it has no
-- weight and the other has.
abbrev pub IsBefore : Endpoint → Endpoint → Type 0
IsBefore x y =
    (x.priority < y.priority) ⊎ ((x.priority ≡ y.priority) × ((y.weight ≡ 0) ⊎ (0 < x.weight)))

abbrev pub IsOrdered : List Endpoint → Type 0
IsOrdered [] = Unit
IsOrdered (x ∷ xs) = All (IsBefore x) xs × IsOrdered xs

abbrev weight_at : ℕ → List Endpoint → ℕ
weight_at i [] = 0
weight_at zero (e ∷ es) = e.weight
weight_at (suc i) (e ∷ es) = weight_at i es

-- The element at an index, taken out of a list.
record Taken (i : ℕ) (xs : List Endpoint) : Type 1 where
  element : Endpoint
  rest : List Endpoint
  taken : take_out i xs ≡ some (element, rest)
  weight : element.weight ≡ weight_at i xs
  perm : Perm (element ∷ rest) xs
  shorter : length xs ≡ suc (length rest)
  all : (P : Endpoint → Type 0) → All P xs → P element × All P rest

take_out-Taken : (i : ℕ) (xs : List Endpoint) → i < length xs → Taken i xs
unfolding take_out
take_out-Taken i [] h = absurd (omega arith)
take_out-Taken zero (y ∷ ys) h = record {
  element = y;
  rest = ys;
  taken = refl;
  weight = refl;
  perm = Perm.refl (y ∷ ys);
  shorter = refl;
  all = λ P k. k;
}
take_out-Taken (suc i) (y ∷ ys) h =
    let t = take_out-Taken i ys (omega arith) in
    record {
      element = t.element;
      rest = y ∷ t.rest;
      taken = rw (t.taken) refl;
      weight = t.weight;
      perm = Perm.trans (Perm.swap y t.element t.rest) (Perm.cons y t.perm);
      shorter = ap suc t.shorter;
      all = λ P k. let (a, b) = t.all P k.1 in (a, (k.0, b));
    }

-- A number below the total falls to an endpoint that has a weight.
scan-lem :
    (pick i chosen : ℕ) (es : List Endpoint)
    → pick < total_weight es
    → (j : ℕ) × (scan pick i chosen es ≡ i + j) × (j < length es) × (0 < weight_at j es)
unfolding scan
scan-lem pick i chosen [] h = absurd (omega arith)
scan-lem pick i chosen (e ∷ es) h = elim (Bool-cases (ltb pick e.weight)) [
  | inl here ↦ (0, rw here (omega arith), omega arith, ground arith)
  | inr later ↦
      let less : pick - e.weight < total_weight es = ground arith in
      let (j, at, inside, heavy) = scan-lem (pick - e.weight) (suc i) chosen es less in
      let same : suc i + j ≡ i + suc j = omega arith in
      (suc j, rw later (at ∙ same), omega arith, heavy)
]

no_weight : (es : List Endpoint) → total_weight es ≡ 0 → All (λ y. y.weight ≡ 0) es
no_weight [] h = tt
no_weight (e ∷ es) h = (omega arith, no_weight es (omega arith))

-- The endpoint chosen has a weight, or none in the band has.
choose-lem :
    (draw : Rng) (n : ℕ) (e : Endpoint) (es : List Endpoint)
    → IsRng draw
    → (choose draw n (e ∷ es) < length (e ∷ es))
      × ((0 < weight_at (choose draw n (e ∷ es)) (e ∷ es)) ⊎ (total_weight (e ∷ es) ≡ 0))
unfolding choose
choose-lem draw n e es law = elim (Bool-cases (total_weight (e ∷ es) == 0)) [
  | inl empty ↦ rw empty (omega arith, inr (ground arith))
  | inr some' ↦
      let (j, at, inside, heavy) =
        scan-lem (draw n (total_weight (e ∷ es))) 0 (length (e ∷ es) - 1) (e ∷ es)
          (law n (total_weight (e ∷ es)) (ground arith)) in
      let same : 0 + j ≡ j = omega arith in rw (some', at ∙ same) (inside, inl heavy)
]

-- What draining a band pushes: each endpoint once, in order.
pub record Drained (p : ℕ) (band : List Endpoint) (got : Option (List Endpoint × ℕ)) : Type 1 where
  pub out : List Endpoint
  pub calls : ℕ
  pub drained : got ≡ some (out, calls)
  pub perm : Perm out band
  pub all : (P : Endpoint → Type 0) → All P band → All P out
  pub ordered : All (λ x. x.priority ≡ p) band → IsOrdered out

IsBefore-same :
    (p : ℕ) (x : Endpoint) (ys : List Endpoint)
    → x.priority ≡ p
    → All (λ y. y.priority ≡ p) ys
    → (0 < x.weight) ⊎ All (λ y. y.weight ≡ 0) ys
    → All (IsBefore x) ys
IsBefore-same p x [] h k w = tt
IsBefore-same p x (y ∷ ys) h k (inl heavy) =
    (inr (h ∙ sym k.0, inr heavy), IsBefore-same p x ys h k.1 (inl heavy))
IsBefore-same p x (y ∷ ys) h k (inr light) =
    (inr (h ∙ sym k.0, inl light.0), IsBefore-same p x ys h k.1 (inr light.1))

pub drain-Drained :
    (draw : Rng) (p fuel n : ℕ) (band : List Endpoint)
    → IsRng draw
    → length band ≤ fuel
    → Drained p band (drain draw fuel n band)
unfolding drain
drain-Drained draw p fuel n [] law h = record {
  out = [];
  calls = n;
  drained = refl;
  perm = Perm.nil;
  all = λ P k. tt;
  ordered = λ k. tt;
}
drain-Drained draw p zero n (e ∷ es) law h = absurd (omega arith)
drain-Drained draw p (suc fuel) n (e ∷ es) law h =
    let (inside, weighed) = choose-lem draw n e es law in
    let t = take_out-Taken (choose draw n (e ∷ es)) (e ∷ es) inside in
    let d = drain-Drained draw p fuel (suc n) t.rest law (omega (arith, t.shorter)) in
    let heavy : (0 < t.element.weight) ⊎ All (λ y. y.weight ≡ 0) t.rest = elim weighed [
      | inl w ↦ inl (omega (arith, t.weight))
      | inr none' ↦ inr ((t.all (λ y. y.weight ≡ 0) (no_weight (e ∷ es) none')).1)
    ] in
    record {
      out = t.element ∷ d.out;
      calls = d.calls;
      drained = rw (t.taken, drain, d.drained) refl;
      perm = Perm.trans (Perm.cons t.element d.perm) t.perm;
      all = λ P k. let (a, b) = t.all P k in (a, d.all P b);
      ordered = λ k.
          let (a, b) = t.all (λ y. y.priority ≡ p) k in
          (
            IsBefore-same p t.element d.out a (d.all (λ y. y.priority ≡ p) b)
                (elim heavy [ inl w ↦ inl w | inr light ↦ inr (d.all (λ y. y.weight ≡ 0) light) ]),
            d.ordered b,
          );
    }
