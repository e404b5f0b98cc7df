-- ===== src/Select/Ordered.antt =====
-- The order of all endpoints of a record.
use mathlib.Core.List.Perm
use mathlib.Core.List.{Perm}
use sqns.Base.{
  ℕ, ◌<◌, ◌≡◌, refl, subst, inl, Option, some, List, [], ◌∷◌, ◌++◌, length, All, All-append, arith,
}
use sqns.Record.{Endpoint, Record, endpoints}
use sqns.Select.{Rng, IsRng, Band, sort_endpoints, push_bands, drain_all, order_with}
use sqns.Select.Draw.{IsBefore, IsOrdered, drain-Drained}
use sqns.Select.Bands.{
  flatten, IsBands, EndBefore-nil, push_bands-IsBands, push_bands-flatten,
  sort_endpoints-IsAscending, sort_endpoints-perm,
}

-- What draining all bands gives.
record DrainedAll (bands : List Band) (got : Option (List Endpoint)) : Type 1 where
  outs : List Endpoint
  drained : got ≡ some outs
  perm : Perm outs (flatten bands)
  all : (P : Endpoint → Type 0) → All P (flatten bands) → All P outs
  ordered : IsBands bands → IsOrdered outs

All-append_left :
    (P : Endpoint → Type 0) (xs ys : List Endpoint) → All P (xs ++ ys) → All P xs × All P ys
All-append_left P [] ys h = (tt, h)
All-append_left P (x ∷ xs) ys h = let (a, b) = All-append_left P xs ys h.1 in ((h.0, a), b)

higher :
    (p : ℕ) (xs ys : List Endpoint)
    → All (λ x. x.priority ≡ p) xs
    → All (λ y. p < y.priority) ys
    → All (λ x. All (IsBefore x) ys) xs
higher p [] ys h k = tt
higher p (x ∷ xs) ys h k = (each ys k, higher p xs ys h.1 k)
  where
    each : (zs : List Endpoint) → All (λ y. p < y.priority) zs → All (IsBefore x) zs
    each [] m = tt
    each (z ∷ zs) m =
        let lt : x.priority < z.priority = omega (arith, h.0, m.0) in (inl lt, each zs m.1)

append-IsOrdered :
    (xs ys : List Endpoint)
    → IsOrdered xs
    → IsOrdered ys
    → All (λ x. All (IsBefore x) ys) xs
    → IsOrdered (xs ++ ys)
append-IsOrdered [] ys h k m = k
append-IsOrdered (x ∷ xs) ys h k m =
    (All-append (IsBefore x) xs ys h.0 m.0, append-IsOrdered xs ys h.1 k m.1)

in_band :
    (p q : ℕ) (es : List Endpoint)
    → p < q
    → All (λ e. e.priority ≡ q) es
    → All (λ e. p < e.priority) es
in_band p q [] lt h = tt
in_band p q (e ∷ es) lt h = (omega (arith, h.0), in_band p q es lt h.1)

above_bands :
    (p : ℕ) (bands : List Band)
    → All (λ c. p < c.0) bands
    → IsBands bands
    → All (λ e. p < e.priority) (flatten bands)
above_bands p [] h k = tt
above_bands p ((q, band) ∷ bands) h k =
    All-append (λ e. p < e.priority) band (flatten bands) (in_band p q band h.0 k.0)
      (above_bands p bands h.1 k.2)

drain_all-DrainedAll :
    (draw : Rng) (n : ℕ) (bands : List Band)
    → IsRng draw
    → DrainedAll bands (drain_all draw n bands)
unfolding drain_all
drain_all-DrainedAll draw n [] law = record {
  outs = [];
  drained = refl;
  perm = Perm.nil;
  all = λ P k. tt;
  ordered = λ k. tt;
}
drain_all-DrainedAll draw n ((p, band) ∷ bands) law =
    let d = drain-Drained draw p (length band) n band law (omega arith) in
    let r = drain_all-DrainedAll draw d.calls bands law in
    record {
      outs = d.out ++ r.outs;
      drained = rw (d.drained, drain_all, r.drained) refl;
      perm = Perm.append d.perm r.perm;
      all = λ P k.
          let (a, b) = All-append_left P band (flatten bands) k in
          All-append P d.out r.outs (d.all P a) (r.all P b);
      ordered = λ k. append-IsOrdered d.out r.outs (d.ordered k.0) (r.ordered k.2) (
          higher p d.out r.outs (d.all (λ x. x.priority ≡ p) k.0)
            (r.all (λ y. p < y.priority) (above_bands p bands k.1 k.2)));
    }

-- Whatever numbers are drawn from the ranges asked for: the endpoints of the record are all returned,
-- each as often as the record has it, by ascending priority, and within a priority none that has no
-- weight comes before one that has; nothing panics.
pub order_with-IsOrdered :
    (draw : Rng) (r : Record)
    → IsRng draw
    → (out : List Endpoint) × (order_with draw r ≡ some out)
      × Perm out (endpoints r)
      × IsOrdered out
unfolding order_with
order_with-IsOrdered draw r law =
    let sorted = sort_endpoints (endpoints r) in
    let bands = push_bands [] sorted in
    let d = drain_all-DrainedAll draw 0 bands law in
    (
      d.outs,
      d.drained,
      Perm.trans (subst (Perm d.outs) (push_bands-flatten [] sorted) d.perm)
          (sort_endpoints-perm (endpoints r)),
      d.ordered (
          push_bands-IsBands [] sorted tt (EndBefore-nil sorted)
            (sort_endpoints-IsAscending (endpoints r))),
    )
