-- ===== src/Select/Bands.antt =====
-- The bands: sorted by priority, each of one priority, with every endpoint in one of them.
use mathlib.Core.List.Perm
use mathlib.Core.List.{Perm}
use sqns.Base.{
  ℕ, ◌≤◌, ◌<◌, ◌≡◌, refl, sym, ap, ◌∙◌, List, [], ◌∷◌, ◌++◌, append_assoc, append-nil, All,
  All-append, ltb, ◌==◌, ==_iff, arith, Bool-cases, inl, inr,
}
use sqns.Record.{Endpoint}
use sqns.Select.{Band, insert_endpoint, sort_endpoints, push_band, push_bands}

-- No priority is below an earlier one.
abbrev pub IsAscending : List Endpoint → Type 0
IsAscending [] = Unit
IsAscending (x ∷ xs) = All (λ y. x.priority ≤ y.priority) xs × IsAscending xs

insert_endpoint-All :
    (P : Endpoint → Type 0) (e : Endpoint) (xs : List Endpoint)
    → P e
    → All P xs
    → All P (insert_endpoint e xs)
unfolding insert_endpoint
insert_endpoint-All P e [] h k = (h, tt)
insert_endpoint-All P e (x ∷ xs) h k = elim (Bool-cases (ltb x.priority e.priority)) [
  | inl before ↦ rw (before, insert_endpoint) (k.0, insert_endpoint-All P e xs h k.1)
  | inr after ↦ rw (after, insert_endpoint) (h, k)
]

insert_endpoint-perm : (e : Endpoint) (xs : List Endpoint) → Perm (insert_endpoint e xs) (e ∷ xs)
unfolding insert_endpoint
insert_endpoint-perm e [] = Perm.refl (e ∷ [])
insert_endpoint-perm e (x ∷ xs) = elim (Bool-cases (ltb x.priority e.priority)) [
  | inl before ↦
      rw (before, insert_endpoint)
        (Perm.trans (Perm.cons x (insert_endpoint-perm e xs)) (Perm.swap e x xs))
  | inr after ↦ rw (after, insert_endpoint) (Perm.refl (e ∷ (x ∷ xs)))
]

above :
    (m n : ℕ) (xs : List Endpoint)
    → m ≤ n
    → All (λ y. n ≤ y.priority) xs
    → All (λ y. m ≤ y.priority) xs
above m n [] h k = tt
above m n (x ∷ xs) h k = (omega arith, above m n xs h k.1)

insert_endpoint-IsAscending :
    (e : Endpoint) (xs : List Endpoint) → IsAscending xs → IsAscending (insert_endpoint e xs)
unfolding insert_endpoint
insert_endpoint-IsAscending e [] h = (tt, tt)
insert_endpoint-IsAscending e (x ∷ xs) h = elim (Bool-cases (ltb x.priority e.priority)) [
  | inl before ↦
      let le : x.priority ≤ e.priority = ground arith in
      rw (before, insert_endpoint)
        (
          insert_endpoint-All (λ y. x.priority ≤ y.priority) e xs le h.0,
          insert_endpoint-IsAscending e xs h.1,
        )
  | inr after ↦
      let le : e.priority ≤ x.priority = ground arith in
      rw (after, insert_endpoint) ((le, above e.priority x.priority xs le h.0), h)
]

pub sort_endpoints-IsAscending : (es : List Endpoint) → IsAscending (sort_endpoints es)
unfolding sort_endpoints
sort_endpoints-IsAscending [] = tt
sort_endpoints-IsAscending (e ∷ es) =
    insert_endpoint-IsAscending e (sort_endpoints es) (sort_endpoints-IsAscending es)

pub sort_endpoints-perm : (es : List Endpoint) → Perm (sort_endpoints es) es
unfolding sort_endpoints
sort_endpoints-perm [] = Perm.nil
sort_endpoints-perm (e ∷ es) =
    Perm.trans (insert_endpoint-perm e (sort_endpoints es)) (Perm.cons e (sort_endpoints-perm es))

abbrev pub flatten : List Band → List Endpoint
flatten [] = []
flatten ((p, band) ∷ bands) = band ++ flatten bands

-- Each band has endpoints of its priority alone, and the priorities ascend strictly.
abbrev pub IsBands : List Band → Type 0
IsBands [] = Unit
IsBands ((p, band) ∷ bands) =
    All (λ e. e.priority ≡ p) band × All (λ c. p < c.0) bands × IsBands bands

push_band-All :
    (P : ℕ → Type 0) (bands : List Band) (e : Endpoint)
    → All (λ c. P c.0) bands
    → P e.priority
    → All (λ c. P c.0) (push_band bands e)
unfolding push_band
push_band-All P [] e h k = (k, tt)
push_band-All P ((p, band) ∷ []) e h k = elim (Bool-cases (p == e.priority)) [
  | inl same ↦ rw (same, push_band) (h.0, tt)
  | inr other ↦ rw (other, push_band) (h.0, (k, tt))
]
push_band-All P (x ∷ (y ∷ bands)) e h k = (h.0, push_band-All P (y ∷ bands) e h.1 k)

push_band-IsBands :
    (bands : List Band) (e : Endpoint)
    → IsBands bands
    → All (λ c. c.0 ≤ e.priority) bands
    → IsBands (push_band bands e)
unfolding push_band
push_band-IsBands [] e h k = ((refl, tt), tt, tt)
push_band-IsBands ((p, band) ∷ []) e h k = elim (Bool-cases (p == e.priority)) [
  | inl same ↦
      let eq : e.priority ≡ p = sym ((==_iff p e.priority).0 same) in
      rw (same, push_band) (All-append (λ x. x.priority ≡ p) band (e ∷ []) h.0 (eq, tt), tt, tt)
  | inr other ↦
      let lt : p < e.priority = ground arith in
      rw (other, push_band) (h.0, (lt, tt), ((refl, tt), tt, tt))
]
push_band-IsBands ((p, band) ∷ ((q, band') ∷ bands)) e h k =
    let lt : p < e.priority = omega (arith, h.1.0, k.1.0) in
    (
      h.0,
      push_band-All (λ n. p < n) ((q, band') ∷ bands) e h.1 lt,
      push_band-IsBands ((q, band') ∷ bands) e h.2 k.1,
    )

push_band-flatten :
    (bands : List Band) (e : Endpoint) → flatten (push_band bands e) ≡ flatten bands ++ (e ∷ [])
unfolding push_band
push_band-flatten [] e = refl
push_band-flatten ((p, band) ∷ []) e = elim (Bool-cases (p == e.priority)) [
  | inl same ↦
      rw (same, push_band)
        (append-nil (band ++ (e ∷ []))
          ∙ sym (ap (λ (xs : List Endpoint). xs ++ (e ∷ [])) (append-nil band)))
  | inr other ↦
      rw (other, push_band) (sym (ap (λ (xs : List Endpoint). xs ++ (e ∷ [])) (append-nil band)))
]
push_band-flatten ((p, band) ∷ (y ∷ bands)) e =
    ap (λ (xs : List Endpoint). band ++ xs) (push_band-flatten (y ∷ bands) e)
    ∙ sym (append_assoc band (flatten (y ∷ bands)) (e ∷ []))

weaker : (m n : ℕ) (bands : List Band) → m ≤ n → All (λ c. c.0 ≤ m) bands → All (λ c. c.0 ≤ n) bands
weaker m n [] h k = tt
weaker m n (c ∷ bands) h k = (omega arith, weaker m n bands h k.1)

-- The bands so far end no later than the first endpoint to come.
abbrev pub EndBefore : List Band → List Endpoint → Type 0
EndBefore bands [] = Unit
EndBefore bands (e ∷ es) = All (λ c. c.0 ≤ e.priority) bands

EndBefore-of :
    (bands : List Band) (n : ℕ) (es : List Endpoint)
    → All (λ c. c.0 ≤ n) bands
    → All (λ y. n ≤ y.priority) es
    → EndBefore bands es
EndBefore-of bands n [] h k = tt
EndBefore-of bands n (e ∷ es) h k = weaker n e.priority bands k.0 h

pub push_bands-IsBands :
    (bands : List Band) (es : List Endpoint)
    → IsBands bands
    → EndBefore bands es
    → IsAscending es
    → IsBands (push_bands bands es)
unfolding push_bands
push_bands-IsBands bands [] h k a = h
push_bands-IsBands bands (e ∷ es) h k a =
    push_bands-IsBands (push_band bands e) es (push_band-IsBands bands e h k)
      (EndBefore-of (push_band bands e) e.priority es
        (push_band-All (λ n. n ≤ e.priority) bands e k (omega arith)) a.0)
      a.1

pub push_bands-flatten :
    (bands : List Band) (es : List Endpoint) → flatten (push_bands bands es) ≡ flatten bands ++ es
unfolding push_bands
push_bands-flatten bands [] = sym (append-nil (flatten bands))
push_bands-flatten bands (e ∷ es) =
    push_bands-flatten (push_band bands e) es
    ∙ ap (λ (xs : List Endpoint). xs ++ es) (push_band-flatten bands e)
    ∙ append_assoc (flatten bands) (e ∷ []) es

pub EndBefore-nil : (es : List Endpoint) → EndBefore [] es
EndBefore-nil [] = tt
EndBefore-nil (e ∷ es) = tt
