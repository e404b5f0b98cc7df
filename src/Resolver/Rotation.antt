-- ===== src/Resolver/Rotation.antt =====
-- Where following the rotations of a key leads.
use mathlib.Core.List.{reverse-append}
use sqns.Base.{
  ℕ, zero, suc, ◌+◌, ◌<◌, ◌≡◌, refl, sym, ap, ◌∙◌, subst, false, Option, none, some, List, [], ◌∷◌,
  ◌++◌, reverse, length, length-append, All, arith, Bool-cases, Option-cases, inl, inr,
}
use sqns.Bytes.{bytes_eq}
use sqns.Errors.{Result, ok, err, Result-cases, ◌>>◌}
use sqns.Crypto.{Ed25519}
use sqns.Record.{PubKey, SignedRecord, identity, successor, is_terminal, is_superseded, is_revoked}
use sqns.Record.Authority.{verify_answer, revocation_error}
use sqns.Cache.Verified.{IsAnswer, IsVerified}
use sqns.Select.{Rng}
use sqns.Resolver.{Resolver, ServerLink, note_rank}
use sqns.Resolver.Answers.{IsFetched, fetch-IsSafe, verify_answer-IsAnswer, put-IsVerified}
use sqns.Resolver.Walk.{
  ServiceLocation, order_endpoints, contains, use_candidate, obtain, located, walk, resolve_service,
  max_supersede_hops,
}

-- No key occurs twice.
abbrev pub IsDistinct : List PubKey → Type 0
IsDistinct [] = Unit
IsDistinct (k ∷ ks) = All (λ j. bytes_eq k j ≡ false) ks × IsDistinct ks

contains-All :
    (k : PubKey) (ks : List PubKey) → contains k ks ≡ false → All (λ j. bytes_eq k j ≡ false) ks
unfolding contains
contains-All k [] e = tt
contains-All k (j ∷ js) e = ground (arith, contains-All k js)

module _ (ed : Ed25519) where
  -- A walk from one key to another: each key that it leaves has a verified, unexpired record that
  -- forwards to the next.
  pub data Trail (now : ℕ) : PubKey → List PubKey → PubKey → Type 0 where
    stay : (k : PubKey) → Trail now k [] k
    hop :
        {ks : List PubKey} {last : PubKey} (k next : PubKey) (rec : SignedRecord)
        → IsAnswer ed now k rec
        → successor rec.rec ≡ some next
        → Trail now next ks last
        → Trail now k (k ∷ ks) last

  Trail-snoc :
      {now : ℕ} {k : PubKey} {ks : List PubKey} {current : PubKey} (next : PubKey)
      (rec : SignedRecord)
      → Trail now k ks current
      → IsAnswer ed now current rec
      → successor rec.rec ≡ some next
      → Trail now k (ks ++ (current ∷ [])) next
  Trail-snoc next rec (stay k) a e = hop k next rec a e (stay next)
  Trail-snoc next rec (hop k j r b f t) a e = hop k j r b f (Trail-snoc next rec t a e)

  -- A location for the key that was asked for: it is reached from that key over distinct keys in fewer
  -- than `max_supersede_hops` rotations, and has a live record that its identity vouches for.
  pub record IsLocation (draw : Rng) (now : ℕ) (requested : PubKey) (loc : ServiceLocation)
      : Type 0 where
    pub asked : loc.requested ≡ requested
    pub trail : Trail now requested loc.superseded_from loc.key
    pub short : length loc.superseded_from < max_supersede_hops
    pub distinct : IsDistinct (loc.key ∷ reverse loc.superseded_from)
    pub rec : SignedRecord
    pub answer : IsAnswer ed now loc.key rec
    pub live : is_terminal rec.rec ≡ false
    pub issued : identity rec.rec ≡ loc.identity
    pub ordered : loc.endpoints ≡ order_endpoints draw rec.rec

  abbrev pub IsLocated : Rng → ℕ → PubKey → Result ServiceLocation → Type 0
  IsLocated draw now requested (ok loc) = IsLocation draw now requested loc
  IsLocated draw now requested (err e) = Unit

  abbrev IsPrefetched : ℕ → PubKey → Option SignedRecord → Type 0
  IsPrefetched now k none = Unit
  IsPrefetched now k (some rec) = IsAnswer ed now k rec

  use_candidate-IsPrefetched :
      (r : Resolver) (now : ℕ) (next : PubKey) (o : Option SignedRecord)
      → IsVerified ed r.cache
      → IsPrefetched now next (use_candidate ed r now next o).0
        × IsVerified ed (use_candidate ed r now next o).1.cache
  unfolding use_candidate
  use_candidate-IsPrefetched r now next none h = (tt, h)
  use_candidate-IsPrefetched r now next (some c) h = elim (Bool-cases (bytes_eq c.rec.key next)) [
    | inr other ↦ rw (other, use_candidate, IsPrefetched) (tt, h)
    | inl same ↦ elim (Result-cases (verify_answer ed c next now >> note_rank r.marks c)) [
      | inr (e, bad) ↦ rw (same, use_candidate, bad, IsPrefetched) (tt, h)
      | inl (marks, good) ↦
          let verified : verify_answer ed c next now ≡ ok tt = ground arith in
          let a = verify_answer-IsAnswer ed now next c verified in
          rw (same, use_candidate, good, IsPrefetched)
            (a, put-IsVerified ed r.caching r.cache now next c h a)
    ]
  ]

  obtain-IsFetched :
      (servers : List ServerLink) (r : Resolver) (now : ℕ) (k : PubKey) (o : Option SignedRecord)
      → IsPrefetched now k o
      → IsVerified ed r.cache
      → IsFetched ed now k (obtain ed servers r now k o).0
        × IsVerified ed (obtain ed servers r now k o).1.cache
  unfolding obtain
  obtain-IsFetched servers r now k (some rec) a h = (a, h)
  obtain-IsFetched servers r now k none a h =
      let safe = fetch-IsSafe ed servers r now k h in (safe.answer, safe.cached)

  live_of_last :
      (r : SignedRecord)
      → revocation_error r ≡ none
      → successor r.rec ≡ none
      → is_terminal r.rec ≡ false
  unfolding revocation_error successor is_terminal is_superseded is_revoked
  live_of_last r e f = ground arith

  -- What holds at the head of the loop.
  record Walking (now : ℕ) (requested : PubKey) (rounds : ℕ) (r : Resolver) (current : PubKey)
      (visited chain : List PubKey) (prefetched : Option SignedRecord) : Type 0 where
    cached : IsVerified ed r.cache
    trail : Trail now requested chain current
    seen : visited ≡ current ∷ reverse chain
    distinct : IsDistinct visited
    count : rounds + length chain ≡ max_supersede_hops
    ready : IsPrefetched now current prefetched

  module _ (servers : List ServerLink) (draw : Rng) (now : ℕ) (requested : PubKey) where
    location :
        (rounds : ℕ) (r : Resolver) (current : PubKey) (visited chain : List PubKey)
        (prefetched : Option SignedRecord) (rec : SignedRecord)
        → Walking now requested (suc rounds) r current visited chain prefetched
        → IsAnswer ed now current rec
        → is_terminal rec.rec ≡ false
        → IsLocation draw now requested (located ed servers draw now requested rec chain)
    location rounds r current visited chain prefetched rec w a alive = record {
      asked = refl;
      trail = subst (Trail now requested chain) (sym a.own_key) w.trail;
      short = omega (arith, w.count);
      distinct =
          subst (λ (k : PubKey). IsDistinct (k ∷ reverse chain)) (sym a.own_key)
            (subst IsDistinct w.seen w.distinct);
      rec = rec;
      answer = subst (λ (k : PubKey). IsAnswer ed now k rec) (sym a.own_key) a;
      live = alive;
      issued = refl;
      ordered = refl;
    }

    -- One rotation further.
    onward :
        (rounds : ℕ) (r : Resolver) (current next : PubKey) (visited chain : List PubKey)
        (prefetched next_record : Option SignedRecord) (r' : Resolver) (rec : SignedRecord)
        → Walking now requested (suc rounds) r current visited chain prefetched
        → IsAnswer ed now current rec
        → successor rec.rec ≡ some next
        → contains next visited ≡ false
        → IsVerified ed r'.cache
        → Walking now requested rounds
            (use_candidate ed r' now next next_record).1
            next
            (next ∷ visited)
            (chain ++ (current ∷ []))
            (use_candidate ed r' now next next_record).0
    onward rounds r current next visited chain prefetched next_record r' rec w a named fresh h =
        let (ready, cached) = use_candidate-IsPrefetched r' now next next_record h in
        record {
          cached = cached;
          trail = Trail-snoc next rec w.trail a named;
          seen = ap (◌∷◌ next) (w.seen ∙ sym (reverse-append chain (current ∷ [])));
          distinct = (contains-All next visited fresh, w.distinct);
          count = omega (arith, w.count, length-append chain (current ∷ []));
          ready = ready;
        }

    walk-IsLocated :
        (rounds : ℕ) (r : Resolver) (current : PubKey) (visited chain : List PubKey)
        (prefetched : Option SignedRecord)
        → Walking now requested rounds r current visited chain prefetched
        → IsLocated draw now requested
            (walk ed servers draw now requested rounds r current visited chain prefetched).0
    unfolding walk
    walk-IsLocated zero r current visited chain prefetched w = tt
    walk-IsLocated (suc rounds) r current visited chain prefetched w =
        let (answer, cached) = obtain-IsFetched servers r now current prefetched w.ready w.cached in
        elim (Result-cases (obtain ed servers r now current prefetched).0) [
          | inr (e, bad) ↦ rw (bad, walk, IsLocated) tt
          | inl ((none, s), missing) ↦ rw (missing, walk, IsLocated) tt
          | inl ((some rec, s), got) ↦
              let a : IsAnswer ed now current rec = subst (IsFetched ed now current) got answer in
              elim (Option-cases (revocation_error rec)) [
                | inr (e, dead) ↦ rw (got, walk, dead, IsLocated) tt
                | inl alive ↦ elim (Option-cases (successor rec.rec)) [
                  | inl last ↦
                      rw (got, walk, alive, last, IsLocated)
                        (location rounds r current visited chain prefetched rec w a
                          (live_of_last rec alive last))
                  | inr (next, named) ↦ elim (Bool-cases (contains next visited)) [
                    | inl again ↦ rw (got, walk, alive, named, again, IsLocated) tt
                    | inr fresh ↦
                        let r' = (obtain ed servers r now current prefetched).1 in
                        rw (got, walk, alive, named, fresh)
                          (walk-IsLocated rounds (use_candidate ed r' now next s).1 next
                            (next ∷ visited) (chain ++ (current ∷ []))
                            (use_candidate ed r' now next s).0
                            (onward rounds r current next visited chain prefetched s r' rec w a
                              named fresh cached))
                  ]
                ]
              ]
        ]

  -- From a cache whose records are verified, whatever the servers answer and the generator draws: a
  -- location that is given for a key is reached from it by rotations that verified, unexpired records
  -- state, fewer than `max_supersede_hops` of them and never twice over one key, and it has a live,
  -- verified and unexpired record, whose identity and endpoints are given.
  pub resolve_service-IsLocated :
      (servers : List ServerLink) (draw : Rng) (r : Resolver) (now : ℕ) (key : PubKey)
      → IsVerified ed r.cache
      → IsLocated draw now key (resolve_service ed servers draw r now key).0
  unfolding resolve_service
  resolve_service-IsLocated servers draw r now key h =
      walk-IsLocated servers draw now key max_supersede_hops r key (key ∷ []) [] none (record {
        cached = h;
        trail = stay key;
        seen = refl;
        distinct = (tt, tt);
        count = refl;
        ready = tt;
      })
