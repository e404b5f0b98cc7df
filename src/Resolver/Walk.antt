-- ===== src/Resolver/Walk.antt =====
-- crates/sqns-client/src/resolver.rs: `resolve_service`, which follows the rotations of a key. The generator
-- of `order_endpoints` is a parameter, and the clock is read once.
use sqns.Base.{
  ℕ, zero, suc, true, false, Option, none, some, List, [], ◌∷◌, ◌++◌, Bool, if◌then◌else◌,
}
use sqns.Bytes.{bytes_eq}
use sqns.Errors.{Error, Result, ok, err, ◌>>◌}
use sqns.Crypto.{Ed25519}
use sqns.Record.{PubKey, SignedRecord, Record, Endpoint, identity, successor}
use sqns.Record.Authority.{verify_answer, revocation_error}
use sqns.Cache
use sqns.Select.{Rng, order_with}
use sqns.Resolver.{Resolver, ServerLink, Fetched, note_rank, fetch}

abbrev pub max_supersede_hops : ℕ
max_supersede_hops = 8

pub record ServiceLocation : Type 0 where
  pub requested : PubKey
  pub key : PubKey
  pub identity : PubKey
  pub endpoints : List Endpoint
  pub superseded_from : List PubKey

-- `order_endpoints`; the order is never missing, as `order_with-IsOrdered` shows.
abbrev pub order_endpoints : Rng → Record → List Endpoint
order_endpoints draw r = elim (order_with draw r) [ some out ↦ out | none ↦ [] ]

-- `visited` holds the key.
unfoldable pub contains : PubKey → List PubKey → Bool
contains k [] = false
contains k (j ∷ js) = let rest = contains k js in if bytes_eq k j then true else rest

module _ (ed : Ed25519) where
  -- The successor's record that came along, if it is really the record for the key named.
  unfoldable pub use_candidate :
      Resolver → ℕ → PubKey → Option SignedRecord → Option SignedRecord × Resolver
  use_candidate r now next none = (none, r)
  use_candidate r now next (some c) = elim (bytes_eq c.rec.key next) [
    | false ↦ (none, r)
    | true ↦ elim (verify_answer ed c next now >> note_rank r.marks c) [
      | err e ↦ (none, r)
      | ok marks ↦ (
        some c,
        record r { marks = marks; cache = if r.caching then Cache.put r.cache c else r.cache },
      )
    ]
  ]

  -- `prefetched.take()`, or a fetch.
  unfoldable pub obtain :
      List ServerLink → Resolver → ℕ → PubKey → Option SignedRecord → Fetched × Resolver
  obtain servers r now current (some rec) = (ok (some rec, none), r)
  obtain servers r now current none = fetch ed servers r now current

  module _ (servers : List ServerLink) (draw : Rng) (now : ℕ) (requested : PubKey) where
    abbrev pub located : SignedRecord → List PubKey → ServiceLocation
    located rec chain = record {
      requested = requested;
      key = rec.rec.key;
      identity = identity rec.rec;
      endpoints = order_endpoints draw rec.rec;
      superseded_from = chain;
    }

    -- The rounds of the loop that are left.
    unfoldable pub walk :
        ℕ
        → Resolver
        → PubKey
        → List PubKey
        → List PubKey
        → Option SignedRecord
        → Result ServiceLocation × Resolver
    unfolding use_candidate obtain contains
    walk zero r current visited chain prefetched = (err Error.supersede_chain, r)
    walk (suc rounds) r current visited chain prefetched =
        let (got, r') = obtain servers r now current prefetched in
        elim got [
          | err e ↦ (err e, r')
          | ok p ↦
              let (found, next_record) = p in
              elim found [
                | none ↦ (err (Error.unpublished current), r')
                | some rec ↦ elim (revocation_error rec) [
                  | some e ↦ (err e, r')
                  | none ↦ elim (successor rec.rec) [
                    | none ↦ (ok (located rec chain), r')
                    | some next ↦ elim (contains next visited) [
                      | true ↦ (err Error.supersede_chain, r')
                      | false ↦
                          let (prefetched', r'') = use_candidate r' now next next_record in
                          walk rounds r'' next (next ∷ visited) (chain ++ (current ∷ []))
                            prefetched'
                    ]
                  ]
                ]
              ]
        ]

  unfoldable pub resolve_service :
      List ServerLink → Rng → Resolver → ℕ → PubKey → Result ServiceLocation × Resolver
  unfolding walk
  resolve_service servers draw r now key =
      walk servers draw now key max_supersede_hops r key (key ∷ []) [] none
