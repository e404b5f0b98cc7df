-- ===== src/Examples/Rotations.antt =====
-- The order of two endpoints, and a key that was replaced by another.
use mathlib.Core.List.{Perm}
use sqns.Base.{◌≡◌, refl, true, some, List, [], ◌∷◌}
use sqns.Errors.{ok}
use sqns.Record.{Endpoint, Record, SignedRecord, endpoints, identity}
use sqns.Record.Authority.{issue, new_live}
use sqns.Cache
use sqns.Protocol.{lookup, answer, error, malformed}
use sqns.Select.{
  Rng, IsRng, order_with, sort_endpoints, insert_endpoint, push_bands, push_band, drain_all, drain,
  choose, scan, take_out,
}
use sqns.Select.Draw.{IsOrdered}
use sqns.Select.Ordered.{order_with-IsOrdered}
use sqns.Resolver.{
  Resolver, ServerLink, fetch, after_hit, take_response, take_answer, try_servers, note_rank,
  check_seen, lower,
}
use sqns.Resolver.Walk.{resolve_service, walk, use_candidate, obtain, contains}
use sqns.Examples.Data.{
  program, toy, identity_seed, service_key, next_key, grant, home, named, rotated, first_record,
  signed_by,
}

-- A generator that always gives 0.
abbrev pub lowest : Rng
lowest n total = 0

pub lowest-IsRng : IsRng lowest
lowest-IsRng n total pos = pos

-- Two of one priority, of which the first has no weight, and one of a higher priority.
abbrev crowded : Record
crowded = new_live 1000 service_key grant 1 300 (named ∷ record named { weight = 3 } ∷ home ∷ [])

order_with_run : order_with lowest crowded ≡ some (home ∷ record named { weight = 3 } ∷ named ∷ [])
unfolding program order_with sort_endpoints insert_endpoint push_bands push_band drain_all drain
    choose scan take_out
order_with_run = refl

order_with-IsOrdered_example :
    (out : List Endpoint) × (order_with lowest crowded ≡ some out)
    × Perm out (endpoints crowded)
    × IsOrdered out
order_with-IsOrdered_example = order_with-IsOrdered lowest crowded lowest-IsRng

-- The record of the key that `rotated` forwards to.
abbrev onward : SignedRecord
onward =
    signed_by (5 ∷ [])
      (new_live 1020 next_key (issue toy identity_seed next_key 5000) 1 300 (home ∷ []))

abbrev pub forwarding : ServerLink
forwarding (lookup key recurse) = ok (answer (some rotated) (some onward))
forwarding other = ok (error malformed [])

abbrev pub plain_resolver : Resolver
plain_resolver = record { caching = true; recurse = 4; cache = []; marks = [] }

resolve_service_run :
    (resolve_service toy (forwarding ∷ []) lowest plain_resolver 1100 service_key).0
    ≡ ok (record {
      requested = service_key;
      key = next_key;
      identity = identity first_record;
      endpoints = home ∷ [];
      superseded_from = service_key ∷ [];
    })
unfolding program order_with sort_endpoints insert_endpoint push_bands push_band drain_all drain
    choose scan take_out resolve_service walk use_candidate obtain contains fetch after_hit
    take_response take_answer try_servers note_rank check_seen lower Cache.get
resolve_service_run = refl
