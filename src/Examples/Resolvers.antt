-- ===== src/Examples/Resolvers.antt =====
-- A resolver that asks a server that is down and one that answers.
use sqns.Base.{◌≡◌, refl, true, false, none, some, [], ◌∷◌}
use sqns.Errors.{Error, ok, err}
use sqns.Record.{identity}
use sqns.Map.{Map}
use sqns.Protocol.{
  lookup, lookup_identity, publish, status, sync, answer, records, error, malformed,
}
use sqns.Resolver.{
  Resolver, Seen, ServerLink, rank_of, lower, note_rank, check_seen, seen_of, fetch, try_servers,
  check_listed, lookup_identity_records,
}
use sqns.Resolver.Marks.{begin, note_rank_no_downgrade}
use sqns.Resolver.Answers.{IsSafe, fetch-IsSafe}
use sqns.Resolver.Listing.{IsListed, lookup_identity_records-IsListed}
use sqns.Examples.Data.{program, toy, service_key, first, second}

abbrev down : ServerLink
down req = err Error.connection

abbrev serving : ServerLink
serving (lookup key recurse) = ok (answer (some first) none)
serving (lookup_identity who) = ok (records (first ∷ []) true)
serving (publish r) = ok (error malformed [])
serving status = ok (error malformed [])
serving (sync from limit) = ok (error malformed [])

abbrev fresh_resolver : Resolver
fresh_resolver = record { caching = true; recurse = 4; cache = []; marks = [] }

abbrev first_marks : Map Seen
first_marks = (service_key, seen_of first) ∷ []

-- The second answer replaces the mark of the first.
note_rank_no_downgrade_example :
    (identity second.rec ≡ identity first.rec)
    × (lower (rank_of second.rec) (rank_of first.rec) ≡ false)
unfolding program note_rank check_seen lower
note_rank_no_downgrade_example =
    note_rank_no_downgrade [] first_marks first_marks ((service_key, seen_of second) ∷ []) first
      second refl begin refl refl

fetch-IsSafe_example :
    IsSafe toy [] 1100 service_key (fetch toy (down ∷ serving ∷ []) fresh_resolver 1100 service_key)
fetch-IsSafe_example = fetch-IsSafe toy (down ∷ serving ∷ []) fresh_resolver 1100 service_key tt

lookup_identity_records-IsListed_example : IsListed toy 1100 (identity first.rec) (first ∷ [])
unfolding program lookup_identity_records check_listed try_servers
lookup_identity_records-IsListed_example =
    lookup_identity_records-IsListed toy (down ∷ serving ∷ []) 1100 (identity first.rec)
      (first ∷ []) refl
