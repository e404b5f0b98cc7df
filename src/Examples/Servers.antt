-- ===== src/Examples/Servers.antt =====
-- A cache, an upstream that answers and one that fails, and a server that asks them.
use sqns.Base.{◌≡◌, false, none, some, [], ◌∷◌}
use sqns.Bytes.{ascii}
use sqns.Errors.{ok}
use sqns.Cache
use sqns.Store.{new_store}
use sqns.Protocol.{lookup, answer}
use sqns.Upstream.{Link, replied, timed_out, Upstream, ask, lookup_upstream}
use sqns.Upstream.Answers.{IsSound, IsVerifiedCache, lookup_upstream-IsSound}
use sqns.Upstream.Failures.{ask_missing}
use sqns.Server.{Server, handle}
use sqns.Server.Lookup.{IsLookupResponse, handle_lookup_sound}
use sqns.Examples.Data.{toy, service_key, first, one}
use sqns.Examples.Stores.{one-IsConsistent}

abbrev warm : Cache.Cache
warm = Cache.put Cache.new first

-- An upstream that has the record, and ones that have not or cannot be reached.
abbrev pub knows : Link
knows req = replied (answer (some first) none)

abbrev pub knows_not : Link
knows_not req = replied (answer none none)

abbrev pub silent : Link
silent req = timed_out

abbrev pub upstream : Upstream
upstream = record { links = silent ∷ knows ∷ []; cache = some [] }

lookup_upstream-IsSound_example :
    IsSound toy 1100 service_key (lookup_upstream toy upstream new_store 1100 service_key 3)
lookup_upstream-IsSound_example =
    lookup_upstream-IsSound toy upstream new_store 1100 service_key 3 tt

-- One link says that the key is missing, the other could not be asked.
ask_missing_example :
    ask toy new_store 1100 (some []) service_key 2 0 (replied (answer none none) ∷ timed_out ∷ [])
    ≡ (ok none, some [])
ask_missing_example =
    ask_missing toy new_store 1100 (some []) service_key
      (replied (answer none none) ∷ timed_out ∷ []) tt

abbrev pub leaf : Server
leaf = record {
  store = new_store;
  upstream = upstream;
  peers = 0;
  allow_sync = false;
  started = 900;
  version = ascii "0";
}

abbrev pub home_server : Server
home_server = record leaf { store = one }

handle_lookup_sound_example :
    IsLookupResponse toy 1100 service_key (handle toy home_server 1100 (lookup service_key 4)).0
    × ((handle toy home_server 1100 (lookup service_key 4)).1.store ≡ one)
    × IsVerifiedCache toy (handle toy home_server 1100 (lookup service_key 4)).1.upstream.cache
handle_lookup_sound_example =
    handle_lookup_sound toy home_server 1100 service_key 4 one-IsConsistent tt
