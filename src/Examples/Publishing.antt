-- ===== src/Examples/Publishing.antt =====
-- A publisher whose clock was set back, a record that a server refuses, and a delegation on disk.
use sqns.Base.{◌≡◌, ◌↔◌, refl, true, none, some, [], ◌∷◌, arith, All}
use sqns.Bytes.{IsByte}
use sqns.Errors.{ok}
use sqns.Record.{SignedRecord, endpoints}
use sqns.Record.Authority.{verify_delegation, new_live}
use sqns.Record.Grant.{DelegationFile, encode_file, decode_file, decode_file_from}
use sqns.Record.Grant.RoundTrip.{IsFile, decode_file_iff}
use sqns.Protocol.{publish, lookup, answer, error, malformed, ErrorCode}
use sqns.Store.{put, stored, replace}
use sqns.Resolver.{
  Resolver, ServerLink, lookup_record, fetch, after_hit, take_response, take_answer, try_servers,
  note_rank, check_seen, lower,
}
use sqns.Resolver.Publish.{publish_record}
use sqns.Publisher.{Publisher, key, refresh_interval, sign_next, adopt_network_serial, raise_serial}
use sqns.Resolver.{seen_of}
use sqns.Resolver.Publish.{offer, count_reply}
use sqns.Resolver.Deliver.{link_of, publish_record-found}
use sqns.Server.{Server, handle, handle_publish, forwarded}
use sqns.Store.{new_store, purge_expired}
use sqns.Store.Invariant.{new_store-IsConsistent}
use sqns.Publisher.Keepalive.{Refreshed, Refreshed-answer}
use sqns.Publisher.Serial.{adopted_serial_accepted}
use sqns.Cache
use sqns.Examples.Data.{
  program, toy, toy-IsEd25519, service_seed, service_key, grant, home, first, one, signed_by,
}

abbrev plain_resolver : Resolver
plain_resolver = record { caching = true; recurse = 4; cache = []; marks = [] }

-- It holds `first`, and so refuses what is not newer.
abbrev holding_first : ServerLink
holding_first (lookup key recurse) = ok (answer (some first) none)
holding_first (publish r) = ok (error ErrorCode.stale [])
holding_first other = ok (error malformed [])

abbrev behind : Publisher
behind = record {
  signing_key = service_seed;
  delegation = grant;
  endpoints = home ∷ [];
  ttl = 300;
  serial = 0;
}

-- What it signs once it knows of the serial 1.
abbrev renewed : SignedRecord
renewed = signed_by service_seed (new_live 1100 service_key grant 2 300 (home ∷ []))

adopted_serial_accepted_example : put toy one 1100 renewed ≡ ok (stored, replace one renewed)
unfolding program lookup_record fetch after_hit take_response take_answer try_servers note_rank
    check_seen lower Cache.get sign_next adopt_network_serial raise_serial
adopted_serial_accepted_example =
    adopted_serial_accepted toy (holding_first ∷ []) plain_resolver behind one 1100 (home ∷ [])
      renewed first toy-IsEd25519 refl refl (omega arith) refl refl refl refl (omega arith) refl

abbrev granted : DelegationFile
granted = record { service_key = service_key; delegation = grant }

granted_bytes : All IsByte (encode_file granted)
unfolding program encode_file
granted_bytes = ground arith

decode_file_iff_example : (decode_file toy (encode_file granted) ≡ ok granted) ↔ (
    (encode_file granted ≡ encode_file granted)
    × IsFile granted
    × (verify_delegation toy grant service_key ≡ ok tt))
decode_file_iff_example = decode_file_iff toy (encode_file granted) granted granted_bytes

decode_file_run : decode_file toy (encode_file granted) ≡ ok granted
unfolding program encode_file decode_file decode_file_from
decode_file_run = refl

abbrev empty_server : Server
empty_server = record {
  store = new_store;
  upstream = record { links = []; cache = none };
  peers = 0;
  allow_sync = true;
  started = 900;
  version = [];
}

publish_record-found_example :
    (lookup_record toy
      (link_of toy (handle toy empty_server 1100 (publish first)).1 1100 ∷ [])
      (publish_record toy (link_of toy empty_server 1100 ∷ []) plain_resolver 1100 first).1
      1100
      service_key).0
    ≡ ok (some first)
unfolding program publish_record offer count_reply handle handle_publish note_rank check_seen
publish_record-found_example =
    publish_record-found toy empty_server plain_resolver 1100 1 first
      ((service_key, seen_of first) ∷ []) refl refl

-- What the publisher signs first.
abbrev fresh : SignedRecord
fresh = signed_by service_seed (new_live 1000 service_key grant 7 300 (home ∷ []))

-- A server that holds it, after a sweep between two refreshes that were lost.
abbrev swept_server : Server
swept_server = record empty_server { store = (purge_expired (replace new_store fresh) 1150).0 }

swept_server-Refreshed : Refreshed toy behind new_store 1000 swept_server.store
unfolding program sign_next refresh_interval
swept_server-Refreshed =
    Refreshed.swept (Refreshed.begun 7 fresh refl refl) 1150 (omega arith) (omega arith)

Refreshed-answer_example :
    (x : SignedRecord) × ((handle toy swept_server 1290 (lookup (key toy behind) 2)).0
      ≡ answer (some x) (forwarded swept_server.store 1290 x))
    × (x.rec.issued_at ≡ 1000)
    × (endpoints x.rec ≡ home ∷ [])
unfolding program refresh_interval
Refreshed-answer_example =
    Refreshed-answer toy behind new_store swept_server 1000 1290 2 toy-IsEd25519 refl
      (new_store-IsConsistent toy) swept_server-Refreshed (omega arith) (omega arith)
