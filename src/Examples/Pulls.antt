-- ===== src/Examples/Pulls.antt =====
-- A new server that pulls from one that holds a record, and one that only fails.
use sqns.Base.{◌≡◌, ◌⊎◌, refl, true, none, some, [], arith}
use sqns.Errors.{Error, ok, err}
use sqns.Map.{values}
use sqns.Store.{new_store, put}
use sqns.Store.Merge.{after}
use sqns.Server.{Server, handle, clamp_limit}
use sqns.Replication.{Peer, Pulled, pull, pull_loop, apply_batch, batch_high, high_of}
use sqns.Replication.Pull.{pull_ends}
use sqns.Replication.ServerPeer.{peer_of}
use sqns.Replication.CatchUp.{IsDeferred, pull_catches_up}
use sqns.Examples.Wire.{first-IsSigned}
use sqns.Protocol.{
  write_request, write_response, write_frame, read_request, read_response, read_frame, read_exact,
  encode_request, encode_response, request_type, response_type, decode_request_from,
  decode_response_from, decode_request, decode_response,
}
use sqns.Connect.{exchange, received}
use sqns.Server.Stream.{serve_stream, respond, sent}
use sqns.Examples.Data.{program, toy, service_key, first, one}

abbrev seeding : Server
seeding = record {
  store = one;
  upstream = record { links = []; cache = none };
  peers = 0;
  allow_sync = true;
  started = 900;
  version = [];
}

abbrev seeding_peer : Peer
seeding_peer = record { link = peer_of toy seeding 1100; watermark = 0 }

abbrev failing : Peer
failing = record { link = λ n req. err Error.connection; watermark = 7 }

-- The empty store after the pull.
abbrev pulled : Pulled
pulled = record { outcome = ok 1; store = one; watermark = 1000 }

-- What an exchange with a server computes with.
unfoldable wire : Unit {0}
unfolding write_request write_response write_frame read_request read_response read_frame read_exact
    encode_request encode_response request_type response_type decode_request_from
    decode_response_from decode_request decode_response exchange received serve_stream respond sent
wire = tt

pull_run : pull toy seeding_peer new_store 1100 ≡ some pulled
unfolding program pull pull_loop apply_batch batch_high high_of handle clamp_limit values wire
pull_run = refl

pull_ends_example : (p : Pulled) × (pull toy failing new_store 1100 ≡ some p)
pull_ends_example = pull_ends toy failing new_store 1100 (λ n since. tt) (omega arith)

pull_catches_up_example :
    (after pulled.store (put toy pulled.store 1100 first) ≡ pulled.store)
    ⊎ IsDeferred toy seeding 1100 1100 service_key first pulled
unfolding program pull pull_loop apply_batch batch_high high_of handle clamp_limit values wire
pull_catches_up_example =
    pull_catches_up toy seeding 1100 1100 service_key first new_store 0 pulled refl
      (first-IsSigned, tt) refl refl (omega arith) refl
