-- ===== src/Examples/Connections.antt =====
-- A name with one address that is proven and routed, and a server behind a stream.
use sqns.Base.{
  ◌≡◌, ◌++◌, refl, Bool, true, false, none, some, List, [], ◌∷◌, ◌↔◌, In, inl, leb, length,
  if◌then◌else◌, arith,
}
use sqns.Bytes.{Bytes, ascii, be_bytes}
use sqns.Errors.{io, ok, err}
use sqns.Text.Ip.{read_ipv4, read_ipv6}
use sqns.Text.Socket.{SocketAddr, v4, parse_ip, read_ip}
use sqns.Address.{ServerAddr, sqns_scheme}
use sqns.Protocol.{
  lookup, write_request, write_frame, encode_request, request_type, encode_response,
  max_message_len,
}
use sqns.Server.{handle}
use sqns.Server.Stream.{connection_to, exchange_serve, serve_stream}
use sqns.Dns.{DnsAnswer, Network, is_ip_literal, resolve}
use sqns.Connect.{Reach, connect_with, exchange}
use sqns.Connect.Race.{IsProven, connect_with-IsProven, connect_with_reaches}
use sqns.Examples.Data.{program, toy, toy-IsEd25519, service_key, service_seed}
use sqns.Examples.Servers.{home_server}
use sqns.Examples.Wire.{first-IsSigned}

abbrev site : ServerAddr
site = record { scheme = sqns_scheme; host = ascii "ns.example"; port = 443; key = service_key }

abbrev signed_answer : DnsAnswer
signed_answer = record { is_address = true; secure = true; ip = some (v4 (192 ∷ 0 ∷ 2 ∷ 1 ∷ [])) }

-- One answer has no proof.
abbrev internet : Network
internet = record {
  lookup_host = λ host. none;
  resolver_starts = true;
  lookup_ip = λ host. some (record signed_answer { secure = false } ∷ signed_answer ∷ []);
}

abbrev there : SocketAddr
there = record { ip = v4 (192 ∷ 0 ∷ 2 ∷ 1 ∷ []); port = 443 }

abbrev outside : Reach Bool
outside = record {
  network = internet;
  is_routable = λ a. true;
  dial = λ a. some true;
  order = λ attempts. attempts;
}

same_order : (attempts : List SocketAddr) (a : SocketAddr) → In a attempts ↔ In a attempts
same_order attempts a = (λ h. h, λ h. h)

connect_with-IsProven_example :
    (a : SocketAddr) × (answers : List DnsAnswer) × (outside.dial a ≡ some true)
    × (internet.lookup_ip site.host ≡ some answers)
    × IsProven a 443 answers
unfolding connect_with resolve is_ip_literal parse_ip read_ip read_ipv4 read_ipv6
connect_with-IsProven_example =
    connect_with-IsProven outside site true true same_order (refl, refl, refl) refl

connect_with_reaches_example : (first : Bool) × (connect_with outside site true ≡ ok first)
unfolding resolve is_ip_literal parse_ip read_ip read_ipv4 read_ipv6
connect_with_reaches_example =
    connect_with_reaches outside site true (there ∷ []) there true same_order refl (inl refl)
      (inl refl) refl

abbrev question_frame : Bytes
question_frame = 1 ∷ (be_bytes 4 33 ++ (service_key ++ (0 ∷ [])))

exchange_serve_example :
    (exchange (connection_to toy home_server 1100) (lookup service_key 0) ≡ (
      if leb
        (length (encode_response (handle toy home_server 1100 (lookup service_key 0)).0))
        max_message_len
      then ok (handle toy home_server 1100 (lookup service_key 0)).0
      else err io))
    × ((serve_stream toy home_server 1100 question_frame).1
        ≡ (handle toy home_server 1100 (lookup service_key 0)).1)
unfolding program write_request write_frame encode_request request_type handle
exchange_serve_example =
    exchange_serve toy home_server 1100 (lookup service_key 0) question_frame
      (toy-IsEd25519.public_key_size service_seed, omega arith) refl (first-IsSigned, tt)
