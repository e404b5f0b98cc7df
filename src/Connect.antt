-- ===== src/Connect.antt =====
-- crates/sqns-client/src/conn.rs: a connection to a server, from the addresses of its name to one exchange. QUIC is a
-- parameter: a connection takes the bytes that were written to a stream and gives those that come back, if the stream
-- opens and can be finished; `dial` is the handshake with one address.
pub mod Link
pub mod Race
use sqns.Base.{Bool, Option, none, some, List, [], ◌∷◌, filter, is_empty, if◌then◌else◌}
use sqns.Bytes.{Bytes}
use sqns.Errors.{connection, Result, ok, err, ◌>>=◌}
use sqns.Protocol.{Request, Response, write_request, read_response}
use sqns.Address.{ServerAddr}
use sqns.Text.Socket.{SocketAddr}
use sqns.Dns.{Network, resolve}

-- What was written to a stream, and what comes back before it ends.
abbrev pub Connection : Type 0
Connection = Bytes → Option Bytes

-- The response that a stream begins with.
unfoldable pub received : Bytes → Result Response
received back = elim (read_response back) [ ok (resp, rest) ↦ ok resp | err e ↦ err e ]

-- `exchange`
unfoldable pub exchange : Connection → Request → Result Response
unfolding received
exchange conn req = elim (write_request req) [
  | err e ↦ err e
  | ok out ↦ elim (conn out) [ none ↦ err connection | some back ↦ received back ]
]

-- The addresses that are tried: those with a route from here, or all when none has one.
unfoldable pub candidates : (SocketAddr → Bool) → List SocketAddr → List SocketAddr
candidates is_routable all =
    let routable = filter is_routable all in if is_empty routable then all else routable

-- What a dial finds outside: routes, handshakes, and the order in which the attempts end.
pub record Reach (C : Type 0) : Type 0 where
  pub network : Network
  pub is_routable : SocketAddr → Bool
  pub dial : SocketAddr → Option C
  pub order : List SocketAddr → List SocketAddr

module _ {C : Type 0} where
  -- The attempts, in the order in which they end: the first that succeeds is taken.
  unfoldable pub race : (SocketAddr → Option C) → List SocketAddr → Result C
  race dial [] = err connection
  race dial (a ∷ rest) = elim (dial a) [ some conn ↦ ok conn | none ↦ race dial rest ]

  -- `connect_with`
  unfoldable pub connect_with : Reach C → ServerAddr → Bool → Result C
  unfolding candidates race
  connect_with out addr require_dnssec = resolve out.network addr require_dnssec >>= λ all.
      if is_empty all
      then err connection
      else race out.dial (out.order (candidates out.is_routable all))
