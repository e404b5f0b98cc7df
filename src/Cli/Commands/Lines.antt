-- ===== src/Cli/Commands/Lines.antt =====
-- The lines that `resolve` prints are endpoints to `publish`.
use sqns.Base.{◌<◌, ◌^◌, ◌≡◌, refl, List, [], ◌∷◌, map, All}
use sqns.Errors.{ok}
use sqns.Record.{Endpoint}
use sqns.Endpoint.{new, authority}
use sqns.Endpoint.Written.{IsWritten, parse_endpoint-authority}
use sqns.Cli.Commands.{parse_endpoints}

-- An endpoint with a host that is no IPv6 address and reads as itself, and a port of 16 bits.
abbrev pub IsLine : Endpoint → Type 0
IsLine ep = IsWritten ep.host × (ep.port < 2 ^ 16)

-- The same host and port, with the priority and the weight of a new endpoint.
abbrev pub unranked : Endpoint → Endpoint
unranked ep = new ep.host ep.port

-- What `resolve` prints can be given to `publish`: the lines with the hosts and ports of any list of endpoints are
-- accepted, and give the same hosts and ports in the same order, with the priority 0 and the weight 1 instead of those
-- that the lines leave out. The hosts are IPv4 addresses, or names that a user could have written and that
-- have no comma and no opening bracket.
pub parse_endpoints-authority :
    (eps : List Endpoint)
    → All IsLine eps
    → parse_endpoints (map authority eps) ≡ ok (map unranked eps)
unfolding parse_endpoints
parse_endpoints-authority [] h = refl
parse_endpoints-authority (ep ∷ eps) h =
    rw (parse_endpoints, parse_endpoint-authority ep h.0.0 h.0.1, parse_endpoints-authority eps h.1)
      refl
