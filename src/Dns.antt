-- ===== src/Dns.antt =====
-- crates/sqns-client/src/dns.rs: the socket addresses of a server's name. The system's resolver and the validating one of
-- hickory_resolver are parameters; what DNSSEC proves of an answer is the mark that hickory gives it.
use sqns.Base.{
  ℕ, suc, Bool, true, false, not, Option, none, some, List, [], ◌∷◌, is_empty, if◌then◌else◌,
}
use sqns.Errors.{connection, Error, Result, ok, err}
use sqns.Address.{ServerAddr, requires_dnssec, authority}
use sqns.Text.{Text}
use sqns.Text.Socket.{IpAddr, SocketAddr, parse_ip}

-- What is asked of an answer: whether it is an A or AAAA record, whether its proof is `Secure`, and its address.
pub record DnsAnswer : Type 0 where
  pub is_address : Bool
  pub secure : Bool
  pub ip : Option IpAddr

-- The resolvers: the system's, and the validating one, which may not start.
pub record Network : Type 0 where
  pub lookup_host : Text → Option (List SocketAddr)
  pub resolver_starts : Bool
  pub lookup_ip : Text → Option (List DnsAnswer)

-- `ServerAddr::is_ip_literal`
unfoldable pub is_ip_literal : ServerAddr → Bool
is_ip_literal a = elim (parse_ip a.host) [ some ip ↦ true | none ↦ false ]

unfoldable pub system_resolve : Network → ServerAddr → Result (List SocketAddr)
system_resolve net a = elim (net.lookup_host (authority a)) [
  | none ↦ err connection
  | some addrs ↦ if is_empty addrs then err connection else ok addrs
]

-- The proven addresses, and how many answers had no proof.
unfoldable pub proven : ℕ → List DnsAnswer → List SocketAddr × ℕ
proven port [] = ([], 0)
proven port (a ∷ rest) =
    let (addrs, unproven) = proven port rest in
    if not a.is_address
    then (addrs, unproven)
    else if not a.secure
    then (addrs, suc unproven)
    else elim (a.ip) [
      | some ip ↦ (record { ip = ip; port = port } ∷ addrs, unproven)
      | none ↦ (addrs, unproven)
    ]

-- `validating::resolve`
unfoldable pub validated_resolve : Network → Text → ℕ → Result (List SocketAddr)
unfolding proven
validated_resolve net host port =
    if not net.resolver_starts then err connection else elim (net.lookup_ip host) [
      | none ↦ err Error.address
      | some answers ↦
          let (addrs, unproven) = proven port answers in
          if is_empty addrs then err Error.address else ok addrs
    ]

-- `resolve`
unfoldable pub resolve : Network → ServerAddr → Bool → Result (List SocketAddr)
unfolding is_ip_literal system_resolve validated_resolve
resolve net a require_dnssec =
    if is_ip_literal a
    then system_resolve net a
    else if not (requires_dnssec a.scheme)
    then system_resolve net a
    else if not require_dnssec
    then system_resolve net a
    else validated_resolve net a.host a.port
