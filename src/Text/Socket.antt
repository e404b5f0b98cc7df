-- ===== src/Text/Socket.antt =====
-- Socket addresses of std::net as texts: `FromStr` of `IpAddr` and `SocketAddr`, and `Display` of an IPv4 address. The
-- scope of an IPv6 address is read and not kept.
use sqns.Base.{ℕ, ◌-◌, ◌^◌, true, Option, none, some, [], ◌∷◌, ◌++◌}
use sqns.Bytes.{Bytes}
use sqns.Text.{Text, show_u16}
use sqns.Text.Ip.{Reader, read_number, read_given_char, read_ipv4, read_ipv6, whole}

pub data IpAddr : Type 0 where
  v4 v6 : Bytes → IpAddr

pub record SocketAddr : Type 0 where
  pub ip : IpAddr
  pub port : ℕ

unfoldable pub read_ip : Reader IpAddr
unfolding read_ipv4 read_ipv6
read_ip s = elim (read_ipv4 s) [
  | some (octets, rest) ↦ some (v4 octets, rest)
  | none ↦ elim (read_ipv6 s) [ some (octets, rest) ↦ some (v6 octets, rest) | none ↦ none ]
]

-- `IpAddr::from_str`
unfoldable pub parse_ip : Text → Option IpAddr
unfolding read_ip whole
parse_ip s = whole (read_ip s)

-- A character and the number behind it.
unfoldable pub read_behind : ℕ → ℕ → Reader ℕ
unfolding read_given_char read_number
read_behind c limit s = elim (read_given_char c s) [
  | none ↦ none
  | some rest ↦ read_number 10 none true limit rest
]

unfoldable pub read_port : Reader ℕ
unfolding read_behind
read_port = read_behind 58 65535

-- What is left behind the scope of an IPv6 address, if it has one.
unfoldable pub skip_scope : Text → Text
unfolding read_behind
skip_scope s = elim (read_behind 37 (2 ^ 32 - 1) s) [ some (scope, rest) ↦ rest | none ↦ s ]

abbrev with_port : IpAddr → Option (ℕ × Text) → Option (SocketAddr × Text)
with_port ip none = none
with_port ip (some (port, rest)) = some (record { ip = ip; port = port }, rest)

unfoldable pub read_socket_v4 : Reader SocketAddr
unfolding read_ipv4 read_port
read_socket_v4 s = elim (read_ipv4 s) [
  | none ↦ none
  | some (octets, rest) ↦ with_port (v4 octets) (read_port rest)
]

unfoldable pub close_v6 : Bytes → Reader SocketAddr
unfolding read_given_char skip_scope read_port
close_v6 octets s = elim (read_given_char 93 (skip_scope s)) [
  | none ↦ none
  | some rest ↦ with_port (v6 octets) (read_port rest)
]

unfoldable pub read_socket_v6 : Reader SocketAddr
unfolding read_given_char read_ipv6 close_v6
read_socket_v6 s = elim (read_given_char 91 s) [
  | none ↦ none
  | some inner ↦ elim (read_ipv6 inner) [ none ↦ none | some (octets, rest) ↦ close_v6 octets rest ]
]

-- `SocketAddr::from_str`
unfoldable pub parse_socket : Text → Option SocketAddr
unfolding read_socket_v4 read_socket_v6 whole
parse_socket s = elim (read_socket_v4 s) [
  | some (addr, rest) ↦ whole (some (addr, rest))
  | none ↦ whole (read_socket_v6 s)
]

-- `Display` of an `Ipv4Addr`, for four octets.
unfoldable pub show_ipv4 : Bytes → Text
show_ipv4 [] = []
show_ipv4 (b ∷ []) = show_u16 b
show_ipv4 (b ∷ c ∷ bs) = show_u16 b ++ (46 ∷ show_ipv4 (c ∷ bs))
