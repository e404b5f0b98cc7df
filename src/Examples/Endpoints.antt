-- ===== src/Examples/Endpoints.antt =====
-- Hosts and endpoints as texts, and back.
use sqns.Base.{◌≡◌, refl, some, [], ◌∷◌, map, arith}
use sqns.Bytes.{Bytes, ascii, bytes_eq}
use sqns.Bytes.Utf8.Encode.{encode_utf8, encode_char, from_utf8, chars_from}
use sqns.Errors.{ok}
use sqns.Record.{v6, name}
use sqns.Text.{
  trim, trim_start, trim_end, is_whitespace, strip_prefix, split_once, count, parse_u16,
  parse_unsigned, parse_digits, show_u16, show_digits,
}
use sqns.Text.Ip.{
  parse_ipv4, parse_ipv6, read_ipv4, read_ipv6, read_tail, read_groups, read_group, zeros,
  read_octets, read_octet, read_number, read_given_char, separated, digits, to_digit, value,
  too_long, whole,
}
use sqns.Text.Ip.Shown.{show_ipv6, show_groups, show_hex, longest_zeros, mapped_ipv4}
use sqns.Text.Socket.{show_ipv4}
use sqns.Address.{split_authority, split_bare, port_behind, parse_port}
use sqns.Endpoint.{
  split, parse_host, parse_plain, parse_name, strip_suffix, parse_endpoint, apply_options, new,
  show_host, authority, show_endpoint,
}
use sqns.Cli.Commands.{parse_endpoints}
use sqns.Cli.Commands.Lines.{IsLine, parse_endpoints-authority}
use sqns.Examples.Data.{program, home, named}

unfoldable shown : Unit {0}
unfolding trim trim_start trim_end is_whitespace strip_prefix split_once count parse_u16
    parse_unsigned parse_digits show_u16 show_digits parse_ipv4 parse_ipv6 read_ipv4 read_ipv6
    read_tail read_groups read_group zeros read_octets read_octet read_number read_given_char
    separated digits to_digit value too_long whole show_ipv4 show_ipv6 show_groups show_hex
    longest_zeros mapped_ipv4 split_authority split_bare port_behind parse_port split parse_host
    parse_plain parse_name bytes_eq strip_suffix parse_endpoint apply_options show_host authority
    show_endpoint encode_utf8 encode_char from_utf8 chars_from
shown = tt

abbrev documentation : Bytes
documentation = 32 ∷ 1 ∷ 13 ∷ 184 ∷ 0 ∷ 0 ∷ 0 ∷ 0 ∷ 0 ∷ 0 ∷ 0 ∷ 0 ∷ 0 ∷ 0 ∷ 0 ∷ 1 ∷ []

-- Of two runs of zeros of the same length, the first is left out.
abbrev two_runs : Bytes
two_runs = 0 ∷ 1 ∷ 0 ∷ 0 ∷ 0 ∷ 0 ∷ 0 ∷ 2 ∷ 0 ∷ 0 ∷ 0 ∷ 0 ∷ 0 ∷ 3 ∷ 0 ∷ 4 ∷ []

abbrev mapped : Bytes
mapped = 0 ∷ 0 ∷ 0 ∷ 0 ∷ 0 ∷ 0 ∷ 0 ∷ 0 ∷ 0 ∷ 0 ∷ 255 ∷ 255 ∷ 192 ∷ 0 ∷ 2 ∷ 1 ∷ []

shown_documentation : show_host (v6 documentation) ≡ ascii "[2001:db8::1]"
unfolding shown
shown_documentation = refl

shown_two_runs : show_ipv6 two_runs ≡ ascii "1::2:0:0:3:4"
unfolding shown
shown_two_runs = refl

shown_any : show_ipv6 (zeros 16) ≡ ascii "::"
unfolding shown
shown_any = refl

shown_mapped : show_ipv6 mapped ≡ ascii "::ffff:192.0.2.1"
unfolding shown
shown_mapped = refl

-- IPv6 addresses are read back here as well.
read_back :
    map parse_ipv6 (map show_ipv6 (documentation ∷ two_runs ∷ zeros 16 ∷ mapped ∷ []))
    ≡ map some (documentation ∷ two_runs ∷ zeros 16 ∷ mapped ∷ [])
unfolding shown
read_back = refl

-- The display of an endpoint is not one that is parsed: its options come without commas.
shown_named : show_endpoint named ≡ ascii "ns.example:443 priority=10 weight=0"
unfolding program shown
shown_named = refl

named-IsLine : IsLine named
unfolding program shown
named-IsLine = ((ascii "ns.example", refl, refl, ground arith, ground arith), omega arith)

home-IsLine : IsLine home
home-IsLine = ((refl, ground arith), omega arith)

parse_endpoints-authority_example :
    parse_endpoints (map authority (home ∷ named ∷ []))
    ≡ ok (home ∷ new (name (ascii "ns.example")) 443 ∷ [])
parse_endpoints-authority_example =
    parse_endpoints-authority (home ∷ named ∷ []) (home-IsLine, (named-IsLine, tt))
