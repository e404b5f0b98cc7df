-- ===== src/Examples/Settings.antt =====
-- What a server and a client start with: keys, configurations, the text of an endpoint, and the snapshots in between.
use sqns.Base.{
  ◌+◌, ◌≡◌, refl, ap, Bool, true, false, none, some, Option, [], ◌∷◌, All, inl, inr, map, arith,
}
use sqns.Bytes.{Bytes, IsByte, IsArray, bytes_eq, length-be_bytes, All-be_bytes, ascii, be_bytes}
use sqns.Bytes.Utf8.Encode.{IsChar, encode_utf8, encode_char, from_utf8, chars_from}
use sqns.Errors.{bad_key, ok, err}
use sqns.Record.{v4, Endpoint}
use sqns.Record.Wire.{encode_endpoint, decode_endpoint}
use sqns.Record.Wire.Layout.{IsEndpoint}
use sqns.Codec.Reads.{Reads}
use sqns.Text.{
  Text, trim, trim_start, trim_end, is_whitespace, strip_prefix, split_once, count, parse_u16,
  parse_unsigned, parse_digits, show_u16, show_digits,
}
use sqns.Text.Ip.{
  parse_ipv4, read_ipv4, read_ipv6, read_tail, read_groups, read_group, zeros, read_octets,
  read_octet, read_number, read_given_char, separated, digits, to_digit, value, too_long, whole,
}
use sqns.Text.Socket.{
  v6, parse_socket, read_socket_v4, read_socket_v6, close_v6, skip_scope, read_behind, read_port,
  read_ip, parse_ip,
}
use sqns.Address.{
  split_authority, split_bare, parse_port, show_address, prefix, written_authority, authority,
}
use sqns.Endpoint.{
  split, parse_host, parse_plain, strip_suffix, parse_endpoint, apply_options, apply_option,
  set_option,
}
use sqns.Endpoint.WellFormed.{parse_endpoint-IsEndpoint}
use sqns.Key.{IsHex}
use sqns.Files.{Disk, exists, read_to_string}
use sqns.Resolver.{Resolver}
use sqns.Cli.Servers.{
  Environment, sqns_dir, join, ResolverConfig, ServerArgs, build_resolver, env_specs,
}
use sqns.Cli.Servers.ConfigFile.{Line, IsLine, write_config}
use sqns.Cli.Servers.Chosen.{build_resolver-servers}
use sqns.Config.{Config, Flags, Fields, load_or_create_key}
use sqns.Config.ServerKey.{load_or_create_key_stable}
use sqns.Store.{new_store}
use sqns.Server.Maintenance.{Maintained, start}
use sqns.Examples.Data.{program, one}
use sqns.Examples.Addresses.{shifted, shifted-IsEncodings, literal, literal-IsAddress, back, solid}
use sqns.Examples.Servers.{leaf}

-- What a text computes to.
unfoldable texts : Unit {0}
unfolding trim trim_start trim_end is_whitespace strip_prefix split_once count parse_u16
    parse_unsigned parse_digits show_u16 show_digits parse_ipv4 read_ipv4 read_ipv6 read_tail
    read_groups read_group zeros read_octets read_octet read_number read_given_char separated digits
    to_digit value too_long whole parse_socket read_socket_v4 read_socket_v6 close_v6 skip_scope
    read_behind read_port read_ip parse_ip split_authority split_bare parse_port split parse_host
    parse_plain bytes_eq strip_suffix parse_endpoint apply_options apply_option set_option
    encode_utf8 encode_char from_utf8 chars_from
texts = tt

abbrev here : Endpoint
here = record { host = v4 (192 ∷ 0 ∷ 2 ∷ 1 ∷ []); port = 53; priority = 10; weight = 1 }

abbrev here_text : Text
here_text = ascii " 192.0.2.1:53, prio = 10"

here_chars : All IsChar here_text
here_chars = ground arith

parse_endpoint-IsEndpoint_example :
    IsEndpoint here × Reads decode_endpoint (encode_endpoint here) here
unfolding texts
parse_endpoint-IsEndpoint_example = parse_endpoint-IsEndpoint here_text here here_chars refl

-- A server without a configuration file and with some flags, run by root.
abbrev flags : Flags
flags = record {
  config = none;
  listen = some (ascii "443");
  key_file = none;
  state_file = none;
  peers = show_address shifted literal ∷ [];
  upstreams = [];
  no_sync = true;
  insecure_dns = false;
}

abbrev bare : Environment
bare = record { servers = none; sqns_home = none; home_dir = some (ascii "/h") }

abbrev empty : Disk
empty = record { files = []; writable = λ p. true; new_mode = 0o644 }

abbrev no_toml : Text → Option Fields
no_toml s = none

abbrev built : Config
built = record {
  listen = record { ip = v6 (be_bytes 16 0); port = 443 };
  key_file = ascii "/etc/sqns/sqnsd.key";
  state_file = some (ascii "/var/lib/sqns/records.db");
  peers = literal ∷ [];
  upstreams = [];
  upstream_timeout = 5;
  upstream_cache = true;
  max_upstream_inflight = 64;
  allowed_clients = [];
  require_dnssec = true;
  allow_sync = false;
  sync_interval = 60;
  persist_interval = 30;
  accepted_envelope_versions = 1 ∷ 2 ∷ [];
}

chars : (b : Bytes) → All IsByte b → All IsChar (map (λ x. x + 256) b)
chars [] h = tt
chars (x ∷ b) h = (inl (omega arith), chars b h.1)

shifted-IsHex : IsHex shifted
shifted-IsHex = record {
  decode_hex-encode_hex = λ b h. ap some (back b);
  solid_hex = λ b h. solid b h.1;
  hex_chars = λ b h. chars b h.1;
}

fresh-IsArray : IsArray 32 (be_bytes 32 99)
fresh-IsArray = (length-be_bytes 32 99, All-be_bytes 32 99)

load_or_create_key_stable_example :
    (d' : Disk) × (load_or_create_key shifted empty (ascii "k") false (be_bytes 32 99)
      ≡ ok (be_bytes 32 99, d'))
    × ((explicit : Bool) (other : Bytes)
        → load_or_create_key shifted d' (ascii "k") explicit other ≡ ok (be_bytes 32 99, d'))
    × (load_or_create_key shifted empty (ascii "k") true (be_bytes 32 99) ≡ err bad_key)
unfolding program exists
load_or_create_key_stable_example =
    load_or_create_key_stable shifted empty (ascii "k") (be_bytes 32 99) shifted-IsHex fresh-IsArray
      refl refl

-- A file with a comment, and a server behind blanks.
abbrev comment_line : Line
comment_line = record { indent = []; server = []; gap = []; note = some (ascii " my servers") }

abbrev server_line : Line
server_line = record {
  indent = ascii "  ";
  server = show_address shifted literal;
  gap = ascii " ";
  note = some (ascii "the standby");
}

abbrev settings : Bytes
settings = encode_utf8 (write_config (comment_line ∷ server_line ∷ []))

abbrev with_settings : Disk
with_settings = record empty {
  files = (ascii "/h/.sqns/config", record { content = settings; mode = 0o644 }) ∷ [];
}

abbrev no_args : ServerArgs
no_args = record {
  servers = [];
  client_key = none;
  timeout = 10;
  no_recurse = false;
  insecure_dns = false;
}

settings-IsLine : All IsLine (comment_line ∷ server_line ∷ [])
unfolding program texts show_address prefix written_authority authority
settings-IsLine = (
  record { indent = tt; solid = tt; no_note = tt; gap = tt; note = ground arith },
  (
    record {
      indent = ground arith;
      solid = ground arith;
      no_note = ground arith;
      gap = ground arith;
      note = ground arith;
    },
    tt,
  ),
)

read_settings :
    read_to_string with_settings (ascii "/h/.sqns/config")
    ≡ ok (write_config (comment_line ∷ server_line ∷ []))
unfolding program texts show_address prefix written_authority authority read_to_string
read_settings = refl

build_resolver-servers_example :
    (c : ResolverConfig) × (r : Resolver) × (build_resolver shifted bare with_settings no_args
      ≡ ok (c, r))
    × (c.servers ≡ literal ∷ [])
    × (c.require_dnssec ≡ true)
unfolding program texts show_address prefix sqns_dir join env_specs
build_resolver-servers_example =
    build_resolver-servers shifted bare with_settings (ascii "/h/.sqns") no_args (literal ∷ [])
      shifted-IsEncodings (literal-IsAddress, tt) (λ e. cc) refl refl
      (inr (comment_line ∷ server_line ∷ [], refl, refl, settings-IsLine, read_settings, refl))

-- A sweep, a snapshot that fails, a publication and a snapshot that does not.
abbrev begin : Maintained
begin = start new_store leaf.upstream true none

abbrev after_put : Maintained
after_put = record begin { store = one; upstream = leaf.upstream }
