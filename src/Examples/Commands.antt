-- ===== src/Examples/Commands.antt =====
-- The commands of the client on a small disk that has the seeds of an identity and of a service key.
use sqns.Base.{◌≡◌, refl, true, false, some, List, [], ◌∷◌, ◌++◌, arith}
use sqns.Bytes.{Bytes, ascii, be_bytes}
use sqns.Bytes.Utf8.Encode.{encode_utf8, encode_char, from_utf8, chars_from}
use sqns.Errors.{Result, ok, err}
use sqns.Record.{v4, Endpoint}
use sqns.Text.{
  Text, trim, trim_start, trim_end, is_whitespace, strip_prefix, split_once, count, parse_u16,
  parse_unsigned, parse_digits,
}
use sqns.Text.Ip.{
  parse_ipv4, read_ipv4, read_octets, read_octet, read_number, read_given_char, separated, digits,
  to_digit, value, too_long, whole,
}
use sqns.Address.{split_authority, split_bare, parse_port}
use sqns.Endpoint.{
  split, parse_host, parse_plain, strip_suffix, parse_endpoint, apply_options, apply_option,
  set_option,
}
use sqns.Key.{parse_key, from_base58, from_hex, all_hex, from_slice}
use sqns.Key.Secret.{secret_from_hex, load_secret_file}
use sqns.Files.{PathName, Disk, File, exists, lookup_file, read, read_to_string, write}
use sqns.Record.Grant.{encode_file}
use sqns.Cli.{load_key, read_pubkey, not_after_of, issue_to, delegate, load_delegation, revoke}
use sqns.Cli.Revoke.{Retires, revoke-Retires}
use sqns.Cli.Commands.{parse_endpoints, resolve_command}
use sqns.Cli.Commands.Resolved.{IsPrinted, resolve_command-IsPrinted}
use sqns.Examples.Data.{program, toy, toy-IsEd25519}
use sqns.Examples.Addresses.{shifted}
use sqns.Examples.Servers.{home_server}
use sqns.Examples.Rotations.{lowest, lowest-IsRng, forwarding, plain_resolver}

-- All that a command computes with, besides `program`.
unfoldable cli : Unit {0}
unfolding encode_utf8 encode_char from_utf8 chars_from trim trim_start trim_end is_whitespace
    strip_prefix split_once count parse_u16 parse_unsigned parse_digits parse_ipv4 read_ipv4
    read_octets read_octet read_number read_given_char separated digits to_digit value too_long
    whole split_authority split_bare parse_port split parse_host parse_plain strip_suffix
    parse_endpoint apply_options apply_option set_option parse_key from_base58 from_hex all_hex
    from_slice secret_from_hex load_secret_file exists lookup_file read read_to_string write
    encode_file load_key read_pubkey not_after_of issue_to delegate load_delegation parse_endpoints
cli = tt

abbrev identity_seed : Bytes
identity_seed = be_bytes 32 7

abbrev service_seed : Bytes
service_seed = be_bytes 32 2305

-- A seed on disk, which only its owner can read.
abbrev seed_file : Bytes → File
seed_file seed = record {
  content = encode_utf8 (shifted.encode_hex seed ++ (10 ∷ []));
  mode = 0o600;
}

abbrev identity_path : PathName
identity_path = ascii "identity.key"

abbrev service_path : PathName
service_path = ascii "service.key"

abbrev grant_path : PathName
grant_path = ascii "service.deleg"

abbrev disk : Disk
disk = record {
  files = (identity_path, seed_file identity_seed) ∷ (service_path, seed_file service_seed) ∷ [];
  writable = λ p. true;
  new_mode = 0o644;
}

abbrev key_text : Text
key_text = shifted.encode58 (toy.public_key service_seed)

abbrev disk_of : Result Disk → Disk
disk_of (ok d) = d
disk_of (err e) = disk

-- The disk after a delegation for 30 days.
abbrev delegated : Disk
delegated = disk_of (delegate toy shifted disk 1000 identity_path key_text 30 false grant_path)

abbrev here : Endpoint
here = record { host = v4 (192 ∷ 0 ∷ 2 ∷ 1 ∷ []); port = 5300; priority = 10; weight = 1 }

loaded_identity : load_key toy shifted disk identity_path ≡ ok identity_seed
unfolding program cli
loaded_identity = refl

named_key : read_pubkey toy shifted disk key_text ≡ ok (toy.public_key service_seed)
unfolding program cli
named_key = refl

abbrev texts : List Text
texts = ascii "192.0.2.1:5300,priority=10" ∷ []

revoke-Retires_example :
    Retires toy shifted
      (λ servers.
        revoke toy shifted disk []
          (λ n. servers)
          plain_resolver
          1100
          (some key_text)
          false
          identity_path
          (ascii "stolen")
          false
          (ascii " revoke "))
      home_server
      1100
      (toy.public_key service_seed)
unfolding program cli
revoke-Retires_example =
    revoke-Retires toy shifted disk [] home_server plain_resolver 1100 key_text identity_path
      (ascii "stolen") false (ascii " revoke ") identity_seed (toy.public_key service_seed)
      toy-IsEd25519 loaded_identity named_key refl (omega arith)
      (toy-IsEd25519.public_key_size service_seed) (omega arith, refl, omega arith)
      (record { valid = refl; other = refl; short = refl }) refl refl

resolve_command-IsPrinted_example :
    IsPrinted toy shifted 1100 key_text
      (resolve_command toy shifted (forwarding ∷ []) lowest plain_resolver 1100 key_text).0
resolve_command-IsPrinted_example =
    resolve_command-IsPrinted toy shifted (forwarding ∷ []) lowest plain_resolver 1100 key_text tt
      lowest-IsRng
