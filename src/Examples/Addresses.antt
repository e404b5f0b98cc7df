-- ===== src/Examples/Addresses.antt =====
-- Addresses of servers, with a toy form of base58 that has one character for each byte.
use sqns.Base.{◌+◌, ◌-◌, ◌≡◌, refl, ap, some, [], ◌∷◌, map, length, All, arith}
use mathlib.Core.Path.{ap₂}
use sqns.Bytes.{Bytes, IsByte, ascii}
use sqns.Errors.{Error, ok, err}
use sqns.Text.{
  is_whitespace, strip_prefix, split_once, count, parse_u16, parse_unsigned, parse_digits, show_u16,
  show_digits,
}
use sqns.Text.Trim.{IsSolid}
use sqns.Key.{Encodings, IsEncodings}
use sqns.Address.{
  ServerAddr, sqns_scheme, show_address, parse_address, written_authority, authority,
  split_authority, split_bare, port_behind, parse_port,
}
use sqns.Address.Authority.{IsAddress}
use sqns.Address.RoundTrip.{parse_address-show_address}
use sqns.Examples.Data.{program, toy-IsEd25519, service_key, service_seed}

abbrev pub shifted : Encodings
shifted = record {
  encode58 = map (λ x. x + 256);
  decode58 = λ s. some (map (λ x. x - 256) s);
  encode_hex = map (λ x. x + 256);
  decode_hex = λ s. some (map (λ x. x - 256) s);
}

pub back : (b : Bytes) → map (λ x. x - 256) (map (λ x. x + 256) b) ≡ b
back [] = refl
back (x ∷ b) = ap₂ ◌∷◌ (omega arith) (back b)

pub solid : (b : Bytes) → All IsByte b → IsSolid (map (λ x. x + 256) b)
unfolding is_whitespace
solid [] h = tt
solid (x ∷ b) h = (ground arith, solid b h.1)

same_length : (b : Bytes) → length (map (λ x. x + 256) b) ≡ length b
same_length [] = refl
same_length (x ∷ b) = omega (arith, same_length b)

pub shifted-IsEncodings : IsEncodings shifted
shifted-IsEncodings = record {
  decode58-encode58 = λ b h. ap some (back b);
  solid = λ b h. solid b h.1;
  some_text = λ b h. omega (arith, same_length b, h.0);
  short_text = λ b h. omega (arith, same_length b, h.0);
}

-- An IPv6 literal, which is written in brackets.
abbrev pub literal : ServerAddr
literal = record { scheme = sqns_scheme; host = ascii "::1"; port = 443; key = service_key }

pub literal-IsAddress : IsAddress literal
unfolding program
literal-IsAddress = record {
  named = λ e. cc;
  no_slash = (refl, (refl, (refl, tt)));
  no_open = (refl, (refl, (refl, tt)));
  no_close = (refl, (refl, (refl, tt)));
  port = omega arith;
  key = toy-IsEd25519.public_key_size service_seed;
}

parse_address-show_address_example :
    parse_address shifted (show_address shifted literal) ≡ ok literal
parse_address-show_address_example =
    parse_address-show_address shifted literal shifted-IsEncodings literal-IsAddress

written : written_authority literal ≡ ascii "[::1]:443"
unfolding written_authority authority count show_u16 show_digits
written = refl

-- What stands behind a bracket is passed over if it does not start with a colon.
authorities :
    (split_authority (ascii "ns.example") ≡ ok (ascii "ns.example", 5300))
    × (split_authority (ascii "ns.example:443") ≡ ok (ascii "ns.example", 443))
    × (split_authority (ascii "ns.example:70000") ≡ err Error.address)
    × (split_authority (ascii "2001:db8::1") ≡ ok (ascii "2001:db8::1", 5300))
    × (split_authority (ascii "[::1]443") ≡ ok (ascii "::1", 5300))
unfolding split_authority split_bare port_behind parse_port parse_u16 parse_unsigned parse_digits
    strip_prefix split_once count
authorities = (refl, refl, refl, refl, refl)
