-- ===== src/Address.antt =====
-- crates/sqns-core/src/addr.rs: addresses of servers, as texts and back; `is_ip_literal` is in Dns.
pub mod Authority
pub mod RoundTrip
use sqns.Base.{
  ℕ, ◌<◌, Bool, true, false, Option, none, some, List, [], ◌∷◌, ◌++◌, ltb, ◌==◌, if◌then◌else◌,
}
use sqns.Bytes.{ascii}
use sqns.Errors.{Error, Result, ok, err, ◌>>=◌}
use sqns.Record.{PubKey}
use sqns.Protocol.{default_port}
use sqns.Text.{Text, trim, strip_prefix, split_once, count, parse_u16, show_u16}
use sqns.Key.{Encodings, parse_key, to_base58}

pub data Scheme : Type 0 where
  sqc sqns_scheme : Scheme

unfoldable pub prefix : Scheme → Text
prefix sqc = ascii "sqc://"
prefix sqns_scheme = ascii "sqns://"

abbrev pub requires_dnssec : Scheme → Bool
requires_dnssec sqc = false
requires_dnssec sqns_scheme = true

pub record ServerAddr : Type 0 where
  pub scheme : Scheme
  pub host : Text
  pub port : ℕ
  pub key : PubKey

-- The characters `:`, `/`, `[` and `]`.
abbrev pub colon : ℕ
colon = 58

abbrev pub slash : ℕ
slash = 47

abbrev pub open_bracket : ℕ
open_bracket = 91

abbrev pub close_bracket : ℕ
close_bracket = 93

abbrev pub contains_colon : Text → Bool
contains_colon s = ltb 0 (count colon s)

abbrev pub bracketed : Text → Text
bracketed host = open_bracket ∷ (host ++ (close_bracket ∷ []))

unfoldable pub authority : ServerAddr → Text
authority a =
    if contains_colon a.host
    then bracketed a.host ++ (colon ∷ show_u16 a.port)
    else a.host ++ (colon ∷ show_u16 a.port)

unfoldable pub written_authority : ServerAddr → Text
unfolding authority
written_authority a =
    if a.port == default_port
    then (if contains_colon a.host then bracketed a.host else a.host)
    else authority a

unfoldable pub parse_port : Text → Result ℕ
parse_port s = elim (parse_u16 s) [ some n ↦ ok n | none ↦ err Error.address ]

-- The port behind a closing bracket; what is there and does not start with a colon is passed over.
unfoldable pub port_behind : Text → Result ℕ
unfolding parse_port
port_behind tail = elim (strip_prefix (colon ∷ []) tail) [
  | some p ↦ parse_port p
  | none ↦ ok default_port
]

unfoldable pub split_bare : Text → Result (Text × ℕ)
unfolding parse_port
split_bare s = if ltb 1 (count colon s) then ok (s, default_port) else elim (split_once colon s) [
  | some (host, p) ↦ parse_port p >>= λ port. ok (host, port)
  | none ↦ ok (s, default_port)
]

unfoldable pub split_authority : Text → Result (Text × ℕ)
unfolding port_behind split_bare
split_authority [] = err Error.address
split_authority (c ∷ s) = elim (strip_prefix (open_bracket ∷ []) (c ∷ s)) [
  | some rest ↦ elim (split_once close_bracket rest) [
    | none ↦ err Error.address
    | some (host, tail) ↦ port_behind tail >>= λ port. ok (host, port)
  ]
  | none ↦ split_bare (c ∷ s)
]

-- The scheme that a text starts with, and what follows it.
unfoldable pub split_scheme : Text → Scheme × Text
unfolding prefix
split_scheme s = elim (strip_prefix (prefix sqns_scheme) s) [
  | some rest ↦ (sqns_scheme, rest)
  | none ↦ elim (strip_prefix (prefix sqc) s) [ some rest ↦ (sqc, rest) | none ↦ (sqc, s) ]
]

-- A key that does not parse is an error of the address.
abbrev pub key_of : Result PubKey → Result PubKey
key_of (ok k) = ok k
key_of (err e) = err Error.address

module _ (enc : Encodings) where
  -- `Display`
  unfoldable pub show_address : ServerAddr → Text
  unfolding prefix written_authority
  show_address a = prefix a.scheme ++ (written_authority a ++ (slash ∷ to_base58 enc a.key))

  unfoldable pub parse_rest : Scheme → Text → Text → Result ServerAddr
  unfolding split_authority
  parse_rest scheme written [] = err Error.address
  parse_rest scheme written (c ∷ s) = do
    key ← key_of (parse_key enc (c ∷ s))
    parts ← split_authority written
    ok (record { scheme = scheme; host = parts.0; port = parts.1; key = key })

  -- `ServerAddr::from_str`
  unfoldable pub parse_address : Text → Result ServerAddr
  unfolding split_scheme parse_rest
  parse_address s =
      let (scheme, rest) = split_scheme (trim s) in
      elim (split_once slash rest) [
        | none ↦ err Error.address
        | some (written, key) ↦ parse_rest scheme written key
      ]
