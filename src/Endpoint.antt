-- ===== src/Endpoint.antt =====
-- crates/sqns-core/src/record.rs: hosts and endpoints as texts, and back. The name of a host is kept by its
-- UTF-8 bytes.
pub mod WellFormed
pub mod Written
use sqns.Base.{
  ℕ, ◌+◌, ◌/◌, ◌%◌, Bool, true, false, ◌||◌, Option, none, some, List, [], ◌∷◌, ◌++◌, length,
  is_empty, ltb, ◌==◌, if◌then◌else◌,
}
use sqns.Bytes.{bytes_eq, ascii}
use sqns.Bytes.Utf8.Encode.{encode_utf8, from_utf8}
use sqns.Errors.{Error, malformed_record, Result, ok, err, ◌>>=◌}
use sqns.Record.{Host, v4, v6, name, Endpoint}
use sqns.Address.{split_authority, slash, colon, open_bracket, close_bracket}
use sqns.Text.{Text, is_whitespace, trim, strip_prefix, split_once, parse_u16, show_u16}
use sqns.Text.Ip.{parse_ipv4, parse_ipv6}
use sqns.Text.Ip.Shown.{show_ipv6}
use sqns.Text.Socket.{show_ipv4}

unfoldable pub strip_suffix : ℕ → Text → Option Text
strip_suffix c [] = none
strip_suffix c (x ∷ []) = if x == c then some [] else none
strip_suffix c (x ∷ y ∷ s) = elim (strip_suffix c (y ∷ s)) [ some t ↦ some (x ∷ t) | none ↦ none ]

-- The part in front of the first separator, and the parts behind it.
unfoldable pub split : ℕ → Text → Text × List Text
split sep [] = ([], [])
split sep (c ∷ s) =
    let (first, parts) = split sep s in if c == sep then ([], first ∷ parts) else (c ∷ first, parts)

abbrev pub any_char : (ℕ → Bool) → Text → Bool
any_char test [] = false
any_char test (c ∷ s) = test c || any_char test s

abbrev pub forbidden : ℕ → Bool
forbidden c = is_whitespace c || (c == slash || c == colon)

unfoldable pub parse_name : Text → Result Host
unfolding encode_utf8
parse_name s =
    if is_empty s || ltb 255 (length (encode_utf8 s))
    then err malformed_record
    else if any_char forbidden s
    then err malformed_record
    else ok (name (encode_utf8 s))

-- A host without brackets.
unfoldable pub parse_plain : Text → Result Host
unfolding parse_name
parse_plain s = elim (parse_ipv4 s) [
  | some octets ↦ ok (v4 octets)
  | none ↦ elim (parse_ipv6 s) [ some octets ↦ ok (v6 octets) | none ↦ parse_name s ]
]

abbrev pub unbracketed : Text → Option Text
unbracketed s = elim (strip_prefix (open_bracket ∷ []) s) [
  | some rest ↦ strip_suffix close_bracket rest
  | none ↦ none
]

-- `Host::from_str`
unfoldable pub parse_host : Text → Result Host
unfolding strip_suffix parse_plain
parse_host s = elim (unbracketed (trim s)) [
  | some inner ↦ elim (parse_ipv6 inner) [
    | some octets ↦ ok (v6 octets)
    | none ↦ err malformed_record
  ]
  | none ↦ parse_plain (trim s)
]

-- `Endpoint::new`
abbrev pub new : Host → ℕ → Endpoint
new host port = record { host = host; port = port; priority = 0; weight = 1 }

abbrev pub one_of : List Text → Text → Bool
one_of [] s = false
one_of (word ∷ words) s = bytes_eq word s || one_of words s

unfoldable pub set_option : Endpoint → Text → ℕ → Result Endpoint
set_option ep word value =
    if one_of (ascii "priority" ∷ ascii "prio" ∷ ascii "p" ∷ []) word
    then ok (record ep { priority = value })
    else if one_of (ascii "weight" ∷ ascii "w" ∷ []) word
    then ok (record ep { weight = value })
    else err malformed_record

-- One option, which is already trimmed.
unfoldable pub apply_option : Endpoint → Text → Result Endpoint
unfolding set_option
apply_option ep opt = if is_empty opt then ok ep else elim (split_once 61 opt) [
  | none ↦ err malformed_record
  | some (word, value) ↦ elim (parse_u16 (trim value)) [
    | none ↦ err malformed_record
    | some parsed ↦ set_option ep (trim word) parsed
  ]
]

unfoldable pub apply_options : Endpoint → List Text → Result Endpoint
unfolding apply_option
apply_options ep [] = ok ep
apply_options ep (opt ∷ opts) = apply_option ep (trim opt) >>= λ ep'. apply_options ep' opts

abbrev pub authority_of : Result (Text × ℕ) → Result (Text × ℕ)
authority_of (ok parts) = ok parts
authority_of (err e) = err malformed_record

-- `Endpoint::from_str`
unfoldable pub parse_endpoint : Text → Result Endpoint
unfolding split parse_host apply_options
parse_endpoint s =
    let (written, opts) = split 44 s in
    authority_of (split_authority (trim written)) >>= λ (host, port).
    parse_host host >>= λ h. apply_options (new h port) opts

-- `Display` of a host. A name is kept by its bytes, and is always well-formed UTF-8.
unfoldable pub show_host : Host → Text
unfolding show_ipv4 show_ipv6 from_utf8
show_host (v4 octets) = show_ipv4 octets
show_host (v6 octets) = open_bracket ∷ (show_ipv6 octets ++ (close_bracket ∷ []))
show_host (name bytes) = elim (from_utf8 bytes) [ some s ↦ s | none ↦ [] ]

-- `Endpoint::authority`
unfoldable pub authority : Endpoint → Text
unfolding show_host
authority ep = show_host ep.host ++ (colon ∷ show_u16 ep.port)

-- `Display` of an endpoint.
unfoldable pub show_endpoint : Endpoint → Text
unfolding authority
show_endpoint ep =
    authority ep
    ++ (ascii " priority=" ++ (show_u16 ep.priority ++ (ascii " weight=" ++ show_u16 ep.weight)))
