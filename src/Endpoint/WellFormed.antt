-- ===== src/Endpoint/WellFormed.antt =====
-- What a user's text is parsed to can go into a record.
use sqns.Base.{
  ℕ, ◌^◌, ◌≤◌, ◌<◌, ◌≡◌, false, List, [], ◌∷◌, length, length-append, All, ltb, ◌==◌, arith,
  is_empty, Bool-cases, Option-cases, inl, inr,
}
use sqns.Bytes.{ascii}
use sqns.Codec.Reads.{Reads}
use sqns.Record.Wire.{encode_endpoint, decode_endpoint}
use sqns.Record.Wire.RoundTrip.{Reads-endpoint}
use sqns.Bytes.Utf8.Encode.{encode_char, encode_utf8, IsChar, is_utf8-encode_utf8}
use sqns.Errors.{Result, ok, err, ◌>>=◌, Ensures, Ensures->>=, Ensures-ok}
use sqns.Record.{Endpoint}
use sqns.Record.Wire.Layout.{IsHost, IsEndpoint}
use sqns.Address.{
  split_authority, split_bare, port_behind, parse_port, open_bracket, close_bracket, colon,
}
use sqns.Text.{Text, trim, strip_prefix, split_once, count, parse_u16}
use sqns.Text.Parts.{All-trim, All-strip_prefix, All-split_once, parse_u16-bound}
use sqns.Text.Ip.{parse_ipv4, parse_ipv6}
use sqns.Text.Ip.Octets.{parse_ipv4-IsArray, parse_ipv6-IsArray}
use sqns.Endpoint.{
  split, any_char, forbidden, parse_name, parse_plain, unbracketed, parse_host, new, set_option,
  one_of, apply_option, apply_options, authority_of, parse_endpoint,
}

abbrev IsPort : ℕ → Type 0
IsPort n = n < 2 ^ 16

parse_port-IsPort : (s : Text) → Ensures IsPort (parse_port s)
unfolding parse_port
parse_port-IsPort s = elim (Option-cases (parse_u16 s)) [
  | inl e ↦ rw (parse_port, e) tt
  | inr (n, e) ↦ rw (parse_port, e) (parse_u16-bound n s e)
]

port_behind-IsPort : (s : Text) → Ensures IsPort (port_behind s)
unfolding port_behind
port_behind-IsPort s = elim (Option-cases (strip_prefix (colon ∷ []) s)) [
  | inl e ↦ rw (port_behind, e) (omega arith)
  | inr (p, e) ↦ rw (port_behind, e) (parse_port-IsPort p)
]

-- What `split_authority` gives: a part of the text, and a port.
abbrev IsAuthority : Text × ℕ → Type 0
IsAuthority (host, port) = All IsChar host × IsPort port

with_host :
    (host : Text) (port : Result ℕ)
    → All IsChar host
    → Ensures IsPort port
    → Ensures IsAuthority (port >>= λ p. ok (host, p))
with_host host port h p =
    Ensures->>= IsPort IsAuthority port (λ p. ok (host, p)) p λ n small. (h, small)

split_bare-IsAuthority : (s : Text) → All IsChar s → Ensures IsAuthority (split_bare s)
unfolding split_bare
split_bare-IsAuthority s h = elim (Bool-cases (ltb 1 (count colon s))) [
  | inl e ↦ rw (split_bare, e) (h, omega arith)
  | inr e ↦ elim (Option-cases (split_once colon s)) [
    | inl e' ↦ rw (split_bare, e, e') (h, omega arith)
    | inr ((host, p), e') ↦
        rw (split_bare, e, e')
          (with_host host (parse_port p) (All-split_once IsChar colon s host p h e').0
            (parse_port-IsPort p))
  ]
]

split_authority-IsAuthority : (s : Text) → All IsChar s → Ensures IsAuthority (split_authority s)
unfolding split_authority
split_authority-IsAuthority [] h = tt
split_authority-IsAuthority (c ∷ s) h =
    elim (Option-cases (strip_prefix (open_bracket ∷ []) (c ∷ s))) [
      | inl e ↦ rw (split_authority, e) (split_bare-IsAuthority (c ∷ s) h)
      | inr (rest, e) ↦
          let inner = All-strip_prefix IsChar (open_bracket ∷ []) (c ∷ s) rest h e in
          elim (Option-cases (split_once close_bracket rest)) [
            | inl e' ↦ rw (split_authority, e, e') tt
            | inr ((host, tail), e') ↦
                rw (split_authority, e, e')
                  (with_host host (port_behind tail)
                    (All-split_once IsChar close_bracket rest host tail inner e').0
                    (port_behind-IsPort tail))
          ]
    ]

encode_utf8-nonempty : (s : Text) → is_empty s ≡ false → 1 ≤ length (encode_utf8 s)
unfolding encode_utf8 encode_char
encode_utf8-nonempty [] h = cc
encode_utf8-nonempty (c ∷ s) h = ground (arith, length-append (encode_char c) (encode_utf8 s))

parse_name-IsHost : (s : Text) → All IsChar s → Ensures IsHost (parse_name s)
unfolding parse_name
parse_name-IsHost s h = elim (Bool-cases (is_empty s)) [
  | inl e ↦ rw (parse_name, e) tt
  | inr some_name ↦ elim (Bool-cases (ltb 255 (length (encode_utf8 s)))) [
    | inl e ↦ rw (parse_name, some_name, e) tt
    | inr short ↦ elim (Bool-cases (any_char forbidden s)) [
      | inl e ↦ rw (parse_name, some_name, short, e) tt
      | inr e ↦
          let (valid, bytes) = is_utf8-encode_utf8 s h in
          rw (parse_name, some_name, short, e)
            ((bytes, valid, ground arith), encode_utf8-nonempty s some_name)
    ]
  ]
]

parse_plain-IsHost : (s : Text) → All IsChar s → Ensures IsHost (parse_plain s)
unfolding parse_plain
parse_plain-IsHost s h = elim (Option-cases (parse_ipv4 s)) [
  | inr (a, e) ↦ rw (parse_plain, e) (parse_ipv4-IsArray s a e)
  | inl e ↦ elim (Option-cases (parse_ipv6 s)) [
    | inr (a, e') ↦ rw (parse_plain, e, e') (parse_ipv6-IsArray s a e')
    | inl e' ↦ rw (parse_plain, e, e') (parse_name-IsHost s h)
  ]
]

parse_host-IsHost : (s : Text) → All IsChar s → Ensures IsHost (parse_host s)
unfolding parse_host
parse_host-IsHost s h = elim (Option-cases (unbracketed (trim s))) [
  | inl e ↦ rw (parse_host, e) (parse_plain-IsHost (trim s) (All-trim IsChar s h))
  | inr (inner, e) ↦ elim (Option-cases (parse_ipv6 inner)) [
    | inl e' ↦ rw (parse_host, e, e') tt
    | inr (a, e') ↦ rw (parse_host, e, e') (parse_ipv6-IsArray inner a e')
  ]
]

set_option-IsEndpoint :
    (ep : Endpoint) (word : Text) (value : ℕ)
    → IsEndpoint ep
    → IsPort value
    → Ensures IsEndpoint (set_option ep word value)
unfolding set_option
set_option-IsEndpoint ep word value h small =
    elim (Bool-cases (one_of (ascii "priority" ∷ ascii "prio" ∷ ascii "p" ∷ []) word)) [
      | inl e ↦
          rw (set_option, e)
            (record { host = h.host; port = h.port; priority = small; weight = h.weight })
      | inr e ↦ elim (Bool-cases (one_of (ascii "weight" ∷ ascii "w" ∷ []) word)) [
        | inl e' ↦
            rw (set_option, e, e')
              (record { host = h.host; port = h.port; priority = h.priority; weight = small })
        | inr e' ↦ rw (set_option, e, e') tt
      ]
    ]

apply_option-IsEndpoint :
    (ep : Endpoint) (opt : Text) → IsEndpoint ep → Ensures IsEndpoint (apply_option ep opt)
unfolding apply_option
apply_option-IsEndpoint ep opt h = elim (Bool-cases (is_empty opt)) [
  | inl e ↦ rw (apply_option, e) h
  | inr e ↦ elim (Option-cases (split_once 61 opt)) [
    | inl e' ↦ rw (apply_option, e, e') tt
    | inr ((word, value), e') ↦ elim (Option-cases (parse_u16 (trim value))) [
      | inl e'' ↦ rw (apply_option, e, e', e'') tt
      | inr (n, e'') ↦
          rw (apply_option, e, e', e'')
            (set_option-IsEndpoint ep (trim word) n h (parse_u16-bound n (trim value) e''))
    ]
  ]
]

apply_options-IsEndpoint :
    (opts : List Text) (ep : Endpoint) → IsEndpoint ep → Ensures IsEndpoint (apply_options ep opts)
unfolding apply_options
apply_options-IsEndpoint [] ep h = h
apply_options-IsEndpoint (opt ∷ opts) ep h =
    Ensures->>= IsEndpoint IsEndpoint (apply_option ep (trim opt)) (λ ep'. apply_options ep' opts)
      (apply_option-IsEndpoint ep (trim opt) h) (apply_options-IsEndpoint opts)

All-split : (sep : ℕ) (s : Text) → All IsChar s → All IsChar (split sep s).0
unfolding split
All-split sep [] h = tt
All-split sep (c ∷ s) h = elim (Bool-cases (c == sep)) [
  | inl e ↦ rw (split, e) tt
  | inr e ↦ rw (split, e) (h.0, All-split sep s h.1)
]

authority_of-IsAuthority :
    (r : Result (Text × ℕ)) → Ensures IsAuthority r → Ensures IsAuthority (authority_of r)
authority_of-IsAuthority (ok parts) h = h
authority_of-IsAuthority (err e) h = tt

parse_endpoint-Ensures : (s : Text) → All IsChar s → Ensures IsEndpoint (parse_endpoint s)
unfolding parse_endpoint
parse_endpoint-Ensures s h =
    let written = trim (split 44 s).0 in
    let chars : All IsChar written = All-trim IsChar (split 44 s).0 (All-split 44 s h) in
    Ensures->>= IsAuthority IsEndpoint (authority_of (split_authority written)) _
      (authority_of-IsAuthority (split_authority written)
        (split_authority-IsAuthority written chars))
      λ (host, port) (some_chars, small).
        Ensures->>= IsHost IsEndpoint (parse_host host) _ (parse_host-IsHost host some_chars)
          λ x valid.
            apply_options-IsEndpoint (split 44 s).1 (new x port)
              (record { host = valid; port = small; priority = omega arith; weight = omega arith })

-- Whatever text a user gives for an endpoint: if it is accepted, then the host, the port and the options are in the
-- ranges that a record can carry, and the endpoint's bytes in a record are decoded to the same endpoint.
pub parse_endpoint-IsEndpoint :
    (s : Text) (ep : Endpoint)
    → All IsChar s
    → parse_endpoint s ≡ ok ep
    → IsEndpoint ep × Reads decode_endpoint (encode_endpoint ep) ep
parse_endpoint-IsEndpoint s ep h e =
    let good = Ensures-ok IsEndpoint (parse_endpoint s) ep (parse_endpoint-Ensures s h) e in
    (good, Reads-endpoint ep good)
