-- ===== src/Endpoint/Written.antt =====
-- The written host and port of an endpoint are an endpoint to the parser again.
use sqns.Base.{
  ℕ, ◌<◌, ◌^◌, ◌≡◌, ◌≢◌, refl, ap, ◌∙◌, false, none, some, [], ◌∷◌, ◌++◌, All, All-append, ◌⊎◌,
  ◌==◌, arith, Option-cases, inl, inr,
}
use sqns.Bytes.{Bytes, IsArray}
use sqns.Bytes.Utf8.Encode.{from_utf8}
use sqns.Errors.{ok}
use sqns.Record.{Host, v4, v6, name, Endpoint}
use sqns.Address.{split_authority, colon, open_bracket}
use sqns.Address.Authority.{split_unbracketed, split_bare-port, Lacks-port, append_nonempty}
use sqns.Text.{Text, is_whitespace, trim, strip_prefix, show_u16}
use sqns.Text.Trim.{Lacks, IsSolid, trim-IsSolid}
use sqns.Text.Numbers.{IsDigit, show_u16-lem}
use sqns.Text.Ip.{parse_ipv4, parse_ipv6}
use sqns.Text.Ip.Shown.{parse_ipv4-show_ipv4}
use sqns.Text.Socket.{show_ipv4}
use sqns.Endpoint.{
  split, any_char, forbidden, parse_name, parse_plain, unbracketed, parse_host, new, apply_options,
  parse_endpoint, show_host, authority,
}

-- A host that can stand before a port: read as a host without brackets, it is this one.
record IsPlain (s : Text) (h : Host) : Type 0 where
  pub named : s ≢ []
  pub no_colon : Lacks colon s
  pub no_comma : Lacks 44 s
  pub no_bracket : Lacks open_bracket s
  pub solid : IsSolid s
  pub read : parse_plain s ≡ ok h

split-Lacks : (sep : ℕ) (s : Text) → Lacks sep s → split sep s ≡ (s, [])
unfolding split
split-Lacks sep [] h = refl
split-Lacks sep (c ∷ s) h = rw (split-Lacks sep s h.1, split, h.0) refl

digit-IsSolid : (c : ℕ) → IsDigit c → is_whitespace c ≡ false
unfolding is_whitespace
digit-IsSolid c h = ground arith

digits-IsSolid : (s : Text) → All IsDigit s → IsSolid s
digits-IsSolid [] h = tt
digits-IsSolid (c ∷ s) h = (digit-IsSolid c h.0, digits-IsSolid s h.1)

unbracketed-Lacks : (s : Text) → Lacks open_bracket s → unbracketed s ≡ none
unfolding strip_prefix
unbracketed-Lacks [] h = refl
unbracketed-Lacks (c ∷ s) h = ground (arith, h.0)

parse_host-IsPlain : (s : Text) (h : Host) → IsPlain s h → parse_host s ≡ ok h
unfolding parse_host
parse_host-IsPlain s h p =
    let plain : unbracketed (trim s) ≡ none =
      ap unbracketed (trim-IsSolid s p.solid) ∙ unbracketed-Lacks s p.no_bracket in
    rw (parse_host, plain) (ap parse_plain (trim-IsSolid s p.solid) ∙ p.read)

colon-IsSolid : is_whitespace colon ≡ false
unfolding is_whitespace
colon-IsSolid = refl

parse_endpoint-IsPlain :
    (s : Text) (h : Host) (port : ℕ)
    → IsPlain s h
    → port < 2 ^ 16
    → parse_endpoint (s ++ (colon ∷ show_u16 port)) ≡ ok (new h port)
unfolding parse_endpoint apply_options
parse_endpoint-IsPlain s h port p lt =
    let text = s ++ (colon ∷ show_u16 port) in
    let solid : IsSolid text =
      All-append (λ x. is_whitespace x ≡ false) s (colon ∷ show_u16 port) p.solid
        (colon-IsSolid, digits-IsSolid (show_u16 port) (show_u16-lem port).0) in
    let parts : split_authority text ≡ ok (s, port) =
      split_unbracketed text (append_nonempty s (colon ∷ show_u16 port) p.named)
        (Lacks-port open_bracket s port (inr (omega arith)) p.no_bracket)
      ∙ split_bare-port s port p.no_colon lt in
    rw
      (
        split-Lacks 44 text (Lacks-port 44 s port (inl (omega arith)) p.no_comma),
        trim-IsSolid text solid,
        parts,
        parse_host-IsPlain s h p,
      )
      refl

All-digits : (P : ℕ → Type 0) → ((c : ℕ) → IsDigit c → P c) → (s : Text) → All IsDigit s → All P s
All-digits P digit [] h = tt
All-digits P digit (c ∷ s) h = (digit c h.0, All-digits P digit s h.1)

All-show_ipv4 :
    (P : ℕ → Type 0) → ((c : ℕ) → IsDigit c → P c) → P 46 → (a : Bytes) → All P (show_ipv4 a)
unfolding show_ipv4
All-show_ipv4 P digit dot [] = tt
All-show_ipv4 P digit dot (b ∷ []) = All-digits P digit (show_u16 b) (show_u16-lem b).0
All-show_ipv4 P digit dot (b ∷ c ∷ bs) =
    All-append P (show_u16 b) (46 ∷ show_ipv4 (c ∷ bs))
      (All-digits P digit (show_u16 b) (show_u16-lem b).0) (dot, All-show_ipv4 P digit dot (c ∷ bs))

Lacks-show_ipv4 : (x : ℕ) (a : Bytes) → x < 46 ⊎ 57 < x → Lacks x (show_ipv4 a)
Lacks-show_ipv4 x a out =
    All-show_ipv4 (λ c. (c == x) ≡ false) (λ c h. ground arith) (ground arith) a

show_ipv4-nonempty : (a : Bytes) → IsArray 4 a → show_ipv4 a ≢ []
unfolding show_ipv4
show_ipv4-nonempty [] h e = omega (arith, h.0)
show_ipv4-nonempty (b ∷ []) h e = omega (arith, h.0)
show_ipv4-nonempty (b ∷ c ∷ bs) h e =
    let (d, t, same) = (show_u16-lem b).1 in
    append_nonempty (show_u16 b) (46 ∷ show_ipv4 (c ∷ bs)) (λ none_shown. cc) e

show_ipv4-IsPlain : (a : Bytes) → IsArray 4 a → IsPlain (show_ipv4 a) (v4 a)
unfolding parse_plain is_whitespace
show_ipv4-IsPlain a h = record {
  named = show_ipv4-nonempty a h;
  no_colon = Lacks-show_ipv4 colon a (inr (omega arith));
  no_comma = Lacks-show_ipv4 44 a (inl (omega arith));
  no_bracket = Lacks-show_ipv4 open_bracket a (inr (omega arith));
  solid = All-show_ipv4 (λ c. is_whitespace c ≡ false) digit-IsSolid refl a;
  read = rw (parse_plain, parse_ipv4-show_ipv4 a h) refl;
}

-- No forbidden character is in a text.
allowed : (s : Text) → any_char forbidden s ≡ false → Lacks colon s × IsSolid s
allowed [] h = (tt, tt)
allowed (c ∷ s) h =
    let (no_colon, solid) = allowed s (ground (arith, h)) in
    ((ground (arith, h), no_colon), (ground (arith, h), solid))

parse_name-parts :
    (s : Text) (n : Bytes) → parse_name s ≡ ok (name n) → (s ≢ []) × (any_char forbidden s ≡ false)
unfolding parse_name
parse_name-parts [] n e = absurd (ground arith)
parse_name-parts (c ∷ s) n e = (λ empty. cc, ground arith)

-- A text that is read as a host name.
name-parts :
    (s : Text) (n : Bytes) → parse_plain s ≡ ok (name n) → (s ≢ []) × (any_char forbidden s ≡ false)
unfolding parse_plain
name-parts s n e = elim (Option-cases (parse_ipv4 s)) [
  | inr (a, e4) ↦ absurd (ground (arith, e4))
  | inl e4 ↦ elim (Option-cases (parse_ipv6 s)) [
    | inr (a, e6) ↦ absurd (ground (arith, e6, e4))
    | inl e6 ↦ parse_name-parts s n (rw (parse_plain, e4, e6) at e)
  ]
]

-- A host, not an IPv6 address, that reads as itself: four octets, or a name in UTF-8 that is no address, has at most
-- 255 bytes, and has no white space and no slash, colon, comma or opening bracket.
abbrev pub IsWritten : Host → Type 0
IsWritten (v4 a) = IsArray 4 a
IsWritten (v6 a) = ⊥
IsWritten (name n) =
    (s : Text) × (from_utf8 n ≡ some s)
    × (parse_plain s ≡ ok (name n))
    × Lacks 44 s
    × Lacks open_bracket s

show_host-IsPlain : (h : Host) → IsWritten h → IsPlain (show_host h) h
unfolding show_host
show_host-IsPlain (v4 a) w = show_ipv4-IsPlain a w
show_host-IsPlain (v6 a) w = absurd w
show_host-IsPlain (name n) (s, text, read, no_comma, no_bracket) =
    let (named, fine) = name-parts s n read in
    let (no_colon, solid) = allowed s fine in
    rw (show_host, text)
      (record {
        named = named;
        no_colon = no_colon;
        no_comma = no_comma;
        no_bracket = no_bracket;
        solid = solid;
        read = read;
      })

-- The host and port of an endpoint, written as one text, are read as an endpoint with this host and port.
pub parse_endpoint-authority :
    (ep : Endpoint)
    → IsWritten ep.host
    → ep.port < 2 ^ 16
    → parse_endpoint (authority ep) ≡ ok (new ep.host ep.port)
unfolding authority
parse_endpoint-authority ep w lt =
    parse_endpoint-IsPlain (show_host ep.host) ep.host ep.port (show_host-IsPlain ep.host w) lt
