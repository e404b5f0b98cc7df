-- ===== src/Address/RoundTrip.antt =====
-- An address that is written is read back as the same address.
use sqns.Base.{
  ◌≡◌, ◌≢◌, refl, ap, ◌∙◌, false, Option, none, some, [], ◌∷◌, ◌++◌, length, ◌==◌, arith,
}
use sqns.Bytes.{IsArray}
use sqns.Errors.{Error, Result, ok, err}
use sqns.Record.{PubKey}
use sqns.Text.{Text, trim, trim_start, trim_end, strip_prefix, split_once, is_whitespace}
use sqns.Text.Trim.{trim_end-IsSolid, trim_end-append, trim-IsSolid, split_once-append}
use sqns.Key.{Encodings, IsEncodings, parse_key, from_base58, from_slice}
use sqns.Address.Authority.{IsAddress, split_authority-written, Lacks-written}
use sqns.Address.{
  Scheme, sqc, sqns_scheme, prefix, ServerAddr, slash, written_authority, split_authority,
  split_scheme, show_address, parse_rest, parse_address,
}

split_scheme-prefix : (s : Scheme) (rest : Text) → split_scheme (prefix s ++ rest) ≡ (s, rest)
unfolding split_scheme prefix strip_prefix
split_scheme-prefix sqc rest = refl
split_scheme-prefix sqns_scheme rest = refl

trim-prefix :
    (s : Scheme) (rest : Text)
    → rest ≢ []
    → trim_end rest ≡ rest
    → trim (prefix s ++ rest) ≡ prefix s ++ rest
unfolding trim trim_start is_whitespace prefix
trim-prefix sqc rest h k = trim_end-append (prefix sqc) rest h k
trim-prefix sqns_scheme rest h k = trim_end-append (prefix sqns_scheme) rest h k

module _ (enc : Encodings) where
  parse_key-to_base58 :
      (k : PubKey) → IsEncodings enc → IsArray 32 k → parse_key enc (enc.encode58 k) ≡ ok k
  unfolding parse_key from_base58 from_slice
  parse_key-to_base58 k law size =
      rw
        (
          trim-IsSolid (enc.encode58 k) (law.solid k size),
          parse_key,
          not_hex,
          from_base58,
          law.decode58-encode58 k size,
          from_slice,
          size.0,
        )
        refl
    where
      not_hex : (length (enc.encode58 k) == 64) ≡ false
      not_hex = ground (arith, law.short_text k size)

  nonempty_key : (k : PubKey) → IsEncodings enc → IsArray 32 k → enc.encode58 k ≢ []
  nonempty_key k law size e = absurd (omega (arith, law.some_text k size, ap length e))

  parse_rest-lem :
      (a : ServerAddr) (written key : Text)
      → key ≢ []
      → parse_key enc key ≡ ok a.key
      → split_authority written ≡ ok (a.host, a.port)
      → parse_rest enc a.scheme written key ≡ ok a
  unfolding parse_rest
  parse_rest-lem a written [] some_key k w = absurd (some_key refl)
  parse_rest-lem a written (c ∷ s) some_key k w = rw (k, w) refl

  abbrev parse_split : Scheme → Option (Text × Text) → Result ServerAddr
  parse_split scheme o = elim o [
    | none ↦ err Error.address
    | some (written, key) ↦ parse_rest enc scheme written key
  ]

  abbrev parse_parts : Scheme × Text → Result ServerAddr
  parse_parts (scheme, rest) = parse_split scheme (split_once slash rest)

  -- An address that has a host without slashes and brackets is read back from the text it is shown as,
  -- with its scheme, its port and its key: an `sqns://` address never becomes an `sqc://` one.
  pub parse_address-show_address :
      (a : ServerAddr)
      → IsEncodings enc
      → IsAddress a
      → parse_address enc (show_address enc a) ≡ ok a
  unfolding parse_address show_address
  parse_address-show_address a law h =
      let key = enc.encode58 a.key in
      let rest = written_authority a ++ (slash ∷ key) in
      let some_key = nonempty_key a.key law h.key in
      let ends : trim_end rest ≡ rest =
        trim_end-append (written_authority a) (slash ∷ key) (λ e. cc)
          (trim_end-append (slash ∷ []) key some_key
            (trim_end-IsSolid key (law.solid a.key h.key))) in
      let scheme : split_scheme (trim (show_address enc a)) ≡ (a.scheme, rest) =
        ap split_scheme (trim-prefix a.scheme rest (longer (written_authority a) key) ends)
        ∙ split_scheme-prefix a.scheme rest in
      ap parse_parts scheme
      ∙ ap (parse_split a.scheme)
          (split_once-append slash (written_authority a) key (Lacks-written a h))
      ∙ parse_rest-lem a (written_authority a) key some_key (parse_key-to_base58 a.key law h.key)
          (split_authority-written a h)
    where
      longer : (s t : Text) → s ++ (slash ∷ t) ≢ []
      longer [] t e = cc
      longer (c ∷ s) t e = cc
