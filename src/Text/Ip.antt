-- ===== src/Text/Ip.antt =====
-- `FromStr` of the addresses of std::net. A reader gives what it read and what is left of the text, or `none` without
-- reading anything.
pub mod Octets
pub mod Shown
use sqns.Base.{
  ℕ, zero, suc, ◌+◌, ◌-◌, ◌*◌, ◌/◌, ◌%◌, Bool, true, false, not, ◌&&◌, ◌||◌, Option, none, some,
  List, [], ◌∷◌, ◌++◌, length, ltb, leb, ◌==◌, if◌then◌else◌,
}
use sqns.Bytes.{Bytes}
use sqns.Text.{Text}

abbrev pub Reader : Type 0 → Type 0
Reader A = Text → Option (A × Text)

-- `char::to_digit`
unfoldable pub to_digit : ℕ → ℕ → Option ℕ
to_digit radix c =
    let d =
      if leb 48 c && leb c 57
      then c - 48
      else if leb 97 c && leb c 122
      then c - 87
      else if leb 65 c && leb c 90
      then c - 55
      else radix in
    if ltb d radix then some d else none

-- The digits at the front of a text.
unfoldable pub digits : ℕ → Text → List ℕ × Text
unfolding to_digit
digits radix [] = ([], [])
digits radix (c ∷ s) =
    let (ds, rest) = digits radix s in
    elim (to_digit radix c) [ some d ↦ (d ∷ ds, rest) | none ↦ ([], c ∷ s) ]

unfoldable pub value : ℕ → ℕ → List ℕ → ℕ
value radix n [] = n
value radix n (d ∷ ds) = value radix (n * radix + d) ds

unfoldable pub too_long : Option ℕ → List ℕ → Bool
too_long none ds = false
too_long (some most) ds = ltb most (length ds)

abbrev pub leads_with_zero : List ℕ → Bool
leads_with_zero (zero ∷ d ∷ ds) = true
leads_with_zero _ = false

-- `read_number`, for a type that goes up to a limit.
unfoldable pub read_number : ℕ → Option ℕ → Bool → ℕ → Reader ℕ
unfolding digits value too_long
read_number radix most zeros limit s =
    let (ds, rest) = digits radix s in
    if (length ds == 0)
      || (too_long most ds || ((not zeros && leads_with_zero ds) || ltb limit (value radix 0 ds)))
    then none
    else some (value radix 0 ds, rest)

unfoldable pub read_given_char : ℕ → Text → Option Text
read_given_char c [] = none
read_given_char c (x ∷ s) = if x == c then some s else none

-- `read_separator`: what an index above 0 has before it.
unfoldable pub separated {ℓ} :
    {A : Type ℓ} → Bool → ℕ → (Text → Option (A × Text)) → Text → Option (A × Text)
unfolding read_given_char
separated true sep read s = read s
separated false sep read s = elim (read_given_char sep s) [ some rest ↦ read rest | none ↦ none ]

-- `read_number(10, Some(3), false)` of an octet.
unfoldable pub read_octet : Reader ℕ
unfolding read_number
read_octet = read_number 10 (some 3) false 255

unfoldable pub read_octets : ℕ → Bool → Reader Bytes
unfolding separated read_octet
read_octets zero first s = some ([], s)
read_octets (suc n) first s = elim (separated first 46 read_octet s) [
  | none ↦ none
  | some (b, rest) ↦ elim (read_octets n false rest) [
    | none ↦ none
    | some (bs, rest') ↦ some (b ∷ bs, rest')
  ]
]

-- `read_ipv4_addr`
unfoldable pub read_ipv4 : Reader Bytes
unfolding read_octets
read_ipv4 = read_octets 4 true

-- Two groups of four octets.
abbrev pub groups_of : Bytes → List ℕ
groups_of (a ∷ b ∷ bs) = (a * 256 + b) ∷ groups_of bs
groups_of _ = []

unfoldable pub read_group : Reader ℕ
unfolding read_number
read_group = read_number 16 (some 4) true 65535

-- `read_groups`: at most so many groups, whether they end in an IPv4 address, and what is left.
unfoldable pub read_groups : ℕ → Bool → Text → List ℕ × Bool × Text
unfolding separated read_ipv4 read_group
read_groups zero first s = ([], false, s)
read_groups (suc n) first s = elim (if n == 0 then none else separated first 58 read_ipv4 s) [
  | some (octets, rest) ↦ (groups_of octets, true, rest)
  | none ↦ elim (separated first 58 read_group s) [
    | none ↦ ([], false, s)
    | some (g, rest) ↦
        let (gs, embedded, rest') = read_groups n false rest in (g ∷ gs, embedded, rest')
  ]
]

unfoldable pub zeros : ℕ → List ℕ
zeros zero = []
zeros (suc n) = 0 ∷ zeros n

abbrev pub octets_of : List ℕ → Bytes
octets_of [] = []
octets_of (g ∷ gs) = (g / 256) ∷ (g % 256) ∷ octets_of gs

-- The groups behind `::`, which stands for at least one group.
unfoldable pub read_tail : List ℕ → Reader Bytes
unfolding read_given_char read_groups zeros
read_tail head s = elim (read_given_char 58 s) [
  | none ↦ none
  | some s' ↦ elim (read_given_char 58 s') [
    | none ↦ none
    | some s'' ↦
        let (tail, embedded, rest) = read_groups (7 - length head) true s'' in
        some (octets_of (head ++ (zeros (8 - length tail - length head) ++ tail)), rest)
  ]
]

-- `read_ipv6_addr`
unfoldable pub read_ipv6 : Reader Bytes
unfolding read_groups read_tail
read_ipv6 s =
    let (head, embedded, rest) = read_groups 8 true s in
    if length head == 8
    then some (octets_of head, rest)
    else if embedded
    then none
    else read_tail head rest

-- `parse_with`: all of the text is read.
unfoldable pub whole {ℓ} : {A : Type ℓ} → Option (A × Text) → Option A
whole none = none
whole (some (a, [])) = some a
whole (some (a, c ∷ s)) = none

-- `Ipv4Addr::from_str`
unfoldable pub parse_ipv4 : Text → Option Bytes
unfolding read_ipv4 whole
parse_ipv4 s = if ltb 15 (length s) then none else whole (read_ipv4 s)

-- `Ipv6Addr::from_str`
unfoldable pub parse_ipv6 : Text → Option Bytes
unfolding read_ipv6 whole
parse_ipv6 s = whole (read_ipv6 s)
