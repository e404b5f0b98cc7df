-- ===== src/Text/Ip/Shown.antt =====
-- `Display` of the addresses of std::net, and that an IPv4 address is read back as it is written.
use sqns.Base.{
  ℕ, zero, suc, ◌+◌, ◌-◌, ◌*◌, ◌/◌, ◌%◌, ◌≤◌, ◌<◌, ◌≡◌, refl, sym, ap, subst, ◌∙◌, Bool, true,
  false, not, ◌&&◌, Option, none, some, List, [], ◌∷◌, ◌++◌, take, append-nil, length,
  length-append, All, ltb, leb, ◌==◌, if◌then◌else◌, Bool-cases, inl, inr, arith,
}
use sqns.Bytes.{Bytes, IsByte, IsArray, bytes_eq}
use sqns.Text.{Text, show_digits, show_u16}
use sqns.Text.Numbers.{IsDigit, show_u16-lem}
use sqns.Text.Ip.{
  groups_of, zeros, to_digit, digits, value, too_long, leads_with_zero, read_number, read_octet,
  read_octets, read_given_char, separated, read_ipv4, whole, parse_ipv4,
}
use sqns.Text.Socket.{show_ipv4}

-- A number below 16 as a lower-case digit.
abbrev hex_digit : ℕ → ℕ
hex_digit d = if ltb d 10 then 48 + d else 87 + d

-- `{:x}` of a number below `16 ^ fuel`, before a text.
unfoldable pub show_hex : ℕ → ℕ → Text → Text
show_hex zero n tail = tail
show_hex (suc fuel) n tail =
    let rest = show_hex fuel (n / 16) (hex_digit (n % 16) ∷ tail) in
    if n / 16 == 0 then hex_digit (n % 16) ∷ tail else rest

-- `fmt_subslice`
unfoldable pub show_groups : List ℕ → Text
unfolding show_hex
show_groups [] = []
show_groups (g ∷ []) = show_hex 4 g []
show_groups (g ∷ h ∷ gs) = show_hex 4 g (58 ∷ show_groups (h ∷ gs))

-- The first longest run of zero groups, by its start and its length. So far the index is `i`, the run that ends
-- before it has the length `current`, and the longest is `best`.
unfoldable pub longest_zeros : ℕ → ℕ → ℕ × ℕ → List ℕ → ℕ × ℕ
longest_zeros i current best [] = best
longest_zeros i current best (g ∷ gs) =
    let run = if g == 0 then suc current else 0 in
    longest_zeros (suc i) run (if ltb best.1 run then (i - current, run) else best) gs

abbrev drop_first {ℓ} : {A : Type ℓ} → ℕ → List A → List A
drop_first zero xs = xs
drop_first (suc n) [] = []
drop_first (suc n) (x ∷ xs) = drop_first n xs

-- `to_ipv4_mapped`
unfoldable pub mapped_ipv4 : Bytes → Option Bytes
mapped_ipv4 octets =
    if bytes_eq (take 12 octets) (zeros 10 ++ (255 ∷ 255 ∷ []))
    then some (drop_first 12 octets)
    else none

-- `Display` of an `Ipv6Addr`, for its 16 octets.
unfoldable pub show_ipv6 : Bytes → Text
unfolding show_groups longest_zeros mapped_ipv4 show_ipv4
show_ipv6 octets = elim (mapped_ipv4 octets) [
  | some inner ↦ 58 ∷ 58 ∷ 102 ∷ 102 ∷ 102 ∷ 102 ∷ 58 ∷ show_ipv4 inner
  | none ↦
      let gs = groups_of octets in
      let (start, len) = longest_zeros 0 0 (0, 0) gs in
      if ltb 1 len
      then show_groups (take start gs) ++ (58 ∷ 58 ∷ show_groups (drop_first (start + len) gs))
      else show_groups gs
]

-- Whether an octet is read back: at most three digits, none of them a leading zero.
abbrev octet_ok : ℕ → Bool
octet_ok b =
    let ds = (digits 10 (show_u16 b)).0 in
    (not (length ds == 0) && leb (length ds) 3)
    && ((not (leads_with_zero ds) && (value 10 0 ds == b)) && leb (length (show_u16 b)) 3)

abbrev all_below : ℕ → Bool
all_below zero = true
all_below (suc n) = octet_ok n && all_below n

all_octets : all_below 256 ≡ true
unfolding digits to_digit value show_u16 show_digits
all_octets = refl

below : (n b : ℕ) → all_below n ≡ true → b < n → octet_ok b ≡ true
below zero b h lt = absurd (omega arith)
below (suc n) b h lt = elim (Bool-cases (b == n)) [
  | inl same ↦ let e : b ≡ n = ground arith in ap octet_ok e ∙ ground arith
  | inr other ↦ below n b (ground arith) (ground arith)
]

to_digit-IsDigit : (c : ℕ) → IsDigit c → to_digit 10 c ≡ some (c - 48)
unfolding to_digit
to_digit-IsDigit c h = ground arith

digits-IsDigit :
    (s rest : Text)
    → All IsDigit s
    → digits 10 rest ≡ ([], rest)
    → digits 10 (s ++ rest) ≡ ((digits 10 s).0, rest)
unfolding digits
digits-IsDigit [] rest h e = e
digits-IsDigit (c ∷ s) rest h e =
    rw (digits, to_digit-IsDigit c h.0)
      (ap (λ (p : List ℕ × Text). ((c - 48) ∷ p.0, p.1)) (digits-IsDigit s rest h.1 e))

read_octet-show_u16 :
    (b : ℕ) (rest : Text)
    → b < 256
    → digits 10 rest ≡ ([], rest)
    → read_octet (show_u16 b ++ rest) ≡ some (b, rest)
unfolding read_octet read_number too_long
read_octet-show_u16 b rest lt e =
    let good = below 256 b all_octets lt in
    rw (digits-IsDigit (show_u16 b) rest (show_u16-lem b).0 e, read_octet, read_number)
      (ground (arith, good))

-- What stands behind the first octet.
abbrev behind : Bytes → Text
behind [] = []
behind (b ∷ bs) = 46 ∷ (show_u16 b ++ behind bs)

digits-behind : (bs : Bytes) → digits 10 (behind bs) ≡ ([], behind bs)
unfolding digits to_digit
digits-behind [] = refl
digits-behind (b ∷ bs) = refl

show_ipv4-behind : (b : ℕ) (bs : Bytes) → show_ipv4 (b ∷ bs) ≡ show_u16 b ++ behind bs
unfolding show_ipv4
show_ipv4-behind b [] = sym (append-nil (show_u16 b))
show_ipv4-behind b (c ∷ bs) = ap (λ (t : Text). show_u16 b ++ (46 ∷ t)) (show_ipv4-behind c bs)

read_octets-behind :
    (bs : Bytes) → All IsByte bs → read_octets (length bs) false (behind bs) ≡ some (bs, [])
unfolding read_octets separated read_given_char
read_octets-behind [] h = refl
read_octets-behind (b ∷ bs) h =
    rw
      (
        read_octets,
        read_octet-show_u16 b (behind bs) h.0 (digits-behind bs),
        read_octets-behind bs h.1,
      )
      refl

length-octet : (b : ℕ) → b < 256 → length (show_u16 b) ≤ 3
length-octet b lt = let good = below 256 b all_octets lt in ground (arith, good)

length-behind : (bs : Bytes) → All IsByte bs → length (behind bs) ≤ 4 * length bs
length-behind [] h = omega arith
length-behind (b ∷ bs) h =
    let one = length-octet b h.0 in
    let rest = length-behind bs h.1 in rw (length-append (show_u16 b) (behind bs)) (omega arith)

read_octets-first :
    (b : ℕ) (bs : Bytes)
    → IsByte b
    → All IsByte bs
    → read_octets (suc (length bs)) true (show_u16 b ++ behind bs) ≡ some (b ∷ bs, [])
unfolding read_octets separated
read_octets-first b bs h hs =
    rw
      (
        read_octets,
        read_octet-show_u16 b (behind bs) h (digits-behind bs),
        read_octets-behind bs hs,
      )
      refl

-- An IPv4 address is read back from the text it is displayed as.
pub parse_ipv4-show_ipv4 : (a : Bytes) → IsArray 4 a → parse_ipv4 (show_ipv4 a) ≡ some a
unfolding parse_ipv4 read_ipv4 whole
parse_ipv4-show_ipv4 [] h = absurd (omega (arith, h.0))
parse_ipv4-show_ipv4 (b ∷ bs) h =
    let n : length bs ≡ 3 = omega (arith, h.0) in
    let first = length-octet b h.1.0 in
    let more = length-behind bs h.1.1 in
    let short : ltb 15 (length (show_u16 b ++ behind bs)) ≡ false =
      rw (length-append (show_u16 b) (behind bs)) (ground arith) in
    let read =
      subst (λ (k : ℕ). read_octets (suc k) true (show_u16 b ++ behind bs) ≡ some (b ∷ bs, [])) n
        (read_octets-first b bs h.1.0 h.1.1) in
    rw (show_ipv4-behind b bs, parse_ipv4, short) (ap whole read)
