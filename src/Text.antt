-- ===== src/Text.antt =====
-- What the program uses of `str` in the standard library. A text is the list of its characters, by their
-- code points.
pub mod Trim
pub mod Numbers
pub mod Parts
pub mod Ip
pub mod Socket
use sqns.Base.{
  ℕ, zero, suc, ◌+◌, ◌-◌, ◌*◌, ◌/◌, ◌%◌, Bool, true, false, not, ◌&&◌, ◌||◌, Option, none, some,
  List, [], ◌∷◌, ltb, leb, ◌==◌, if◌then◌else◌,
}

abbrev pub Text : Type 0
Text = List ℕ

-- `White_Space` of Unicode.
unfoldable pub is_whitespace : ℕ → Bool
is_whitespace c =
    (leb 9 c && leb c 13)
    || (c == 32
        || (c == 133
            || (c == 160
                || (c == 5760
                    || ((leb 8192 c && leb c 8202)
                        || (c == 8232
                            || (c == 8233 || (c == 8239 || (c == 8287 || c == 12288)))))))))

unfoldable pub trim_start : Text → Text
unfolding is_whitespace
trim_start [] = []
trim_start (c ∷ s) = let rest = trim_start s in if is_whitespace c then rest else c ∷ s

-- A character stays if it or one behind it is no white space.
unfoldable pub trim_end : Text → Text
unfolding is_whitespace
trim_end [] = []
trim_end (c ∷ s) = elim (trim_end s) [
  | [] ↦ if is_whitespace c then [] else c ∷ []
  | x ∷ xs ↦ c ∷ (x ∷ xs)
]

unfoldable pub trim : Text → Text
unfolding trim_start trim_end
trim s = trim_end (trim_start s)

unfoldable pub strip_prefix : Text → Text → Option Text
strip_prefix [] s = some s
strip_prefix (c ∷ p) [] = none
strip_prefix (c ∷ p) (x ∷ s) = let rest = strip_prefix p s in if c == x then rest else none

abbrev put_before : ℕ → Option (Text × Text) → Option (Text × Text)
put_before c none = none
put_before c (some (a, b)) = some (c ∷ a, b)

unfoldable pub split_once : ℕ → Text → Option (Text × Text)
split_once sep [] = none
split_once sep (c ∷ s) =
    let rest = put_before c (split_once sep s) in if c == sep then some ([], s) else rest

-- `matches(c).count()`
unfoldable pub count : ℕ → Text → ℕ
count c [] = 0
count c (x ∷ s) = let rest = count c s in if x == c then suc rest else rest

-- `u16::from_str`: an optional plus sign and decimal digits, with the check for overflow at each.
unfoldable pub parse_digits : ℕ → Text → Option ℕ
parse_digits n [] = some n
parse_digits n (c ∷ s) =
    let rest = parse_digits (n * 10 + (c - 48)) s in
    if leb 48 c && (leb c 57 && leb (n * 10 + (c - 48)) 65535) then rest else none

unfoldable pub parse_unsigned : Text → Option ℕ
unfolding parse_digits
parse_unsigned [] = none
parse_unsigned (c ∷ s) = parse_digits 0 (c ∷ s)

unfoldable pub parse_u16 : Text → Option ℕ
unfolding parse_unsigned
parse_u16 [] = none
parse_u16 (c ∷ s) = if c == 43 then parse_unsigned s else parse_unsigned (c ∷ s)

-- The decimal digits of a number below `10 ^ fuel`, before a text.
unfoldable pub show_digits : ℕ → ℕ → Text → Text
show_digits zero n tail = tail
show_digits (suc fuel) n tail =
    let rest = show_digits fuel (n / 10) ((48 + n % 10) ∷ tail) in
    if n / 10 == 0 then (48 + n % 10) ∷ tail else rest

-- `Display` of a `u16`.
unfoldable pub show_u16 : ℕ → Text
unfolding show_digits
show_u16 n = show_digits 5 n []
