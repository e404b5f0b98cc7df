-- ===== src/Bytes/Utf8/Encode.antt =====
-- The UTF-8 bytes of a text, and that they are well-formed.
use sqns.Base.{
  ℕ, zero, suc, ◌-◌, ◌*◌, ap, Option, some, none, ◌+◌, ◌/◌, ◌%◌, ◌<◌, ◌≤◌, ◌≡◌, ◌⊎◌, refl, ◌∙◌,
  true, List, [], ◌∷◌, ◌++◌, All, All-append, ltb, arith, if◌then◌else◌,
}
use sqns.Bytes.BigEndian.{Bytes, IsByte}
use sqns.Bytes.Utf8.{between, lead_ok, followers, second_low, second_high, utf8_from, is_utf8}

-- The UTF-8 bytes of a character.
unfoldable pub encode_char : ℕ → Bytes
encode_char c =
    if ltb c 0x80
    then c ∷ []
    else if ltb c 0x800
    then (0xc0 + c / 64) ∷ (0x80 + c % 64) ∷ []
    else if ltb c 0x10000
    then (0xe0 + c / 4096) ∷ (0x80 + c / 64 % 64) ∷ (0x80 + c % 64) ∷ []
    else (0xf0 + c / 262144) ∷ (0x80 + c / 4096 % 64) ∷ (0x80 + c / 64 % 64) ∷ (0x80 + c % 64) ∷ []

unfoldable pub encode_utf8 : List ℕ → Bytes
unfolding encode_char
encode_utf8 [] = []
encode_utf8 (c ∷ s) = encode_char c ++ encode_utf8 s

-- A `char`: a code point that is no surrogate.
abbrev pub IsChar : ℕ → Type 0
IsChar c = (c < 0xd800) ⊎ ((0xe000 ≤ c) × (c < 0x110000))

utf8_from-encode_char :
    (c : ℕ) (bs : Bytes)
    → IsChar c
    → utf8_from 0 0x80 0xbf (encode_char c ++ bs) ≡ utf8_from 0 0x80 0xbf bs
unfolding encode_char utf8_from between lead_ok followers second_low second_high
utf8_from-encode_char c bs h = ground arith

encode_char-IsByte : (c : ℕ) → IsChar c → All IsByte (encode_char c)
unfolding encode_char
encode_char-IsByte c h = ground arith

pub is_utf8-encode_utf8 :
    (s : List ℕ) → All IsChar s → (is_utf8 (encode_utf8 s) ≡ true) × All IsByte (encode_utf8 s)
unfolding is_utf8 encode_utf8 utf8_from
is_utf8-encode_utf8 [] h = (refl, tt)
is_utf8-encode_utf8 (c ∷ s) h =
    let (valid, bytes) = is_utf8-encode_utf8 s h.1 in
    (
      utf8_from-encode_char c (encode_utf8 s) h.0 ∙ valid,
      All-append IsByte (encode_char c) (encode_utf8 s) (encode_char-IsByte c h.0) bytes,
    )

-- The characters of well-formed bytes: `n` bytes of a character are still to come, and `acc` is what was read of it.
unfoldable pub chars_from : ℕ → ℕ → Bytes → List ℕ
chars_from n acc [] = []
chars_from zero acc (b ∷ bs) =
    let one = chars_from zero 0 bs in
    let two = chars_from (suc zero) (b - 0xc0) bs in
    let three = chars_from (suc (suc zero)) (b - 0xe0) bs in
    let four = chars_from (suc (suc (suc zero))) (b - 0xf0) bs in
    if ltb b 0x80 then b ∷ one else if ltb b 0xe0 then two else if ltb b 0xf0 then three else four
chars_from (suc zero) acc (b ∷ bs) = (acc * 64 + (b - 0x80)) ∷ chars_from zero 0 bs
chars_from (suc (suc n)) acc (b ∷ bs) = chars_from (suc n) (acc * 64 + (b - 0x80)) bs

-- `String::from_utf8`
unfoldable pub from_utf8 : Bytes → Option (List ℕ)
unfolding chars_from
from_utf8 bs = if is_utf8 bs then some (chars_from 0 0 bs) else none

chars_from-encode_char :
    (c : ℕ) (bs : Bytes) → IsChar c → chars_from 0 0 (encode_char c ++ bs) ≡ c ∷ chars_from 0 0 bs
unfolding encode_char chars_from
chars_from-encode_char c bs h = ground arith

chars_from-encode_utf8 : (s : List ℕ) → All IsChar s → chars_from 0 0 (encode_utf8 s) ≡ s
unfolding encode_utf8 chars_from
chars_from-encode_utf8 [] h = refl
chars_from-encode_utf8 (c ∷ s) h =
    chars_from-encode_char c (encode_utf8 s) h.0 ∙ ap (λ t. c ∷ t) (chars_from-encode_utf8 s h.1)

pub from_utf8-encode_utf8 : (s : List ℕ) → All IsChar s → from_utf8 (encode_utf8 s) ≡ some s
unfolding from_utf8
from_utf8-encode_utf8 s h =
    rw (from_utf8, (is_utf8-encode_utf8 s h).0) (ap some (chars_from-encode_utf8 s h))
