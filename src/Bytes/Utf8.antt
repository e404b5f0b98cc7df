-- ===== src/Bytes/Utf8.antt =====
-- The test of `String::from_utf8`: well-formed UTF-8 by the table of the Unicode standard.
pub mod Encode
use sqns.Base.{ℕ, zero, suc, Bool, ◌&&◌, ◌||◌, [], ◌∷◌, leb, ltb, ◌==◌, if◌then◌else◌}
use sqns.Bytes.BigEndian.{Bytes}

between : ℕ → ℕ → ℕ → Bool
between lo hi b = leb lo b && leb b hi

-- A first byte, how many bytes follow it, and the range of the first of those.
lead_ok : ℕ → Bool
lead_ok b = ltb b 0x80 || between 0xc2 0xf4 b

followers : ℕ → ℕ
followers b = if ltb b 0x80 then 0 else if ltb b 0xe0 then 1 else if ltb b 0xf0 then 2 else 3

second_low : ℕ → ℕ
second_low b = if b == 0xe0 then 0xa0 else if b == 0xf0 then 0x90 else 0x80

second_high : ℕ → ℕ
second_high b = if b == 0xed then 0x9f else if b == 0xf4 then 0x8f else 0xbf

-- `n` bytes of the character are still to come, the next of them in the range from `lo` to `hi`.
utf8_from : ℕ → ℕ → ℕ → Bytes → Bool
unfolding between lead_ok followers second_low second_high
utf8_from n lo hi [] = n == 0
utf8_from zero lo hi (b ∷ bs) =
    lead_ok b && utf8_from (followers b) (second_low b) (second_high b) bs
utf8_from (suc n) lo hi (b ∷ bs) = between lo hi b && utf8_from n 0x80 0xbf bs

unfoldable pub is_utf8 : Bytes → Bool
unfolding utf8_from
is_utf8 = utf8_from 0 0x80 0xbf
