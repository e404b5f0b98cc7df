-- ===== src/Bytes/BigEndian.antt =====
-- The big-endian form of an unsigned integer of `w` bytes, and its inverse.
use Prim.Native.Char.{code}
use Prim.Native.String.{String}
use mathlib.Core.List.{reverse-reverse, reverse-cons}
use native.Mathlib.Nat.{pow-suc}
use sqns.Base.{
  ℕ, zero, suc, ◌+◌, ◌*◌, ◌/◌, ◌%◌, ◌^◌, ◌<◌, ◌≡◌, refl, ap, ◌∙◌, List, [], ◌∷◌, reverse, length,
  length-reverse, All, All-append, arith,
}

abbrev pub Bytes : Type 0
Bytes = List ℕ

abbrev pub IsByte : ℕ → Type 0
IsByte b = b < 256

-- The type `[u8; n]`.
abbrev pub IsArray : ℕ → Bytes → Type 0
IsArray n a = (length a ≡ n) × All IsByte a

-- The bytes of an ASCII literal.
abbrev pub ascii : String → Bytes
ascii String.[] = []
ascii (String.◌∷◌ c s) = code c ∷ ascii s

abbrev le_bytes : ℕ → ℕ → Bytes
le_bytes zero n = []
le_bytes (suc w) n = (n % 256) ∷ le_bytes w (n / 256)

abbrev from_le : Bytes → ℕ
from_le [] = 0
from_le (b ∷ bs) = b + 256 * from_le bs

-- `n.to_be_bytes()` of an integer of `w` bytes.
unfoldable pub be_bytes : ℕ → ℕ → Bytes
be_bytes w n = reverse (le_bytes w n)

-- `from_be_bytes`.
unfoldable pub from_be : Bytes → ℕ
from_be bs = from_le (reverse bs)

length-le_bytes : (w n : ℕ) → length (le_bytes w n) ≡ w
length-le_bytes zero n = refl
length-le_bytes (suc w) n = ap suc (length-le_bytes w (n / 256))

pub length-be_bytes : (w n : ℕ) → length (be_bytes w n) ≡ w
unfolding be_bytes
length-be_bytes w n = length-reverse (le_bytes w n) ∙ length-le_bytes w n

pub be_bytes-one : (n : ℕ) → n < 256 → be_bytes 1 n ≡ n ∷ []
unfolding be_bytes
be_bytes-one n h = ap (λ (k : ℕ). k ∷ []) (omega arith)

from_le-le_bytes : (w n : ℕ) → n < 256 ^ w → from_le (le_bytes w n) ≡ n
from_le-le_bytes zero n h = omega arith
from_le-le_bytes (suc w) n h =
    omega (arith, from_le-le_bytes w (n / 256) (omega (arith, pow-suc 256 w)))

pub from_be-be_bytes : (w n : ℕ) → n < 256 ^ w → from_be (be_bytes w n) ≡ n
unfolding be_bytes from_be
from_be-be_bytes w n h = ap from_le (reverse-reverse (le_bytes w n)) ∙ from_le-le_bytes w n h

All-le_bytes : (w n : ℕ) → All IsByte (le_bytes w n)
All-le_bytes zero n = tt
All-le_bytes (suc w) n = (omega arith, All-le_bytes w (n / 256))

All-reverse : (bs : Bytes) → All IsByte bs → All IsByte (reverse bs)
All-reverse [] h = tt
All-reverse (b ∷ bs) h =
    rw reverse-cons (All-append IsByte (reverse bs) (b ∷ []) (All-reverse bs h.1) (h.0, tt))

pub All-be_bytes : (w n : ℕ) → All IsByte (be_bytes w n)
unfolding be_bytes
All-be_bytes w n = All-reverse (le_bytes w n) (All-le_bytes w n)

le_bytes-from_le : (bs : Bytes) → All IsByte bs → le_bytes (length bs) (from_le bs) ≡ bs
le_bytes-from_le [] h = refl
le_bytes-from_le (b ∷ bs) h =
    let low : (b + 256 * from_le bs) % 256 ≡ b = omega arith in
    let high : (b + 256 * from_le bs) / 256 ≡ from_le bs = omega arith in
    rw (low, high) (ap (◌∷◌ b) (le_bytes-from_le bs h.1))

pub be_bytes-from_be : (bs : Bytes) → All IsByte bs → be_bytes (length bs) (from_be bs) ≡ bs
unfolding be_bytes from_be
be_bytes-from_be bs h =
    ap (λ (w : ℕ). reverse (le_bytes w (from_le (reverse bs)))) (length_reverse_sym bs)
    ∙ ap reverse (le_bytes-from_le (reverse bs) (All-reverse bs h))
    ∙ reverse-reverse bs
  where
    length_reverse_sym : (cs : Bytes) → length cs ≡ length (reverse cs)
    length_reverse_sym cs = omega (arith, length-reverse cs)

from_le-lt : (bs : Bytes) → All IsByte bs → from_le bs < 256 ^ length bs
from_le-lt [] h = omega arith
from_le-lt (b ∷ bs) h = omega (arith, from_le-lt bs h.1, pow-suc 256 (length bs))

pub from_be-lt : (bs : Bytes) → All IsByte bs → from_be bs < 256 ^ length bs
unfolding from_be
from_be-lt bs h = rw (length-reverse bs) at (from_le-lt (reverse bs) (All-reverse bs h))
