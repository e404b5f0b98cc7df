-- ===== src/Codec.antt =====
-- crates/sqns-core/src/codec.rs: bounds-checked reads from a byte buffer, and length-prefixed text.
-- The label `what` of a read goes only into the message, and is left out.
pub mod Reads
pub mod Consumes
use sqns.Base.{
  ℕ, zero, suc, ◌+◌, ◌-◌, ◌%◌, ◌^◌, Bool, List, [], ◌∷◌, ◌++◌, length, take as front, drop, ltb,
  ◌==◌, if◌then◌else◌,
}
use sqns.Bytes.{Bytes, be_bytes, from_be, is_utf8}
use sqns.Errors.{Error, malformed_record, Result, ok, err}

pub record Reader : Type 0 where
  pub buf : Bytes
  pub pos : ℕ

abbrev pub new : Bytes → Reader
new buf = record { buf = buf; pos = 0 }

-- `pos` never passes the length of the buffer, so this does not wrap.
abbrev pub remaining : Reader → ℕ
remaining r = length r.buf - r.pos

abbrev pub is_empty : Reader → Bool
is_empty r = remaining r == 0

-- A method that reads from `&mut self` and may fail.
abbrev pub Decode : Type 0 → Type 0
Decode A = Reader → Result (A × Reader)

infixl 5 ◌>>=◌ ◌>>◌
unfoldable pub ◌>>=◌ : {A B : Type 0} → Decode A → (A → Decode B) → Decode B
◌>>=◌ m f r = elim (m r) [ ok (a, r') ↦ f a r' | err e ↦ err e ]

abbrev pub ◌>>◌ : {B : Type 0} → Decode (Unit {0}) → Decode B → Decode B
m >> k = m >>= λ _. k

unfoldable pub pure : {A : Type 0} → A → Decode A
pure a r = ok (a, r)

unfoldable pub fail : {A : Type 0} → Error → Decode A
fail e r = err e

-- `if !test { return Err(e) }`
unfoldable pub require : Bool → Error → Decode (Unit {0})
require test e r = if test then ok (tt, r) else err e

-- `?` on a result that reads nothing.
unfoldable pub lift : {A : Type 0} → Result A → Decode A
lift m r = elim m [ ok a ↦ ok (a, r) | err e ↦ err e ]

unfoldable pub take : ℕ → Decode Bytes
take n r =
    if ltb (remaining r) n
    then err malformed_record
    else ok (front n (drop r.pos r.buf), record r { pos = r.pos + n })

-- `u8`, `u16`, `u32` and `u64` are `unsigned` at 1, 2, 4 and 8 bytes.
unfoldable pub unsigned : ℕ → Decode ℕ
unsigned w = do b ← take w; pure (from_be b)

abbrev pub u8 : Decode ℕ
u8 = unsigned 1

abbrev pub u16 : Decode ℕ
u16 = unsigned 2

abbrev pub u32 : Decode ℕ
u32 = unsigned 4

abbrev pub u64 : Decode ℕ
u64 = unsigned 8

abbrev pub bytes : ℕ → Decode Bytes
bytes = take

abbrev pub array : ℕ → Decode Bytes
array = take

-- `String::from_utf8` of the next `len` bytes.
unfoldable pub text : ℕ → Decode Bytes
text len = do b ← take len; if is_utf8 b then pure b else fail malformed_record

unfoldable pub short_string : Decode Bytes
short_string = do len ← u8; text len

unfoldable pub string : Decode Bytes
string = do len ← u16; text len

unfoldable pub finish : Decode (Unit {0})
finish r = if remaining r == 0 then ok (tt, r) else err malformed_record

-- A decoder run on a new reader that must come to its end: `let x = f(&mut r)?; r.finish()?; Ok(x)`.
unfoldable pub decode_whole : {A : Type 0} → Decode A → Bytes → Result A
unfolding finish ◌>>=◌ pure
decode_whole f bs = elim ((do x ← f; finish; pure x) (new bs)) [ ok (x, r) ↦ ok x | err e ↦ err e ]

-- `for _ in 0..count { out.push(item(r)?) }`
unfoldable pub repeat : {A : Type 0} → ℕ → Decode A → Decode (List A)
repeat zero item = pure []
repeat (suc n) item = do x ← item; xs ← repeat n item; pure (x ∷ xs)

-- The buffer is appended to; `s.len() as u8` keeps the low byte.
unfoldable pub put_short_string : Bytes → Bytes
put_short_string s = (length s % 2 ^ 8) ∷ s

unfoldable pub put_string : Bytes → Bytes
put_string s = be_bytes 2 (length s % 2 ^ 16) ++ s

-- `for x in xs { x.encode_into(buf) }`
abbrev pub encode_all : {A : Type 0} → (A → Bytes) → List A → Bytes
encode_all encode [] = []
encode_all encode (x ∷ xs) = encode x ++ encode_all encode xs
