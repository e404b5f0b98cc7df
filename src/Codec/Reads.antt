-- ===== src/Codec/Reads.antt =====
-- `Reads f bs a`: where the bytes left begin with `bs`, `f` takes those and returns `a`.
use sqns.Base.{
  ℕ, ◌+◌, ◌%◌, ◌^◌, ◌≤◌, ◌<◌, ◌≡◌, refl, sym, ap, ◌∙◌, Bool, true, List, [], ◌∷◌, ◌++◌,
  append_assoc, append-nil, subst, false, ltb, All, length, length-append, take as front, drop,
  drop-drop, take-append, drop-append, length-drop, arith,
}
use sqns.Bytes.{Bytes, be_bytes, from_be, is_utf8, length-be_bytes, from_be-be_bytes, be_bytes-one}
use sqns.Errors.{Error, Result, ok}
use sqns.Codec.{
  Reader, Decode, new, remaining, u8, u16, pure, require, lift, take, unsigned, text, short_string,
  string, repeat, encode_all, put_short_string, put_string, ◌>>=◌, ◌>>◌, decode_whole,
}

-- What a reader has not read yet.
abbrev pub left : Reader → Bytes
left r = drop r.pos r.buf

pub record Reads {A : Type 0} (f : Decode A) (bs : Bytes) (a : A) : Type 0 where
  pub at :
      (r : Reader) (tail : Bytes)
      → left r ≡ bs ++ tail
      → (r' : Reader) × (f r ≡ ok (a, r')) × (left r' ≡ tail)

module _ {A : Type 0} where
  pub Reads-pure : (a : A) → Reads (pure a) [] a
  unfolding pure
  Reads-pure a = record { at = λ r tail h. (r, refl, h) }

  pub Reads-bind :
      {B : Type 0} (f : Decode A) (g : A → Decode B) {bs cs : Bytes} {a : A} {b : B}
      → Reads f bs a
      → Reads (g a) cs b
      → Reads (f >>= g) (bs ++ cs) b
  unfolding ◌>>=◌
  Reads-bind f g {bs} {cs} {a} {b} hf hg = record {
    at = λ r tail h.
        let (r', e, l) = hf.at r (cs ++ tail) (h ∙ append_assoc bs cs tail) in
        let (r'', e', l') = hg.at r' tail l in (r'', rw (e, ◌>>=◌) e', l');
  }

  pub Reads-cast : (f : Decode A) {bs cs : Bytes} (a : A) → bs ≡ cs → Reads f bs a → Reads f cs a
  Reads-cast f a e = subst (λ (xs : Bytes). Reads f xs a) e

-- A last step that reads nothing.
pub Reads-map :
    {A B : Type 0} (f : Decode A) (g : A → B) {bs : Bytes} {a : A}
    → Reads f bs a
    → Reads (f >>= λ x. pure (g x)) bs (g a)
Reads-map f g {bs} {a} hf =
    subst (λ (cs : Bytes). Reads (f >>= λ x. pure (g x)) cs (g a)) (append-nil bs)
      (Reads-bind f (λ x. pure (g x)) hf (Reads-pure (g a)))

pub Reads-map_to :
    {A B : Type 0} (f : Decode A) (g : A → B) {bs : Bytes} {a : A} (b : B)
    → g a ≡ b
    → Reads f bs a
    → Reads (f >>= λ x. pure (g x)) bs b
Reads-map_to f g {bs} b e h = subst (Reads (f >>= λ x. pure (g x)) bs) e (Reads-map f g h)

remaining-left : (r : Reader) → remaining r ≡ length (left r)
remaining-left r = sym (length-drop r.pos r.buf)

pub Reads-take : (n : ℕ) (bs : Bytes) → length bs ≡ n → Reads (take n) bs bs
unfolding take
Reads-take n bs hn = record {
  at = λ r tail h.
      let room : remaining r ≡ n + length tail =
        omega (arith, remaining-left r, ap length h, length-append bs tail, hn) in
      let got : front n (left r) ≡ bs =
        ap (front n) h ∙ ap (λ (k : ℕ). front k (bs ++ tail)) (sym hn) ∙ take-append bs tail in
      let rest : drop n (left r) ≡ tail =
        ap (drop n) h ∙ ap (λ (k : ℕ). drop k (bs ++ tail)) (sym hn) ∙ drop-append bs tail in
      (
        record r { pos = r.pos + n },
        rw (room, got, not_short n (length tail)) refl,
        sym (drop-drop r.pos n (r.pos + n) r.buf refl) ∙ rest,
      );
}
  where
    not_short : (a b : ℕ) → ltb (a + b) a ≡ false
    not_short a b = ground arith

pub Reads-unsigned : (w n : ℕ) → n < 256 ^ w → Reads (unsigned w) (be_bytes w n) n
unfolding unsigned
Reads-unsigned w n h =
    subst (Reads (unsigned w) (be_bytes w n)) (from_be-be_bytes w n h)
      (Reads-map (take w) from_be (Reads-take w (be_bytes w n) (length-be_bytes w n)))

pub Reads-u8 : (n : ℕ) → n < 256 → Reads u8 (n ∷ []) n
Reads-u8 n h = Reads-cast u8 n (be_bytes-one n h) (Reads-unsigned 1 n h)

pub Reads-require :
    {A : Type 0} (b : Bool) (e : Error) (f : Decode A) {bs : Bytes} {a : A}
    → b ≡ true
    → Reads f bs a
    → Reads (require b e >> f) bs a
unfolding require ◌>>=◌
Reads-require true e f p h = record { at = h.at }
Reads-require false e f p h = cc

pub Reads-lift : {A : Type 0} (m : Result A) (a : A) → m ≡ ok a → Reads (lift m) [] a
unfolding lift
Reads-lift m a e = record { at = λ r tail h. (r, rw (e, lift) refl, h) }

pub Reads-text : (n : ℕ) (s : Bytes) → length s ≡ n → is_utf8 s ≡ true → Reads (text n) s s
unfolding text
Reads-text n s e h =
    Reads-cast (text n) s (append-nil s)
      (Reads-bind (take n) _ (Reads-take n s e) (rw h (Reads-pure s)))

pub Reads-short_string :
    (s : Bytes) → length s ≤ 255 → is_utf8 s ≡ true → Reads short_string (put_short_string s) s
unfolding short_string put_short_string
Reads-short_string s n h =
    Reads-bind u8 text (Reads-u8 (length s % 2 ^ 8) (omega arith))
      (Reads-text (length s % 2 ^ 8) s (omega arith) h)

pub Reads-string : (s : Bytes) → length s ≤ 65535 → is_utf8 s ≡ true → Reads string (put_string s) s
unfolding string put_string
Reads-string s n h =
    Reads-bind u16 text (Reads-unsigned 2 (length s % 2 ^ 16) (omega arith))
      (Reads-text (length s % 2 ^ 16) s (omega arith) h)

module _ {A : Type 0} (item : Decode A) (encode : A → Bytes) where
  pub Reads-repeat :
      (P : A → Type 0) (xs : List A)
      → ((x : A) → P x → Reads item (encode x) x)
      → All P xs
      → Reads (repeat (length xs) item) (encode_all encode xs) xs
  unfolding repeat
  Reads-repeat P [] one h = Reads-pure []
  Reads-repeat P (x ∷ xs) one h =
      Reads-bind item _ (one x h.0)
        (Reads-map (repeat (length xs) item) (λ ys. x ∷ ys) (Reads-repeat P xs one h.1))

-- A decoder that reads the whole input succeeds on it.
pub decode_whole-Reads :
    {A : Type 0} (f : Decode A) (bs : Bytes) (a : A) → Reads f bs a → decode_whole f bs ≡ ok a
unfolding decode_whole
decode_whole-Reads f bs a h =
    let (r, e, l) = h.at (new bs) [] (sym (append-nil bs)) in
    let done : remaining r ≡ 0 = remaining-left r ∙ ap length l in
    rw (e, decode_whole, ◌>>=◌, done) refl
