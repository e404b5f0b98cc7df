-- ===== src/Codec/Consumes.antt =====
-- `Consumes f P`: where `f` succeeds on a buffer of bytes, it took bytes `bs` from what was left, and
-- `P a bs` relates its result to them.
use mathlib.Core.Path.{ap₂}
use sqns.Base.{
  ℕ, zero, suc, ◌+◌, ◌^◌, ◌≤◌, ◌<◌, ◌≡◌, refl, sym, ap, ◌∙◌, Bool, true, false, [], ◌∷◌, ◌++◌,
  append_assoc, append-nil, All, All-take, All-drop, length, length-take, length-drop,
  take as front, drop, drop-drop, take-append-drop, subst, if◌then◌else◌, arith,
}
use sqns.Bytes.{
  Bytes, IsByte, be_bytes, from_be, is_utf8, be_bytes-from_be, be_bytes-one, from_be-lt,
}
use sqns.Errors.{Error, malformed_record, Result, ok, err}
use sqns.Codec.{
  Reader, Decode, new, remaining, pure, fail, require, lift, take, u8, u16, unsigned, text,
  short_string, string, finish, repeat, encode_all, put_short_string, put_string, decode_whole,
  ◌>>=◌, ◌>>◌,
}
use sqns.Codec.Reads.{left}

pub record Consumes {A : Type 0} (f : Decode A) (P : A → Bytes → Type 0) : Type 0 where
  pub at :
      (r r' : Reader) (a : A)
      → All IsByte r.buf
      → f r ≡ ok (a, r')
      → (bs : Bytes) × (left r ≡ bs ++ left r') × (r'.buf ≡ r.buf) × P a bs

module _ {A : Type 0} where
  pub Consumes-pure : (P : A → Bytes → Type 0) (a : A) → P a [] → Consumes (pure a) P
  unfolding pure
  Consumes-pure P a h = record {
    at = λ r r' b bytes e.
        let same : a ≡ b = cc in
        let still : r ≡ r' = cc in
        ([], ap left still, ap (λ (x : Reader). x.buf) (sym still), subst (λ x. P x []) same h);
  }

  pub Consumes-fail : (P : A → Bytes → Type 0) (e : Error) → Consumes (fail e) P
  unfolding fail
  Consumes-fail P e = record { at = λ r r' b bytes h. cc }

  pub Consumes-require :
      (b : Bool) (e : Error) (f : Decode A) (P : A → Bytes → Type 0)
      → (b ≡ true → Consumes f P)
      → Consumes (require b e >> f) P
  unfolding require ◌>>=◌
  Consumes-require true e f P hf = record { at = (hf refl).at }
  Consumes-require false e f P hf = record { at = λ r r' b bytes h. cc }

  pub Consumes-lift :
      (m : Result A) (P : A → Bytes → Type 0) → ((a : A) → m ≡ ok a → P a []) → Consumes (lift m) P
  unfolding lift pure
  Consumes-lift (ok a) P h = record { at = (Consumes-pure P a (h a refl)).at }
  Consumes-lift (err e) P h = record { at = λ r r' b bytes k. cc }

  pub Consumes-mono :
      (f : Decode A) (P Q : A → Bytes → Type 0)
      → ((a : A) (bs : Bytes) → P a bs → Q a bs)
      → Consumes f P
      → Consumes f Q
  Consumes-mono f P Q weaken h = record {
    at = λ r r' a bytes e. let (bs, l, b, p) = h.at r r' a bytes e in (bs, l, b, weaken a bs p);
  }

  pub Consumes-if :
      (b : Bool) (f g : Decode A) (P : A → Bytes → Type 0)
      → (b ≡ true → Consumes f P)
      → (b ≡ false → Consumes g P)
      → Consumes (if b then f else g) P
  Consumes-if true f g P hf hg = hf refl
  Consumes-if false f g P hf hg = hg refl

-- A bind that succeeds splits where its first part ends.
bind-eq-ok :
    {A B : Type 0} (f : Decode A) (g : A → Decode B) (r r' : Reader) (b : B)
    → (f >>= g) r ≡ ok (b, r')
    → (a : A) × (s : Reader) × (f r ≡ ok (a, s)) × (g a s ≡ ok (b, r'))
unfolding ◌>>=◌
bind-eq-ok {A} {B} f g r r' b h = go (f r) refl h
  where
    go :
        (x : Result (A × Reader))
        → f r ≡ x
        → elim x [ ok (a, s) ↦ g a s | err e ↦ err e ] ≡ ok (b, r')
        → (a : A) × (s : Reader) × (f r ≡ ok (a, s)) × (g a s ≡ ok (b, r'))
    go (ok (a, s)) e k = (a, s, e, k)
    go (err e') e k = cc

pub Consumes-bind :
    {A B : Type 0} (f : Decode A) (g : A → Decode B) (P : A → Bytes → Type 0)
    (Q : B → Bytes → Type 0)
    → Consumes f P
    → ((a : A) (bs : Bytes) → P a bs → Consumes (g a) (λ b cs. Q b (bs ++ cs)))
    → Consumes (f >>= g) Q
Consumes-bind f g P Q hf hg = record {
  at = λ r r' b bytes e.
      let (a, s, ef, eg) = bind-eq-ok f g r r' b e in
      let (bs, l, same, p) = hf.at r s a bytes ef in
      let (cs, l', same', q) = (hg a bs p).at s r' b (rw same bytes) eg in
      (
        bs ++ cs,
        l ∙ ap (λ (x : Bytes). bs ++ x) l' ∙ sym (append_assoc bs cs (left r')),
        same' ∙ same,
        q,
      );
}

take-eq-ok :
    (n : ℕ) (r r' : Reader) (a : Bytes)
    → take n r ≡ ok (a, r')
    → (n ≤ remaining r) × (a ≡ front n (left r)) × (r'.pos ≡ r.pos + n) × (r'.buf ≡ r.buf)
unfolding take
take-eq-ok n r r' a e = ground arith

pub Consumes-take : (n : ℕ) → Consumes (take n) (λ a bs. (bs ≡ a) × (length a ≡ n) × All IsByte a)
Consumes-take n = record {
  at = λ r r' a bytes e.
      let (room, got, pos, same) = take-eq-ok n r r' a e in
      let size : n ≤ length (left r) = omega (arith, length-drop r.pos r.buf) in
      let rest : left r' ≡ drop n (left r) =
        ap (λ (k : ℕ). drop k r'.buf) pos
        ∙ ap (drop (r.pos + n)) same
        ∙ sym (drop-drop r.pos n (r.pos + n) r.buf refl) in
      (
        a,
        sym (take-append-drop n (left r))
            ∙ ap (λ (x : Bytes). x ++ drop n (left r)) (sym got)
            ∙ ap (λ (x : Bytes). a ++ x) (sym rest),
        same,
        (
          refl,
          ap length got ∙ length-take n (left r) size,
          subst (All IsByte) (sym got)
              (All-take IsByte n (left r) (All-drop IsByte r.pos r.buf bytes)),
        ),
      );
}

pub Consumes-unsigned :
    (w : ℕ) → Consumes (unsigned w) (λ n bs. (bs ≡ be_bytes w n) × (n < 256 ^ w))
unfolding unsigned
Consumes-unsigned w = Consumes-bind (take w) _ _ _ (Consumes-take w) λ a bs (same, size, bytes).
    Consumes-pure _ (from_be a) (
      append-nil bs
          ∙ same
          ∙ sym (be_bytes-from_be a bytes)
          ∙ ap (λ (k : ℕ). be_bytes k (from_be a)) size,
      subst (λ (k : ℕ). from_be a < 256 ^ k) size (from_be-lt a bytes),
    )

pub Consumes-u8 : Consumes u8 (λ n bs. (bs ≡ n ∷ []) × (n < 256))
Consumes-u8 =
    Consumes-mono u8 _ _ (λ n bs (same, fits). (same ∙ be_bytes-one n fits, fits))
      (Consumes-unsigned 1)

Consumes-text :
    (n : ℕ)
    → Consumes (text n) (λ s bs. (bs ≡ s) × (length s ≡ n) × All IsByte s × (is_utf8 s ≡ true))
unfolding text
Consumes-text n = Consumes-bind (take n) _ _ _ (Consumes-take n) λ a bs (same, size, bytes).
    Consumes-if (is_utf8 a) _ _ _
      (λ valid. Consumes-pure _ a (append-nil bs ∙ same, size, bytes, valid))
      (λ _. Consumes-fail _ malformed_record)

-- The text of a length-prefixed read is UTF-8 bytes, no longer than its prefix can say.
abbrev pub IsText : ℕ → Bytes → Type 0
IsText bound s = All IsByte s × (is_utf8 s ≡ true) × (length s ≤ bound)

pub Consumes-short_string : Consumes short_string (λ s bs. (bs ≡ put_short_string s) × IsText 255 s)
unfolding short_string put_short_string
Consumes-short_string = Consumes-bind u8 text _ _ Consumes-u8 λ n bs (same, fits).
    Consumes-mono (text n) _ _
      (λ s cs (body, size, bytes, valid).
        (ap₂ ◌++◌ (same ∙ ap (λ (k : ℕ). k ∷ []) (omega arith)) body, (bytes, valid, omega arith)))
      (Consumes-text n)

pub Consumes-string : Consumes string (λ s bs. (bs ≡ put_string s) × IsText 65535 s)
unfolding string put_string
Consumes-string = Consumes-bind u16 text _ _ (Consumes-unsigned 2) λ n bs (same, fits).
    Consumes-mono (text n) _ _
      (λ s cs (body, size, bytes, valid).
        (ap₂ ◌++◌ (same ∙ ap (be_bytes 2) (omega arith)) body, (bytes, valid, omega arith)))
      (Consumes-text n)

module _ {A : Type 0} (item : Decode A) (encode : A → Bytes) (P : A → Type 0) where
  pub Consumes-repeat :
      Consumes item (λ x bs. (bs ≡ encode x) × P x)
      → (n : ℕ)
      → Consumes (repeat n item) (λ xs bs. (bs ≡ encode_all encode xs) × (length xs ≡ n) × All P xs)
  unfolding repeat
  Consumes-repeat one zero = Consumes-pure _ [] (refl, refl, tt)
  Consumes-repeat one (suc n) = Consumes-bind item _ _ _ one λ x bs (same, good).
      Consumes-bind (repeat n item) _ _ _ (Consumes-repeat one n) λ xs cs (rest, size, all).
        Consumes-pure _ (x ∷ xs) (ap₂ ◌++◌ same (append-nil cs ∙ rest), ap suc size, (good, all))

whole-eq-ok :
    {A : Type 0} (f : Decode A) (bs : Bytes) (a : A)
    → decode_whole f bs ≡ ok a
    → (r : Reader) × ((f >>= λ x. finish >> pure x) (new bs) ≡ ok (a, r))
unfolding decode_whole
whole-eq-ok {A} f bs a e = go ((f >>= λ x. finish >> pure x) (new bs)) refl e
  where
    go :
        (x : Result (A × Reader))
        → (f >>= λ x. finish >> pure x) (new bs) ≡ x
        → elim x [ ok (b, s) ↦ ok b | err er ↦ err er ] ≡ ok a
        → (r : Reader) × ((f >>= λ x. finish >> pure x) (new bs) ≡ ok (a, r))
    go (ok (b, s)) k e' = (s, k ∙ ap (λ (y : A). ok (y, s)) (cc))
    go (err er) k e' = cc

finish-eq-ok : (s r : Reader) {u : Unit {0}} → finish s ≡ ok (u, r) → remaining s ≡ 0
unfolding finish
finish-eq-ok s r e = ground arith

pure-eq-ok : {A : Type 0} (s r : Reader) (a b : A) → pure a s ≡ ok (b, r) → a ≡ b
unfolding pure
pure-eq-ok s r a b e = cc

empty_of_length : (bs : Bytes) → length bs ≡ 0 → bs ≡ []
empty_of_length [] h = refl
empty_of_length (b ∷ bs) h = absurd (omega arith)

-- What a decoder that must come to the end of the input accepts is the whole input.
pub decode_whole-Consumes :
    {A : Type 0} (f : Decode A) (P : A → Bytes → Type 0) (bs : Bytes) (a : A)
    → Consumes f P
    → All IsByte bs
    → decode_whole f bs ≡ ok a
    → P a bs
decode_whole-Consumes {A} f P bs a h bytes e =
    let (r, e1) = whole-eq-ok f bs a e in
    let (b, s, ef, eg) = bind-eq-ok f _ (new bs) r a e1 in
    let (u, t, ending, result) = bind-eq-ok finish (λ _. pure b) s r a eg in
    let (cs, l, same, p) = h.at (new bs) s b bytes ef in
    let gone : left s ≡ [] =
      empty_of_length (left s) (omega (arith, length-drop s.pos s.buf, finish-eq-ok s t ending)) in
    let all_read : bs ≡ cs = l ∙ ap (λ (x : Bytes). cs ++ x) gone ∙ append-nil cs in
    subst (λ (x : A). P x bs) (pure-eq-ok t r b a result) (subst (P b) (sym all_read) p)
