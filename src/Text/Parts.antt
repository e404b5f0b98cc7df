-- ===== src/Text/Parts.antt =====
-- What holds of all characters of a text holds of all characters of its parts; a number that was read fits.
use sqns.Base.{
  ℕ, ◌+◌, ◌-◌, ◌*◌, ◌^◌, ◌≤◌, ◌<◌, ◌≡◌, subst, Option, none, some, [], ◌∷◌, All, ◌==◌, arith,
  if◌then◌else◌, Bool-cases, inl, inr,
}
use mathlib.Core.Option.{some-injective}
use sqns.Text.{
  Text, put_before, is_whitespace, trim_start, trim_end, trim, strip_prefix, split_once,
  parse_digits, parse_unsigned, parse_u16,
}

module _ (P : ℕ → Type 0) where
  All-trim_start : (s : Text) → All P s → All P (trim_start s)
  unfolding trim_start
  All-trim_start [] h = h
  All-trim_start (c ∷ s) h = elim (Bool-cases (is_whitespace c)) [
    | inl e ↦ rw (trim_start, e) (All-trim_start s h.1)
    | inr e ↦ rw (trim_start, e) h
  ]

  put_back :
      (c : ℕ) (t : Text)
      → P c
      → All P t
      → All P (elim t [ [] ↦ if is_whitespace c then [] else c ∷ [] | x ∷ xs ↦ c ∷ (x ∷ xs) ])
  put_back c [] p h = elim (Bool-cases (is_whitespace c)) [ inl e ↦ rw e tt | inr e ↦ rw e (p, tt) ]
  put_back c (x ∷ xs) p h = (p, h)

  All-trim_end : (s : Text) → All P s → All P (trim_end s)
  unfolding trim_end
  All-trim_end [] h = h
  All-trim_end (c ∷ s) h = put_back c (trim_end s) h.0 (All-trim_end s h.1)

  pub All-trim : (s : Text) → All P s → All P (trim s)
  unfolding trim
  All-trim s h = All-trim_end (trim_start s) (All-trim_start s h)

  pub All-strip_prefix : (p s t : Text) → All P s → strip_prefix p s ≡ some t → All P t
  unfolding strip_prefix
  All-strip_prefix [] s t h e = subst (All P) (some-injective _ _ e) h
  All-strip_prefix (c ∷ p) [] t h e = cc
  All-strip_prefix (c ∷ p) (x ∷ s) t h e = ground (arith, All-strip_prefix p s t h.1)

  abbrev Parts : Option (Text × Text) → Type 0
  Parts none = Unit
  Parts (some (a, b)) = All P a × All P b

  put_before-Parts : (c : ℕ) (o : Option (Text × Text)) → P c → Parts o → Parts (put_before c o)
  put_before-Parts c none p h = h
  put_before-Parts c (some (a, b)) p h = ((p, h.0), h.1)

  split_once-Parts : (sep : ℕ) (s : Text) → All P s → Parts (split_once sep s)
  unfolding split_once
  split_once-Parts sep [] h = tt
  split_once-Parts sep (c ∷ s) h = elim (Bool-cases (c == sep)) [
    | inl e ↦ rw (split_once, e) (tt, h.1)
    | inr e ↦
        rw (split_once, e) (put_before-Parts c (split_once sep s) h.0 (split_once-Parts sep s h.1))
  ]

  pub All-split_once :
      (sep : ℕ) (s a b : Text) → All P s → split_once sep s ≡ some (a, b) → All P a × All P b
  All-split_once sep s a b h e = rw e at (split_once-Parts sep s h)

parse_digits-bound : (n m : ℕ) (s : Text) → n ≤ 65535 → parse_digits n s ≡ some m → m ≤ 65535
unfolding parse_digits
parse_digits-bound n m [] le e = ground arith
parse_digits-bound n m (c ∷ s) le e = ground (arith, parse_digits-bound (n * 10 + (c - 48)) m s)

parse_unsigned-bound : (n : ℕ) (s : Text) → parse_unsigned s ≡ some n → n < 2 ^ 16
unfolding parse_unsigned
parse_unsigned-bound n [] e = cc
parse_unsigned-bound n (c ∷ s) e = omega (arith, parse_digits-bound 0 n (c ∷ s) (omega arith) e)

pub parse_u16-bound : (n : ℕ) (s : Text) → parse_u16 s ≡ some n → n < 2 ^ 16
unfolding parse_u16
parse_u16-bound n [] e = cc
parse_u16-bound n (c ∷ s) e = elim (Bool-cases (c == 43)) [
  | inl plus ↦ parse_unsigned-bound n s (rw (parse_u16, plus) at e)
  | inr other ↦ parse_unsigned-bound n (c ∷ s) (rw (parse_u16, other) at e)
]
