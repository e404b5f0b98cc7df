-- ===== src/Text/Numbers.antt =====
-- The digits of a number are read back as the number.
use native.Mathlib.Numerals.{unary_clauses}
use sqns.Base.{
  ℕ, zero, suc, ◌+◌, ◌*◌, ◌/◌, ◌%◌, ◌^◌, ◌≤◌, ◌<◌, ◌≡◌, refl, sym, ap, subst, ◌∙◌, some, [], ◌∷◌,
  All, ◌==◌, arith, Bool-cases, inl, inr,
}
use sqns.Text.{Text, parse_digits, parse_unsigned, parse_u16, show_digits, show_u16}

abbrev pub IsDigit : ℕ → Type 0
IsDigit c = (48 ≤ c) × (c ≤ 57)

parse_digit :
    (n d : ℕ) (s : Text)
    → d < 10
    → n * 10 + d ≤ 65535
    → parse_digits n ((48 + d) ∷ s) ≡ parse_digits (n * 10 + d) s
unfolding parse_digits
parse_digit n d s small fits = ground arith

parse-show_digits :
    (fuel n : ℕ) (s : Text)
    → n < 10 ^ fuel
    → n ≤ 65535
    → 1 ≤ fuel
    → parse_digits 0 (show_digits fuel n s) ≡ parse_digits n s
unfolding show_digits
parse-show_digits zero n s lt fits some_fuel = absurd (omega arith)
parse-show_digits (suc fuel) n s lt fits some_fuel = elim (Bool-cases (n / 10 == 0)) [
  | inl last ↦
      let small : n / 10 ≡ 0 = ground arith in
      rw (last, show_digits)
        (parse_digit 0 (n % 10) s (omega arith) (omega arith)
          ∙ ap (λ (k : ℕ). parse_digits k s) (omega arith))
  | inr more ↦
      let big : 1 ≤ n / 10 = ground arith in
      let pow : 10 ^ suc fuel ≡ 10 ^ fuel * 10 = simp unary_clauses refl in
      let small : n / 10 < 10 ^ fuel = omega (arith, pow) in
      rw (more, show_digits)
        (parse-show_digits fuel (n / 10) ((48 + n % 10) ∷ s) small (omega arith)
            (positive fuel small big)
          ∙ parse_digit (n / 10) (n % 10) s (omega arith) (omega arith)
          ∙ ap (λ (k : ℕ). parse_digits k s) (omega arith))
]
  where
    positive : (f : ℕ) → n / 10 < 10 ^ f → 1 ≤ n / 10 → 1 ≤ f
    positive zero h big = omega arith
    positive (suc f) h big = omega arith

show_digits-IsDigit : (fuel n : ℕ) (s : Text) → All IsDigit s → All IsDigit (show_digits fuel n s)
unfolding show_digits
show_digits-IsDigit zero n s h = h
show_digits-IsDigit (suc fuel) n s h = elim (Bool-cases (n / 10 == 0)) [
  | inl last ↦ rw (last, show_digits) (digit, h)
  | inr more ↦
      rw (more, show_digits) (show_digits-IsDigit fuel (n / 10) ((48 + n % 10) ∷ s) (digit, h))
]
  where
    digit : IsDigit (48 + n % 10)
    digit = (omega arith, omega arith)

show_digits-nonempty :
    (fuel n c : ℕ) (s : Text) → (d : ℕ) × (t : Text) × (show_digits fuel n (c ∷ s) ≡ d ∷ t)
unfolding show_digits
show_digits-nonempty zero n c s = (c, s, refl)
show_digits-nonempty (suc fuel) n c s = elim (Bool-cases (n / 10 == 0)) [
  | inl last ↦ rw (last, show_digits) (48 + n % 10, c ∷ s, refl)
  | inr more ↦ rw (more, show_digits) (show_digits-nonempty fuel (n / 10) (48 + n % 10) (c ∷ s))
]

-- The digits of a number are all digits, and there is at least one.
pub show_u16-lem :
    (n : ℕ) → All IsDigit (show_u16 n) × ((d : ℕ) × (t : Text) × (show_u16 n ≡ d ∷ t))
unfolding show_u16 show_digits
show_u16-lem n = (
  show_digits-IsDigit 5 n [] tt,
  elim (Bool-cases (n / 10 == 0)) [
    | inl last ↦ rw last (48 + n % 10, [], refl)
    | inr more ↦ rw more (show_digits-nonempty 4 (n / 10) (48 + n % 10) [])
  ],
)

parse_u16-digit : (d : ℕ) (t : Text) → IsDigit d → parse_u16 (d ∷ t) ≡ parse_digits 0 (d ∷ t)
unfolding parse_u16 parse_unsigned
parse_u16-digit d t h = ground arith

pub parse_u16-show_u16 : (n : ℕ) → n < 2 ^ 16 → parse_u16 (show_u16 n) ≡ some n
unfolding parse_digits
parse_u16-show_u16 n lt =
    let (digits, some_digit) = show_u16-lem n in
    let (d, t, same) = some_digit in
    let first : IsDigit d = (subst (All IsDigit) same digits).0 in
    ap parse_u16 same
    ∙ parse_u16-digit d t first
    ∙ ap (parse_digits 0) (sym same)
    ∙ (unfold show_u16 in parse-show_digits 5 n [] (omega arith) (omega arith) (omega arith))
