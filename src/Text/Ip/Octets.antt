-- ===== src/Text/Ip/Octets.antt =====
-- An address that was read has its number of octets.
use sqns.Base.{
  ℕ, zero, suc, ◌+◌, ◌-◌, ◌≤◌, ◌≡◌, refl, ap, subst, ◌∙◌, Bool, true, false, Option, none, some,
  List, [], ◌∷◌, ◌++◌, length, length-append, All, All-append, ltb, ◌==◌, ==_iff, arith,
  if◌then◌else◌, Bool-cases, Option-cases, inl, inr,
}
use mathlib.Core.Option.{some-injective}
use sqns.Bytes.{Bytes, IsByte, IsArray}
use sqns.Text.{Text}
use sqns.Text.Ip.{
  read_number, separated, read_given_char, read_octet, read_octets, read_ipv4, groups_of,
  read_group, read_groups, zeros, octets_of, read_tail, read_ipv6, whole, parse_ipv4, parse_ipv6,
}

-- The value that was read, when something was.
abbrev Got {ℓ} : {A : Type 0} → (A → Type ℓ) → Option (A × Text) → Type ℓ
Got P none = Unit
Got P (some (a, rest)) = P a

Got-mono :
    {A : Type 0} (P Q : A → Type 0)
    → ((a : A) → P a → Q a)
    → (o : Option (A × Text)) → Got P o
    → Got Q o
Got-mono P Q f none h = tt
Got-mono P Q f (some (a, rest)) h = f a h

read_number-bound :
    (radix : ℕ) (most : Option ℕ) (keep_zeros : Bool) (limit : ℕ) (s : Text)
    → Got (λ n. n ≤ limit) (read_number radix most keep_zeros limit s)
unfolding read_number
read_number-bound radix most keep_zeros limit s = ground arith

Got-separated :
    {A : Type 0} (P : A → Type 0) (first : Bool) (sep : ℕ) (read : Text → Option (A × Text))
    (s : Text)
    → ((t : Text) → Got P (read t))
    → Got P (separated first sep read s)
unfolding separated
Got-separated P true sep read s h = h s
Got-separated P false sep read s h = elim (Option-cases (read_given_char sep s)) [
  | inl e ↦ rw (separated, e) tt
  | inr (rest, e) ↦ rw (separated, e) (h rest)
]

read_octet-IsByte : (s : Text) → Got IsByte (read_octet s)
unfolding read_octet
read_octet-IsByte s =
    Got-mono (λ n. n ≤ 255) IsByte (λ n h. omega (arith, h)) (read_octet s)
      (read_number-bound 10 (some 3) false 255 s)

read_octets-IsArray : (n : ℕ) (first : Bool) (s : Text) → Got (IsArray n) (read_octets n first s)
unfolding read_octets
read_octets-IsArray zero first s = (refl, tt)
read_octets-IsArray (suc n) first s =
    let byte = Got-separated IsByte first 46 read_octet s read_octet-IsByte in
    elim (Option-cases (separated first 46 read_octet s)) [
      | inl e ↦ rw (read_octets, e) tt
      | inr ((b, rest), e) ↦
          let more = read_octets-IsArray n false rest in
          elim (Option-cases (read_octets n false rest)) [
            | inl e' ↦ rw (read_octets, e, e') tt
            | inr ((bs, rest'), e') ↦
                let (size, all) = rw e' at more in
                rw (read_octets, e, e') (ap suc size, (rw e at byte, all))
          ]
    ]

read_ipv4-IsArray : (s : Text) → Got (IsArray 4) (read_ipv4 s)
unfolding read_ipv4
read_ipv4-IsArray s = read_octets-IsArray 4 true s

-- So many groups of 16 bits at most.
abbrev AreGroups : ℕ → List ℕ → Type 0
AreGroups n gs = (length gs ≤ n) × All (λ g. g ≤ 65535) gs

groups_of-AreGroups : (n : ℕ) (bs : Bytes) → IsArray 4 bs → AreGroups (suc (suc n)) (groups_of bs)
groups_of-AreGroups n (a ∷ b ∷ c ∷ d ∷ []) (size, all) = ground arith
groups_of-AreGroups n [] (size, all) = absurd (omega arith)
groups_of-AreGroups n (a ∷ []) (size, all) = absurd (omega arith)
groups_of-AreGroups n (a ∷ b ∷ []) (size, all) = absurd (omega arith)
groups_of-AreGroups n (a ∷ b ∷ c ∷ []) (size, all) = absurd (omega arith)
groups_of-AreGroups n (a ∷ b ∷ c ∷ d ∷ e ∷ bs) (size, all) = absurd (omega arith)

read_group-bound : (s : Text) → Got (λ g. g ≤ 65535) (read_group s)
unfolding read_group
read_group-bound s = read_number-bound 16 (some 4) true 65535 s

suc-eq-zero : (n : ℕ) → (suc n == 0) ≡ false
suc-eq-zero n = ground arith

below_eight : (n : ℕ) → n ≤ 8 → (n == 8) ≡ false → n ≤ 7
below_eight n le other = ground arith

-- An IPv4 address is looked for where two groups are left.
embedded-AreGroups :
    (n : ℕ) (first : Bool) (s : Text)
    → Got
        (λ bs. AreGroups (suc n) (groups_of bs))
        (if n == 0 then none else separated first 58 read_ipv4 s)
embedded-AreGroups zero first s = tt
embedded-AreGroups (suc n) first s = rw (suc-eq-zero n) (
    Got-mono (IsArray 4) (λ bs. AreGroups (suc (suc n)) (groups_of bs)) (groups_of-AreGroups n)
      (separated first 58 read_ipv4 s)
      (Got-separated (IsArray 4) first 58 read_ipv4 s read_ipv4-IsArray))

read_groups-AreGroups : (n : ℕ) (first : Bool) (s : Text) → AreGroups n (read_groups n first s).0
unfolding read_groups
read_groups-AreGroups zero first s = (omega arith, tt)
read_groups-AreGroups (suc n) first s =
    let embedded = embedded-AreGroups n first s in
    let group = Got-separated (λ g. g ≤ 65535) first 58 read_group s read_group-bound in
    elim (Option-cases (if n == 0 then none else separated first 58 read_ipv4 s)) [
      | inr ((octets, rest), e) ↦ rw (read_groups, e) (rw e at embedded)
      | inl e ↦ elim (Option-cases (separated first 58 read_group s)) [
        | inl e' ↦ rw (read_groups, e, e') (omega arith, tt)
        | inr ((g, rest), e') ↦
            let (size, all) = read_groups-AreGroups n false rest in
            rw (read_groups, e, e') (omega (arith, size), (rw e' at group, all))
      ]
    ]

zeros-AreGroups : (n : ℕ) → (length (zeros n) ≡ n) × All (λ g. g ≤ 65535) (zeros n)
unfolding zeros
zeros-AreGroups zero = (refl, tt)
zeros-AreGroups (suc n) = let (size, all) = zeros-AreGroups n in (ap suc size, (omega arith, all))

octets_of-IsArray :
    (n : ℕ) (gs : List ℕ) → length gs ≡ n → All (λ g. g ≤ 65535) gs → IsArray (n + n) (octets_of gs)
octets_of-IsArray zero [] size h = (refl, tt)
octets_of-IsArray (suc n) (g ∷ gs) size h =
    let (size', all) = octets_of-IsArray n gs (omega (arith, size)) h.1 in
    (omega (arith, size'), (omega (arith, h.0), (omega arith, all)))
octets_of-IsArray zero (g ∷ gs) size h = absurd (omega arith)
octets_of-IsArray (suc n) [] size h = absurd (omega arith)

read_tail-IsArray :
    (head : List ℕ) (s : Text)
    → length head ≤ 7
    → All (λ g. g ≤ 65535) head
    → Got (IsArray 16) (read_tail head s)
unfolding read_tail
read_tail-IsArray head s short all = elim (Option-cases (read_given_char 58 s)) [
  | inl e ↦ rw (read_tail, e) tt
  | inr (s', e) ↦ elim (Option-cases (read_given_char 58 s')) [
    | inl e' ↦ rw (read_tail, e, e') tt
    | inr (s'', e') ↦
        let tail = (read_groups (7 - length head) true s'').0 in
        let (size, more) = read_groups-AreGroups (7 - length head) true s'' in
        let (middle, nothing) = zeros-AreGroups (8 - length tail - length head) in
        rw (read_tail, e, e')
          (octets_of-IsArray 8 (head ++ (zeros (8 - length tail - length head) ++ tail))
            (length-append head (zeros (8 - length tail - length head) ++ tail)
              ∙ ap (λ k. length head + k)
                  (length-append (zeros (8 - length tail - length head)) tail)
              ∙ omega (arith, size, middle, short))
            (All-append (λ g. g ≤ 65535) head (zeros (8 - length tail - length head) ++ tail) all
              (All-append (λ g. g ≤ 65535) (zeros (8 - length tail - length head)) tail nothing
                more)))
  ]
]

read_ipv6-IsArray : (s : Text) → Got (IsArray 16) (read_ipv6 s)
unfolding read_ipv6
read_ipv6-IsArray s =
    let (size, all) = read_groups-AreGroups 8 true s in
    let head = (read_groups 8 true s).0 in
    elim (Bool-cases (length head == 8)) [
      | inl full ↦
          rw (read_ipv6, full) (octets_of-IsArray 8 head ((==_iff (length head) 8).0 full) all)
      | inr short ↦ elim (Bool-cases (read_groups 8 true s).1) [
        | inl embedded ↦ rw (read_ipv6, short, embedded) tt
        | inr hex ↦
            rw (read_ipv6, short, hex)
              (read_tail-IsArray head (read_groups 8 true s).2
                (below_eight (length head) size short) all)
      ]
    ]

whole-lem :
    {A : Type 0} (P : A → Type 0) (o : Option (A × Text)) (a : A) → Got P o → whole o ≡ some a → P a
unfolding whole
whole-lem P none a h e = cc
whole-lem P (some (b, [])) a h e = subst P (some-injective _ _ e) h
whole-lem P (some (b, c ∷ s)) a h e = cc

pub parse_ipv4-IsArray : (s : Text) (a : Bytes) → parse_ipv4 s ≡ some a → IsArray 4 a
unfolding parse_ipv4
parse_ipv4-IsArray s a e = elim (Bool-cases (ltb 15 (length s))) [
  | inl long ↦ absurd (ground arith)
  | inr short ↦
      whole-lem (IsArray 4) (read_ipv4 s) a (read_ipv4-IsArray s) (rw (parse_ipv4, short) at e)
]

pub parse_ipv6-IsArray : (s : Text) (a : Bytes) → parse_ipv6 s ≡ some a → IsArray 16 a
unfolding parse_ipv6
parse_ipv6-IsArray s a e = whole-lem (IsArray 16) (read_ipv6 s) a (read_ipv6-IsArray s) e
