-- ===== src/Text/Trim.antt =====
-- Trimming, splitting and stripping texts of known ends.
use sqns.Base.{
  ℕ, ◌≡◌, ◌≢◌, refl, sym, ap, ◌∙◌, append-nil, true, false, none, some, [], ◌∷◌, ◌++◌, All, ◌==◌,
  arith, Bool-cases, inl, inr, if◌then◌else◌,
}
use sqns.Text.{Text, is_whitespace, trim_start, trim_end, trim, split_once, count}

-- The text has no such character.
abbrev pub Lacks : ℕ → Text → Type 0
Lacks c s = All (λ x. (x == c) ≡ false) s

abbrev pub IsSolid : Text → Type 0
IsSolid s = All (λ x. is_whitespace x ≡ false) s

pub trim_end-IsSolid : (s : Text) → IsSolid s → trim_end s ≡ s
unfolding trim_end
trim_end-IsSolid [] h = refl
trim_end-IsSolid (c ∷ s) h = rw (trim_end-IsSolid s h.1, trim_end) (go s)
  where
    go :
        (t : Text)
        → elim t [ [] ↦ if is_whitespace c then [] else c ∷ [] | x ∷ xs ↦ c ∷ (x ∷ xs) ] ≡ c ∷ t
    go [] = rw (h.0) refl
    go (x ∷ xs) = refl

pub trim_end-append : (s t : Text) → t ≢ [] → trim_end t ≡ t → trim_end (s ++ t) ≡ s ++ t
unfolding trim_end
trim_end-append [] t some_text kept = kept
trim_end-append (x ∷ s) t some_text kept =
    rw (trim_end-append s t some_text kept, trim_end) (go (s ++ t) (longer s))
  where
    longer : (u : Text) → u ++ t ≢ []
    longer [] e = some_text e
    longer (y ∷ u) e = cc

    go :
        (u : Text)
        → u ≢ []
        → elim u [ [] ↦ if is_whitespace x then [] else x ∷ [] | y ∷ ys ↦ x ∷ (y ∷ ys) ] ≡ x ∷ u
    go [] h = absurd (h refl)
    go (y ∷ ys) h = refl

trim_start-IsSolid : (s : Text) → IsSolid s → trim_start s ≡ s
unfolding trim_start
trim_start-IsSolid [] h = refl
trim_start-IsSolid (c ∷ s) h = rw (h.0, trim_start) refl

pub trim-IsSolid : (s : Text) → IsSolid s → trim s ≡ s
unfolding trim
trim-IsSolid s h = ap trim_end (trim_start-IsSolid s h) ∙ trim_end-IsSolid s h

pub Lacks-count : (c : ℕ) (s : Text) → count c s ≡ 0 → Lacks c s
unfolding count
Lacks-count c [] h = tt
Lacks-count c (x ∷ s) h = elim (Bool-cases (x == c)) [
  | inl same ↦ absurd (ground arith)
  | inr other ↦ (other, Lacks-count c s (rw (other, count) at h))
]

pub split_once-append :
    (sep : ℕ) (s t : Text) → Lacks sep s → split_once sep (s ++ (sep ∷ t)) ≡ some (s, t)
unfolding split_once
split_once-append sep [] t h = ground arith
split_once-append sep (c ∷ s) t h = rw (split_once-append sep s t h.1, split_once, h.0) refl

pub split_once-Lacks : (sep : ℕ) (s : Text) → Lacks sep s → split_once sep s ≡ none
unfolding split_once
split_once-Lacks sep [] h = refl
split_once-Lacks sep (c ∷ s) h = rw (split_once-Lacks sep s h.1, split_once, h.0) refl

pub count-Lacks : (c : ℕ) (s : Text) → Lacks c s → count c s ≡ 0
unfolding count
count-Lacks c [] h = refl
count-Lacks c (x ∷ s) h = rw (count-Lacks c s h.1, count, h.0) refl

pub count-append : (c : ℕ) (s t : Text) → Lacks c s → count c (s ++ t) ≡ count c t
unfolding count
count-append c [] t h = refl
count-append c (x ∷ s) t h = rw (count-append c s t h.1, count, h.0) refl

trim_end-line : (s : Text) → IsSolid s → trim_end (s ++ (10 ∷ [])) ≡ s
unfolding trim_end is_whitespace
trim_end-line [] h = ground arith
trim_end-line (c ∷ s) h = rw (trim_end-line s h.1, trim_end) (kept s)
  where
    kept :
        (t : Text)
        → elim t [ [] ↦ if is_whitespace c then [] else c ∷ [] | x ∷ xs ↦ c ∷ (x ∷ xs) ] ≡ c ∷ t
    kept [] = rw (h.0) refl
    kept (x ∷ xs) = refl

-- A line without white space, trimmed of its line feed.
pub trim-line : (s : Text) → IsSolid s → trim (s ++ (10 ∷ [])) ≡ s
unfolding trim trim_start trim_end is_whitespace
trim-line [] h = ground arith
trim-line (c ∷ s) h = rw (trim, trim_start, h.0) (trim_end-line (c ∷ s) h)

-- The text is white space, within a line.
abbrev pub IsBlank : Text → Type 0
IsBlank s = All (λ x. (is_whitespace x ≡ true) × ((x == 10) ≡ false)) s

trim_start-IsBlank : (b s : Text) → IsBlank b → trim_start (b ++ s) ≡ trim_start s
unfolding trim_start
trim_start-IsBlank [] s h = refl
trim_start-IsBlank (c ∷ b) s h = rw (trim_start-IsBlank b s h.1, trim_start, h.0.0) refl

trim_end-IsBlank : (s b : Text) → IsBlank b → trim_end (s ++ b) ≡ trim_end s
unfolding trim_end
trim_end-IsBlank [] [] h = refl
trim_end-IsBlank [] (c ∷ b) h = rw (trim_end-IsBlank [] b h.1, trim_end, h.0.0) refl
trim_end-IsBlank (x ∷ s) b h = rw (trim_end-IsBlank s b h, trim_end) refl

-- A text without white space, between blanks.
pub trim-padded : (a s b : Text) → IsBlank a → IsSolid s → IsBlank b → trim (a ++ (s ++ b)) ≡ s
unfolding trim trim_start
trim-padded a [] b ha hs hb =
    ap trim_end
      (trim_start-IsBlank a b ha ∙ ap trim_start (sym (append-nil b)) ∙ trim_start-IsBlank b [] hb)
trim-padded a (c ∷ s) b ha hs hb =
    let start : trim_start (c ∷ (s ++ b)) ≡ c ∷ (s ++ b) = rw (hs.0, trim_start) refl in
    ap trim_end (trim_start-IsBlank a (c ∷ (s ++ b)) ha ∙ start)
    ∙ trim_end-IsBlank (c ∷ s) b hb
    ∙ trim_end-IsSolid (c ∷ s) hs

pub Lacks-IsBlank : (c : ℕ) (b : Text) → is_whitespace c ≡ false → IsBlank b → Lacks c b
Lacks-IsBlank c [] h white = tt
Lacks-IsBlank c (x ∷ b) h white = elim (Bool-cases (x == c)) [
  | inl same ↦
      absurd (let e : x ≡ c = ground arith in ground (arith, ap is_whitespace e, white.0.0))
  | inr other ↦ (other, Lacks-IsBlank c b h white.1)
]
