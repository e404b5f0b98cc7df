-- ===== src/Bytes/Equality.antt =====
-- Equality and order of byte strings, as `==` and `Ord` of arrays and slices decide them.
use sqns.Base.{◌≡◌, refl, ◌↔◌, Bool, true, false, ◌&&◌, [], ◌∷◌, arith, ltb, ◌==◌, if◌then◌else◌}
use sqns.Bytes.BigEndian.{Bytes}

unfoldable pub bytes_eq : Bytes → Bytes → Bool
bytes_eq [] [] = true
bytes_eq (a ∷ as') (b ∷ bs) = a == b && bytes_eq as' bs
bytes_eq _ _ = false

-- Lexicographic, the shorter first.
unfoldable pub bytes_lt : Bytes → Bytes → Bool
bytes_lt [] [] = false
bytes_lt [] (b ∷ bs) = true
bytes_lt (a ∷ as') [] = false
bytes_lt (a ∷ as') (b ∷ bs) = if ltb a b then true else (a == b && bytes_lt as' bs)

pub bytes_eq_refl : (a : Bytes) → bytes_eq a a ≡ true
unfolding bytes_eq
bytes_eq_refl [] = refl
bytes_eq_refl (a ∷ as') = ground (arith, bytes_eq_refl as')

pub bytes_eq_sound : (a b : Bytes) → bytes_eq a b ≡ true → a ≡ b
unfolding bytes_eq
bytes_eq_sound [] [] h = refl
bytes_eq_sound [] (b ∷ bs) h = cc
bytes_eq_sound (a ∷ as') [] h = cc
bytes_eq_sound (a ∷ as') (b ∷ bs) h = ground (arith, bytes_eq_sound as' bs)

pub bytes_eq_complete : (a b : Bytes) → a ≡ b → bytes_eq a b ≡ true
bytes_eq_complete a b p = rw (← p) (bytes_eq_refl a)

pub bytes_eq_iff : (a b : Bytes) → (bytes_eq a b ≡ true) ↔ (a ≡ b)
bytes_eq_iff a b = (bytes_eq_sound a b, bytes_eq_complete a b)
