-- ===== src/Errors.antt =====
-- crates/sqns-core/src/error.rs: the errors of the library, and `Result` with its `?`.
-- The formatted text of a message is left out; what a caller can match on is kept. A key stands in
-- an error by its bytes, where the source writes its base58 form.
use sqns.Base.{ℕ, ap, ◌≡◌, ◌⊎◌, inl, inr, refl, Bool, true, false, if◌then◌else◌, Option}
use sqns.Bytes.{Bytes}

pub data Error : Type 0 where
  io bad_key base58_decode protocol malformed_record signature : Error
  expired : ℕ → Error
  key_mismatch : Bytes → Bytes → Error
  address : Error
  revoked : Bytes → Option Bytes → Bytes → Error
  downgrade : Bytes → Error
  superseded : Bytes → Bytes → Error
  supersede_chain delegation : Error
  unpublished : Bytes → Error
  connection no_server : Error
  server : ℕ → Bytes → Error

pub data Result {ℓ} (A : Type ℓ) : Type ℓ where
  ok : A → Result A
  err : Error → Result A

-- `if !test { return Err(e) }`
abbrev pub check : Bool → Error → Result (Unit {0})
check test e = if test then ok tt else err e

pub check-eq-ok : (test : Bool) (e : Error) → check test e ≡ ok tt → test ≡ true
check-eq-ok true e passed = refl
check-eq-ok false e passed = cc

infixl 5 ◌>>=◌ ◌>>◌
module _ {ℓ κ} {A : Type ℓ} {B : Type κ} where
  -- `?` on a result whose value the rest uses.
  abbrev pub ◌>>=◌ : Result A → (A → Result B) → Result B
  ◌>>=◌ (err e) rest = err e
  ◌>>=◌ (ok x) rest = rest x

-- `?` on a result that is only a check.
abbrev pub ◌>>◌ {κ} : {B : Type κ} → Result (Unit {0}) → Result B → Result B
first >> rest = first >>= λ _. rest

pub >>=-eq-ok {ℓ κ} :
    {A : Type ℓ} {B : Type κ} (first : Result A) (rest : A → Result B) {y : B}
    → (first >>= rest) ≡ ok y
    → (x : A) × (first ≡ ok x) × (rest x ≡ ok y)
>>=-eq-ok (err e) rest whole = cc
>>=-eq-ok (ok x) rest whole = (x, refl, whole)

-- To split on a computed result and keep the equation.
pub Result-cases {ℓ} :
    {A : Type ℓ} (r : Result A) → ((a : A) × (r ≡ ok a)) ⊎ ((e : Error) × (r ≡ err e))
Result-cases (ok a) = inl (a, refl)
Result-cases (err e) = inr (e, refl)

-- What holds of a result, when there is one.
abbrev pub Ensures {ℓ κ} : {A : Type ℓ} → (A → Type κ) → Result A → Type κ
Ensures P (ok a) = P a
Ensures P (err e) = Unit

pub Ensures->>= {ℓ κ} :
    {A : Type ℓ} {B : Type κ} (P : A → Type 0) (Q : B → Type 0) (first : Result A)
    (rest : A → Result B)
    → Ensures P first
    → ((a : A) → P a → Ensures Q (rest a))
    → Ensures Q (first >>= rest)
Ensures->>= P Q (ok a) rest p q = q a p
Ensures->>= P Q (err e) rest p q = tt

pub Ensures-ok {ℓ κ} :
    {A : Type ℓ} (P : A → Type κ) (r : Result A) (a : A) → Ensures P r → r ≡ ok a → P a
Ensures-ok P r a p e = rw e at p

pub ok-injective {ℓ} : {A : Type ℓ} (a b : A) → ok a ≡ ok b → a ≡ b
ok-injective {A = A} a b e = ap (λ (r : Result A). elim r [ ok x ↦ x | err x ↦ a ]) e
