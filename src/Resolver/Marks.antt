-- ===== src/Resolver/Marks.antt =====
-- What a resolver has seen of a key holds for all that it accepts later.
use sqns.Base.{◌≡◌, refl, sym, ap, ◌∙◌, false, some, Bool-cases, inl, inr, arith}
use sqns.Bytes.{bytes_eq, bytes_eq_sound, bytes_eq_refl}
use sqns.Errors.{ok}
use sqns.Record.{PubKey, SignedRecord, identity}
use sqns.Map.{Map, get, insert}
use sqns.Map.Laws.{get-insert}
use sqns.Resolver.{Rank, Seen, lower, rank_of, seen_of, check_seen, note_rank}

-- A later mark of a key: of the same identity, and of no lower rank.
pub record Keeps (before later : Seen) : Type 0 where
  pub same_identity : later.identity ≡ before.identity
  pub no_lower : lower later.rank before.rank ≡ false

-- The marks after any number of answers that were accepted.
pub data Notes (m : Map Seen) : Map Seen → Type 0 where
  begin : Notes m m
  then_note :
      {n : Map Seen} (r : SignedRecord) (o : Map Seen)
      → Notes m n
      → note_rank n r ≡ ok o
      → Notes m o

lower_refl : (a : Rank) → lower a a ≡ false
unfolding lower
lower_refl a = ground arith

lower_trans : (a b c : Rank) → lower b a ≡ false → lower c b ≡ false → lower c a ≡ false
unfolding lower
lower_trans a b c h k = ground arith

Keeps-refl : (a : Seen) → Keeps a a
Keeps-refl a = record { same_identity = refl; no_lower = lower_refl a.rank }

Keeps-trans : (a b c : Seen) → Keeps a b → Keeps b c → Keeps a c
Keeps-trans a b c h k = record {
  same_identity = k.same_identity ∙ h.same_identity;
  no_lower = lower_trans a.rank b.rank c.rank h.no_lower k.no_lower;
}

note_rank-eq-ok :
    (m n : Map Seen) (r : SignedRecord) → note_rank m r ≡ ok n → n ≡ insert m r.rec.key (seen_of r)
unfolding note_rank
note_rank-eq-ok m n r e = ground arith

note_rank-Keeps :
    (m n : Map Seen) (r : SignedRecord) (before : Seen)
    → note_rank m r ≡ ok n
    → get m r.rec.key ≡ some before
    → Keeps before (seen_of r)
unfolding note_rank check_seen
note_rank-Keeps m n r before e g = record {
  same_identity = ground (arith, bytes_eq_sound before.identity (identity r.rec));
  no_lower = ground arith;
}

get-note_rank :
    (m n : Map Seen) (r : SignedRecord) → note_rank m r ≡ ok n → get n r.rec.key ≡ some (seen_of r)
get-note_rank m n r e =
    rw (note_rank-eq-ok m n r e)
      (get-insert m r.rec.key r.rec.key (seen_of r) ∙ rw (bytes_eq_refl r.rec.key) refl)

step-Keeps :
    (n o : Map Seen) (r : SignedRecord) (k : PubKey) (before : Seen)
    → note_rank n r ≡ ok o
    → get n k ≡ some before
    → (later : Seen) × (get o k ≡ some later) × Keeps before later
step-Keeps n o r k before e g = elim (Bool-cases (bytes_eq r.rec.key k)) [
  | inl same ↦
      let key : r.rec.key ≡ k = bytes_eq_sound r.rec.key k same in
      (
        seen_of r,
        ap (get o) (sym key) ∙ get-note_rank n o r e,
        note_rank-Keeps n o r before e (ap (get n) key ∙ g),
      )
  | inr other ↦ (
    before,
    rw (note_rank-eq-ok n o r e) (get-insert n r.rec.key k (seen_of r) ∙ rw other g),
    Keeps-refl before,
  )
]

Notes-Keeps :
    (m n : Map Seen) (k : PubKey) (before : Seen)
    → get m k ≡ some before
    → Notes m n
    → (later : Seen) × (get n k ≡ some later) × Keeps before later
Notes-Keeps m n k before g begin = (before, g, Keeps-refl before)
Notes-Keeps m n k before g (then_note r o h e) =
    let (mid, held, kept) = Notes-Keeps m _ k before g h in
    let (later, held', kept') = step-Keeps _ n r k mid e held in
    (later, held', Keeps-trans before mid later kept kept')

-- After a resolver has accepted an answer for a key, and then any others, it accepts no answer for the
-- key that comes under another identity or ranks lower: none that is live if the first retired the key,
-- and none with a smaller serial number if both or neither do.
pub note_rank_no_downgrade :
    (m n o p : Map Seen) (r x : SignedRecord)
    → note_rank m r ≡ ok n
    → Notes n o
    → note_rank o x ≡ ok p
    → x.rec.key ≡ r.rec.key
    → (identity x.rec ≡ identity r.rec) × (lower (rank_of x.rec) (rank_of r.rec) ≡ false)
note_rank_no_downgrade m n o p r x e h f key =
    let (mid, held, kept) = Notes-Keeps n o r.rec.key (seen_of r) (get-note_rank m n r e) h in
    let last = note_rank-Keeps o p x mid f (ap (get o) key ∙ held) in
    let whole = Keeps-trans (seen_of r) mid (seen_of x) kept last in
    (whole.same_identity, whole.no_lower)
