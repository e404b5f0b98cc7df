-- ===== src/Resolver/Listing.antt =====
-- Listings of the records that come under an identity.
use sqns.Base.{ℕ, ◌≡◌, List, [], ◌∷◌, subst, inl, inr, arith}
use sqns.Bytes.{bytes_eq_sound}
use sqns.Errors.{ok, >>=-eq-ok, Result-cases}
use sqns.Crypto.{Ed25519}
use sqns.Record.{PubKey, SignedRecord, identity}
use sqns.Record.Authority.{verify_answer}
use sqns.Protocol.{Response, lookup_identity, answer, published, counters, records, error}
use sqns.Cache.Verified.{IsAnswer}
use sqns.Resolver.{ServerLink, try_servers, check_listed, lookup_identity_records, take_listing}
use sqns.Resolver.Answers.{verify_answer-IsAnswer}

module _ (ed : Ed25519) where
  -- A record in a listing for an identity: issued by it, verified and unexpired.
  abbrev pub IsListed : ℕ → PubKey → List SignedRecord → Type 0
  IsListed now who [] = Unit
  IsListed now who (r ∷ rs) =
      (identity r.rec ≡ who) × IsAnswer ed now r.rec.key r × IsListed now who rs

  check_listed-IsListed :
      (now : ℕ) (who : PubKey) (recs rs : List SignedRecord)
      → check_listed ed now who recs ≡ ok rs
      → IsListed now who rs
  unfolding check_listed
  check_listed-IsListed now who [] rs e =
      let same : [] ≡ rs = ground arith in subst (IsListed now who) same tt
  check_listed-IsListed now who (r ∷ recs) rs e =
      elim (Result-cases (check_listed ed now who recs)) [
        | inr (er, bad) ↦ absurd (ground arith)
        | inl (rest, good) ↦
            let (a, mine, same) : (verify_answer ed r r.rec.key now ≡ ok tt)
                × (identity r.rec ≡ who)
                × (r ∷ rest ≡ rs) =
              ground (arith, bytes_eq_sound (identity r.rec) who) in
            subst (IsListed now who) same (
              mine,
              verify_answer-IsAnswer ed now r.rec.key r a,
              check_listed-IsListed now who recs rest good,
            )
      ]

  take_listing-IsListed :
      (now : ℕ) (who : PubKey) (p : Response) (rs : List SignedRecord)
      → take_listing ed now who p ≡ ok rs
      → IsListed now who rs
  take_listing-IsListed now who (records recs complete) rs e =
      check_listed-IsListed now who recs rs e
  take_listing-IsListed now who (answer a b) rs e = absurd (ground arith)
  take_listing-IsListed now who (published a b) rs e = absurd (ground arith)
  take_listing-IsListed now who (counters a) rs e = absurd (ground arith)
  take_listing-IsListed now who (error a b) rs e = absurd (ground arith)

  -- A listing for an identity that is accepted, whatever the servers answer, has only records that are
  -- verified and unexpired under their own keys and come under that identity.
  pub lookup_identity_records-IsListed :
      (servers : List ServerLink) (now : ℕ) (who : PubKey) (rs : List SignedRecord)
      → lookup_identity_records ed servers now who ≡ ok rs
      → IsListed now who rs
  unfolding lookup_identity_records
  lookup_identity_records-IsListed servers now who rs e =
      let (p, answered, taken) =
        >>=-eq-ok (try_servers servers (lookup_identity who)) (take_listing ed now who) e in
      take_listing-IsListed now who p rs taken
