-- ===== src/Resolver/Answers.antt =====
-- What a resolver gives for a key, whatever the servers answer.
use sqns.Base.{
  ℕ, ◌≡◌, refl, Bool, true, false, Option, none, some, List, subst, Bool-cases, Option-cases, inl,
  inr, arith, if◌then◌else◌, ◌⊎◌,
}
use sqns.Bytes.{bytes_eq_sound}
use sqns.Errors.{Result, ok, err, ◌>>◌, Result-cases}
use sqns.Crypto.{Ed25519}
use sqns.Record.{PubKey, SignedRecord, is_terminal, successor, is_superseded, is_revoked}
use sqns.Store.{retirement_error}
use sqns.Record.Authority.{verify_answer, revocation_error}
use sqns.Map.{Map}
use sqns.Cache
use sqns.Cache.{found, missing}
use sqns.Protocol.{Response, lookup, answer, published, counters, records, error}
use sqns.Cache.Verified.{IsAnswer, IsVerified, IsHit, get_sound, insert-IsVerified}
use sqns.Resolver.{
  Resolver, Seen, ServerLink, Fetched, note_rank, take_answer, take_response, after_hit, fetch,
  try_servers, only_live, first_of, lookup_record, lookup_live,
}

module _ (ed : Ed25519) where
  pub verify_answer-IsAnswer :
      (now : ℕ) (k : PubKey) (r : SignedRecord)
      → verify_answer ed r k now ≡ ok tt
      → IsAnswer ed now k r
  unfolding verify_answer
  verify_answer-IsAnswer now k r e = record {
    own_key = ground (arith, bytes_eq_sound r.rec.key k);
    verified = ground arith;
    fresh = ground arith;
  }

  abbrev pub IsFetched : ℕ → PubKey → Fetched → Type 0
  IsFetched now k (ok (some r, next)) = IsAnswer ed now k r
  IsFetched now k _ = Unit

  -- The marks after a fetch: those before, or with a mark of the record that it gives, and of no other.
  abbrev pub IsMarked : Map Seen → Fetched × Resolver → Type 0
  IsMarked m (ok (some rec, next), r) = (r.marks ≡ m) ⊎ (note_rank m rec ≡ ok r.marks)
  IsMarked m (ok (none, next), r) = r.marks ≡ m
  IsMarked m (err e, r) = r.marks ≡ m

  -- A result of a fetch, and the resolver after it, that had the marks `m` before.
  pub record IsSafe (m : Map Seen) (now : ℕ) (k : PubKey) (x : Fetched × Resolver) : Type 0 where
    pub answer : IsFetched now k x.0
    pub cached : IsVerified ed x.1.cache
    pub noted : IsMarked m x

  pub put-IsVerified :
      (caching : Bool) (c : Cache.Cache) (now : ℕ) (k : PubKey) (r : SignedRecord)
      → IsVerified ed c
      → IsAnswer ed now k r
      → IsVerified ed (if caching then Cache.put c r else c)
  unfolding Cache.put
  put-IsVerified true c now k r h a =
      insert-IsVerified ed c r.rec.key (found r) h (refl, a.verified)
  put-IsVerified false c now k r h a = h

  put_missing-IsVerified :
      (caching : Bool) (c : Cache.Cache) (now : ℕ) (k : PubKey)
      → IsVerified ed c
      → IsVerified ed (if caching then Cache.put_missing c now k else c)
  unfolding Cache.put_missing
  put_missing-IsVerified true c now k h = insert-IsVerified ed c k _ h tt
  put_missing-IsVerified false c now k h = h

  take_answer-IsSafe :
      (r : Resolver) (now : ℕ) (k : PubKey) (rec : SignedRecord) (next : Option SignedRecord)
      → IsVerified ed r.cache
      → IsSafe r.marks now k (take_answer ed r now k rec next)
  unfolding take_answer
  take_answer-IsSafe r now k rec next h =
      elim (Result-cases (verify_answer ed rec k now >> note_rank r.marks rec)) [
        | inr (e, bad) ↦ rw (bad, take_answer) (record { answer = tt; cached = h; noted = refl })
        | inl (marks, good) ↦
            let (a, n) : (verify_answer ed rec k now ≡ ok tt) × (note_rank r.marks rec ≡ ok marks) =
              ground arith in
            let whole = verify_answer-IsAnswer now k rec a in
            rw (good, take_answer)
              (record {
                answer = whole;
                cached = put-IsVerified r.caching r.cache now k rec h whole;
                noted = inr n;
              })
      ]

  take_response-IsSafe :
      (r : Resolver) (now : ℕ) (k : PubKey) (p : Result Response)
      → IsVerified ed r.cache
      → IsSafe r.marks now k (take_response ed r now k p)
  unfolding take_response
  take_response-IsSafe r now k (err e) h = record { answer = tt; cached = h; noted = refl }
  take_response-IsSafe r now k (ok (answer (some rec) next)) h =
      take_answer-IsSafe r now k rec next h
  take_response-IsSafe r now k (ok (answer none next)) h = record {
    answer = tt;
    cached = put_missing-IsVerified r.caching r.cache now k h;
    noted = refl;
  }
  take_response-IsSafe r now k (ok (published a b)) h = record {
    answer = tt;
    cached = h;
    noted = refl;
  }
  take_response-IsSafe r now k (ok (counters a)) h = record {
    answer = tt;
    cached = h;
    noted = refl;
  }
  take_response-IsSafe r now k (ok (records a b)) h = record {
    answer = tt;
    cached = h;
    noted = refl;
  }
  take_response-IsSafe r now k (ok (error a b)) h = record { answer = tt; cached = h; noted = refl }

  after_hit-IsSafe :
      (servers : List ServerLink) (r : Resolver) (now : ℕ) (k : PubKey)
      (hit : Option (Option SignedRecord))
      → IsHit ed now k hit
      → IsVerified ed r.cache
      → IsSafe r.marks now k (after_hit ed servers r now k hit)
  unfolding after_hit
  after_hit-IsSafe servers r now k (some (some rec)) a h = record {
    answer = a;
    cached = h;
    noted = inl refl;
  }
  after_hit-IsSafe servers r now k (some none) a h = record {
    answer = tt;
    cached = h;
    noted = refl;
  }
  after_hit-IsSafe servers r now k none a h =
      take_response-IsSafe r now k (try_servers servers (lookup k r.recurse)) h

  -- From a cache whose records are verified, whatever the servers answer: the record that a fetch gives for the key
  -- asked is a verified, unexpired one for that key, the cache then has only verified records, and the marks are those
  -- before, or those with a mark of the record given, which they admit. A fetch that fails or gives no record marks
  -- nothing. The record that an answer brings along for a successor is passed on unchecked, and nothing is said of it.
  pub fetch-IsSafe :
      (servers : List ServerLink) (r : Resolver) (now : ℕ) (k : PubKey)
      → IsVerified ed r.cache
      → IsSafe r.marks now k (fetch ed servers r now k)
  unfolding fetch
  fetch-IsSafe servers r now k h = elim (Bool-cases r.caching) [
    | inl on ↦
        let (hit, kept) = get_sound ed r.cache now k h in
        rw (on, fetch)
          (after_hit-IsSafe servers (record r { cache = (Cache.get r.cache now k).1 }) now k
            (Cache.get r.cache now k).0 hit kept)
    | inr off ↦ rw (off, fetch) (after_hit-IsSafe servers r now k none tt h)
  ]

  retirement_error-is_terminal :
      (r : SignedRecord) → retirement_error r ≡ none → is_terminal r.rec ≡ false
  unfolding retirement_error successor revocation_error is_terminal is_superseded is_revoked
  retirement_error-is_terminal r e = ground arith

  live_of :
      (now : ℕ) (k : PubKey) (got : Fetched) (rec : SignedRecord)
      → IsFetched now k got
      → only_live (first_of got) ≡ ok (some rec)
      → IsAnswer ed now k rec × (is_terminal rec.rec ≡ false)
  live_of now k (ok (some x, next)) rec a e = elim (Option-cases (retirement_error x)) [
    | inl open' ↦
        let same : x ≡ rec = ground arith in
        subst (λ (y : SignedRecord). IsAnswer ed now k y × (is_terminal y.rec ≡ false)) same
          (a, retirement_error-is_terminal x open')
    | inr (er, closed) ↦ absurd (ground arith)
  ]
  live_of now k (ok (none, next)) rec a e = absurd (ground arith)
  live_of now k (err er) rec a e = absurd (ground arith)

  -- From a cache whose records are verified, whatever the servers answer: a record that `lookup_live`
  -- gives is a verified, unexpired record for the key asked, and does not retire it.
  pub lookup_live_sound :
      (servers : List ServerLink) (r : Resolver) (now : ℕ) (k : PubKey) (rec : SignedRecord)
      → IsVerified ed r.cache
      → (lookup_live ed servers r now k).0 ≡ ok (some rec)
      → IsAnswer ed now k rec × (is_terminal rec.rec ≡ false)
  unfolding lookup_live lookup_record
  lookup_live_sound servers r now k rec h e =
      live_of now k (fetch ed servers r now k).0 rec ((fetch-IsSafe servers r now k h).answer) e
