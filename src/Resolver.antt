-- ===== src/Resolver.antt =====
-- crates/sqns-client/src/resolver.rs: looking keys up. A method takes the resolver and the time and returns
-- its result and the resolver after it. A server is a function from a request to what
-- `request_server` gives for it, so the pooled connections are left out.
pub mod Marks
pub mod Answers
pub mod Listing
pub mod Walk
pub mod Publish
pub mod Remote
pub mod Deliver
pub mod Rotation
use sqns.Base.{
  ℕ, Bool, true, false, not, ◌&&◌, Option, none, some, List, [], ◌∷◌, ltb, if◌then◌else◌,
}
use sqns.Bytes.{bytes_eq}
use sqns.Errors.{Error, protocol, Result, ok, err, check, ◌>>=◌, ◌>>◌}
use sqns.Crypto.{Ed25519}
use sqns.Record.{PubKey, Record, SignedRecord, identity, is_terminal}
use sqns.Record.Authority.{verify_answer}
use sqns.Map.{Map, get, insert}
use sqns.Cache
use sqns.Store.{retirement_error}
use sqns.Protocol.{
  Request, lookup, lookup_identity, Response, answer, published, counters, records, error, to_u16,
}

-- How authoritative a record is.
pub record Rank : Type 0 where
  pub terminal : Bool
  pub serial : ℕ

pub record Seen : Type 0 where
  pub rank : Rank
  pub identity : PubKey

pub record Resolver : Type 0 where
  pub caching : Bool
  pub recurse : ℕ
  pub cache : Cache.Cache
  pub marks : Map Seen

abbrev pub ServerLink : Type 0
ServerLink = Request → Result Response

abbrev pub rank_of : Record → Rank
rank_of r = record { terminal = is_terminal r; serial = r.serial }

-- The derived order on ranks: by `terminal` first, and `false` comes before `true`.
unfoldable pub lower : Rank → Rank → Bool
lower a b = elim a.terminal [
  | true ↦ b.terminal && ltb a.serial b.serial
  | false ↦ if b.terminal then true else ltb a.serial b.serial
]

abbrev pub seen_of : SignedRecord → Seen
seen_of r = record { rank = rank_of r.rec; identity = identity r.rec }

unfoldable pub check_seen : Option Seen → PubKey → Seen → Result (Unit {0})
unfolding lower
check_seen none key seen = ok tt
check_seen (some before) key seen = do
  check (bytes_eq before.identity seen.identity) Error.delegation
  check (not (lower seen.rank before.rank)) (Error.downgrade key)

-- What an answer establishes about its key, refused if it contradicts what was seen.
unfoldable pub note_rank : Map Seen → SignedRecord → Result (Map Seen)
unfolding check_seen
note_rank marks r = do
  check_seen (get marks r.rec.key) r.rec.key (seen_of r)
  ok (insert marks r.rec.key (seen_of r))

-- The first server that answers with anything but an error.
unfoldable pub try_servers : List ServerLink → Request → Result Response
try_servers [] req = err Error.no_server
try_servers (server ∷ servers) req = elim (server req) [
  | err e ↦ try_servers servers req
  | ok p ↦ elim p [ error code message ↦ try_servers servers req | other ↦ ok other ]
]

unfoldable pub unexpected : Response → Error
unexpected (error code message) = Error.server (to_u16 code) message
unexpected _ = protocol

abbrev pub Fetched : Type 0
Fetched = Result (Option SignedRecord × Option SignedRecord)

-- A retired key is an error.
abbrev pub only_live : Result (Option SignedRecord) → Result (Option SignedRecord)
only_live (ok (some rec)) = elim (retirement_error rec) [ some e ↦ err e | none ↦ ok (some rec) ]
only_live got = got

-- What `lookup` keeps of a fetch.
abbrev pub first_of : Fetched → Result (Option SignedRecord)
first_of (ok (rec, next)) = ok rec
first_of (err e) = err e

module _ (ed : Ed25519) where
  -- An answer with a record: what becomes of it, and the resolver.
  unfoldable pub take_answer :
      Resolver → ℕ → PubKey → SignedRecord → Option SignedRecord → Fetched × Resolver
  unfolding note_rank
  take_answer r now key rec next = elim (verify_answer ed rec key now >> note_rank r.marks rec) [
    | err e ↦ (err e, r)
    | ok marks ↦ (
      ok (some rec, next),
      record r { marks = marks; cache = if r.caching then Cache.put r.cache rec else r.cache },
    )
  ]

  unfoldable pub take_response : Resolver → ℕ → PubKey → Result Response → Fetched × Resolver
  unfolding take_answer unexpected
  take_response r now key (err e) = (err e, r)
  take_response r now key (ok (answer (some rec) next)) = take_answer r now key rec next
  take_response r now key (ok (answer none next)) = (
    ok (none, none),
    record r { cache = if r.caching then Cache.put_missing r.cache now key else r.cache },
  )
  take_response r now key (ok other) = (err (unexpected other), r)

  unfoldable pub after_hit :
      List ServerLink → Resolver → ℕ → PubKey → Option (Option SignedRecord) → Fetched × Resolver
  unfolding take_response
  after_hit servers r now key (some hit) = (ok (hit, none), r)
  after_hit servers r now key none =
      take_response r now key (try_servers servers (lookup key r.recurse))

  unfoldable pub fetch : List ServerLink → Resolver → ℕ → PubKey → Fetched × Resolver
  unfolding after_hit
  fetch servers r now key = elim r.caching [
    | true ↦
        let (hit, c) = Cache.get r.cache now key in
        after_hit servers (record r { cache = c }) now key hit
    | false ↦ after_hit servers r now key none
  ]

  -- `Resolver::lookup`
  unfoldable pub lookup_record :
      List ServerLink → Resolver → ℕ → PubKey → Result (Option SignedRecord) × Resolver
  unfolding fetch
  lookup_record servers r now key = let (got, r') = fetch servers r now key in (first_of got, r')

  unfoldable pub lookup_live :
      List ServerLink → Resolver → ℕ → PubKey → Result (Option SignedRecord) × Resolver
  unfolding lookup_record
  lookup_live servers r now key =
      let (got, r') = lookup_record servers r now key in (only_live got, r')

  -- The records that a listing for `identity` may hold.
  unfoldable pub check_listed : ℕ → PubKey → List SignedRecord → Result (List SignedRecord)
  check_listed now who [] = ok []
  check_listed now who (rec ∷ recs) = do
    verify_answer ed rec rec.rec.key now
    check (bytes_eq (identity rec.rec) who) Error.delegation
    rest ← check_listed now who recs
    ok (rec ∷ rest)

  abbrev pub take_listing : ℕ → PubKey → Response → Result (List SignedRecord)
  take_listing now who (records recs complete) = check_listed now who recs
  take_listing now who other = err (unexpected other)

  -- `Resolver::lookup_identity`
  unfoldable pub lookup_identity_records : List ServerLink → ℕ → PubKey → Result (List SignedRecord)
  lookup_identity_records servers now who = do
    response ← try_servers servers (lookup_identity who)
    take_listing now who response
