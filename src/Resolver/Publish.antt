-- ===== src/Resolver/Publish.antt =====
-- crates/sqns-client/src/resolver.rs: `publish`, which offers a record to every server.
use sqns.Base.{
  ℕ, ◌≡◌, ◌≢◌, ◌↔◌, refl, sym, ap, subst, ◌∙◌, Bool, true, false, ◌&&◌, Option, none, some, List,
  [], ◌∷◌, All, arith, if◌then◌else◌,
}
use sqns.Errors.{Error, Result, ok, err}
use sqns.Crypto.{Ed25519}
use sqns.Record.{SignedRecord}
use sqns.Record.Authority.{verify_answer}
use sqns.Cache
use sqns.Protocol.{Request, publish, Response, published, error, ErrorCode, to_u16}
use sqns.Resolver.{Resolver, ServerLink}

-- What the loop over the servers has found.
pub record Tally : Type 0 where
  pub accepted : Option ℕ
  pub stale_only : Bool
  pub any_error : Bool

abbrev pub is_stale_reply : Result Response → Bool
is_stale_reply (ok (error ErrorCode.stale message)) = true
is_stale_reply _ = false

unfoldable pub count_reply : Tally → Result Response → Tally
count_reply t (ok (published serial expires_at)) = record t { accepted = some serial }
count_reply t (ok other) = record t {
  stale_only = t.stale_only && is_stale_reply (ok other);
  any_error = true;
}
count_reply t (err e) = record t { stale_only = false; any_error = true }

unfoldable pub offer : List ServerLink → Request → Tally → Tally
unfolding count_reply
offer [] req t = t
offer (server ∷ servers) req t = offer servers req (count_reply t (server req))

abbrev pub stale_error : Error
stale_error = Error.server (to_u16 ErrorCode.stale) []

abbrev pub tally_result : Tally → Result ℕ
tally_result t = elim t.accepted [
  | some serial ↦ ok serial
  | none ↦ if t.stale_only && t.any_error then err stale_error else err Error.no_server
]

abbrev pub no_reply : Tally
no_reply = record { accepted = none; stale_only = true; any_error = false }

module _ (ed : Ed25519) where
  -- `Resolver::publish`
  unfoldable pub publish_record :
      List ServerLink → Resolver → ℕ → SignedRecord → Result ℕ × Resolver
  unfolding offer
  publish_record servers r now rec = elim (verify_answer ed rec rec.rec.key now) [
    | err e ↦ (err e, r)
    | ok _ ↦ (
      tally_result (offer servers (publish rec) no_reply),
      record r { cache = Cache.invalidate r.cache rec.rec.key },
    )
  ]

-- What is run with one server sends it this very record: a run with any server that fails to answer the publication of
-- this record does not succeed, whatever that server answers to every other request.
abbrev pub Sends : {A : Type 0} → (List ServerLink → Result A) → SignedRecord → Type 0
Sends {A} run rec =
    (server : ServerLink) (e : Error) (result : A)
    → server (publish rec) ≡ err e
    → run (server ∷ []) ≢ ok result

-- Every server refuses the request as stale.
abbrev pub AllStale : Request → List ServerLink → Type 0
AllStale req servers = All (λ (server : ServerLink). is_stale_reply (server req) ≡ true) servers

stale_tally :
    (t : Tally)
    → tally_result t ≡ err stale_error
    → (t.accepted ≡ none) × (t.stale_only ≡ true) × (t.any_error ≡ true)
stale_tally t e = (ground arith, ground arith, ground arith)

tally_stale :
    (t : Tally)
    → t.accepted ≡ none
    → t.stale_only ≡ true
    → t.any_error ≡ true
    → tally_result t ≡ err stale_error
tally_stale t a b c = rw (a, b, c) refl

count_stale :
    (t : Tally) (reply : Result Response)
    → (count_reply t reply).accepted ≡ none
    → (count_reply t reply).stale_only ≡ true
    → (t.accepted ≡ none) × (t.stale_only ≡ true) × (is_stale_reply reply ≡ true)
unfolding count_reply
count_stale t reply a b = (ground arith, ground arith, ground arith)

stale_count :
    (t : Tally) (reply : Result Response)
    → is_stale_reply reply ≡ true
    → t.accepted ≡ none
    → t.stale_only ≡ true
    → count_reply t reply ≡ record { accepted = none; stale_only = true; any_error = true }
unfolding count_reply
stale_count t reply h a b = ground arith

offer_sound :
    (servers : List ServerLink) (req : Request) (t : Tally)
    → tally_result (offer servers req t) ≡ err stale_error
    → (t.accepted ≡ none) × (t.stale_only ≡ true) × AllStale req servers
unfolding offer
offer_sound [] req t e = let (a, b, c) = stale_tally t e in (a, b, tt)
offer_sound (server ∷ servers) req t e =
    let (a, b, all) = offer_sound servers req (count_reply t (server req)) e in
    let (a', b', stale) = count_stale t (server req) a b in (a', b', (stale, all))

abbrev refused_all : Tally
refused_all = record { accepted = none; stale_only = true; any_error = true }

offer_complete :
    (servers : List ServerLink) (req : Request)
    → AllStale req servers
    → offer servers req refused_all ≡ refused_all
unfolding offer
offer_complete [] req all = refl
offer_complete (server ∷ servers) req (stale, all) =
    ap (offer servers req) (stale_count refused_all (server req) stale refl refl)
    ∙ offer_complete servers req all

module _ (ed : Ed25519) where
  pub publish_record-lem :
      (servers : List ServerLink) (r : Resolver) (now : ℕ) (rec : SignedRecord)
      → verify_answer ed rec rec.rec.key now ≡ ok tt
      → (publish_record ed servers r now rec).0
        ≡ tally_result (offer servers (publish rec) no_reply)
  unfolding publish_record
  publish_record-lem servers r now rec good = rw (good, publish_record) refl

  pub publish_record_one :
      (server : ServerLink) (r : Resolver) (now serial end : ℕ) (rec : SignedRecord)
      → verify_answer ed rec rec.rec.key now ≡ ok tt
      → server (publish rec) ≡ ok (published serial end)
      → (publish_record ed (server ∷ []) r now rec).0 ≡ ok serial
  unfolding offer count_reply
  publish_record_one server r now serial end rec good e =
      publish_record-lem (server ∷ []) r now rec good ∙ rw (offer, e, count_reply) refl

  pub publish_record_lost :
      (server : ServerLink) (r : Resolver) (now : ℕ) (e : Error) (rec : SignedRecord)
      → verify_answer ed rec rec.rec.key now ≡ ok tt
      → server (publish rec) ≡ err e
      → (publish_record ed (server ∷ []) r now rec).0 ≡ err Error.no_server
  unfolding offer count_reply
  publish_record_lost server r now e rec good lost =
      publish_record-lem (server ∷ []) r now rec good ∙ rw (offer, lost, count_reply) refl

  -- A record that passes a client's own checks is reported as stale exactly if there is a server and
  -- every server refuses it as stale: one server that accepts it, fails or refuses it for another
  -- reason makes the difference.
  pub publish_record_stale :
      (servers : List ServerLink) (r : Resolver) (now : ℕ) (rec : SignedRecord)
      → verify_answer ed rec rec.rec.key now ≡ ok tt
      → ((publish_record ed servers r now rec).0 ≡ err stale_error)
        ↔ ((servers ≢ []) × AllStale (publish rec) servers)
  unfolding offer
  publish_record_stale servers r now rec good = (sound servers refl, complete servers refl)
    where
      lem :
          (ss : List ServerLink)
          → servers ≡ ss
          → (publish_record ed servers r now rec).0 ≡ tally_result (offer ss (publish rec) no_reply)
      lem ss same =
          publish_record-lem servers r now rec good
          ∙ ap (λ (l : List ServerLink). tally_result (offer l (publish rec) no_reply)) same

      sound :
          (ss : List ServerLink)
          → servers ≡ ss
          → (publish_record ed servers r now rec).0 ≡ err stale_error
          → (servers ≢ []) × AllStale (publish rec) servers
      sound [] same e = absurd (ground (arith, lem [] same))
      sound (s ∷ ss) same e = (
        λ empty. cc,
        rw same ((offer_sound (s ∷ ss) (publish rec) no_reply (sym (lem (s ∷ ss) same) ∙ e)).2),
      )

      complete :
          (ss : List ServerLink)
          → servers ≡ ss
          → (servers ≢ []) × AllStale (publish rec) servers
          → (publish_record ed servers r now rec).0 ≡ err stale_error
      complete [] same (some_server, all) = absurd (some_server same)
      complete (s ∷ ss) same (some_server, all) =
          let (stale, rest) : AllStale (publish rec) (s ∷ ss) =
            subst (AllStale (publish rec)) same all in
          lem (s ∷ ss) same
          ∙ ap (λ (t : Tally). tally_result (offer ss (publish rec) t))
              (stale_count no_reply (s (publish rec)) stale refl refl)
          ∙ ap tally_result (offer_complete ss (publish rec) rest)
