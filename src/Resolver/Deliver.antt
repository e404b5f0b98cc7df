-- ===== src/Resolver/Deliver.antt =====
-- From a publisher to a client: what a server accepted, it answers with.
use sqns.Base.{
  ℕ, ◌≡◌, refl, sym, ap, ◌∙◌, Bool, true, false, Option, none, some, List, [], ◌∷◌, arith, inl, inr,
}
use sqns.Bytes.{bytes_eq_refl}
use sqns.Errors.{ok}
use sqns.Crypto.{Ed25519}
use sqns.Record.{PubKey, SignedRecord, is_expired}
use sqns.Record.Authority.{verify_answer}
use sqns.Record.Authority.Answers.{verify_answer_sound}
use sqns.Map.{Map, get, remove}
use sqns.Map.Laws.{get-remove}
use sqns.Cache
use sqns.Protocol.{lookup, publish, answer, error, ErrorCode}
use sqns.Store.{find}
use sqns.Server.{Server, handle, forwarded}
use sqns.Server.Publish.{handle-publish_outcome}
use sqns.Resolver.{
  Resolver, Seen, ServerLink, Fetched, note_rank, fetch, after_hit, take_response, take_answer,
  try_servers, lookup_record, first_of,
}
use sqns.Resolver.Publish.{
  publish_record, publish_record-lem, tally_result, offer, count_reply, no_reply,
}

module _ (ed : Ed25519) where
  -- A server as a client sees it, message by message; Resolver/Remote has the bytes in between.
  abbrev pub link_of : Server → ℕ → ServerLink
  link_of s now req = ok (handle ed s now req).0

  pub handle_held :
      (s : Server) (now hops : ℕ) (rec : SignedRecord)
      → get s.store.records rec.rec.key ≡ some rec
      → is_expired rec.rec now ≡ false
      → (handle ed s now (lookup rec.rec.key hops)).0
        ≡ answer (some rec) (forwarded s.store now rec)
  unfolding handle find
  handle_held s now hops rec held fresh =
      let found : find s.store now rec.rec.key ≡ some rec = rw (held, find, fresh) refl in
      rw (found, handle) refl

  try_one :
      (server : ServerLink) (key : PubKey) (hops : ℕ) (rec next : Option SignedRecord)
      → server (lookup key hops) ≡ ok (answer rec next)
      → try_servers (server ∷ []) (lookup key hops) ≡ ok (answer rec next)
  unfolding try_servers
  try_one server key hops rec next e = rw (e, try_servers) refl

  after_hit-lem :
      (servers : List ServerLink) (r : Resolver) (now : ℕ) (rec : SignedRecord)
      (next : Option SignedRecord) (marks : Map Seen)
      → verify_answer ed rec rec.rec.key now ≡ ok tt
      → note_rank r.marks rec ≡ ok marks
      → try_servers servers (lookup rec.rec.key r.recurse) ≡ ok (answer (some rec) next)
      → first_of (after_hit ed servers r now rec.rec.key none).0 ≡ ok (some rec)
  unfolding after_hit take_response take_answer
  after_hit-lem servers r now rec next marks v n e = rw (e, take_answer, v, n) refl

  cache_miss :
      (c : Cache.Cache) (now : ℕ) (key : PubKey)
      → Cache.get (Cache.invalidate c key) now key ≡ (none, Cache.invalidate c key)
  unfolding Cache.get Cache.invalidate
  cache_miss c now key = rw (gone, Cache.get) refl
    where
      gone : get (remove c key) key ≡ none
      gone = get-remove c key key ∙ rw (bytes_eq_refl key) refl

  fetch-miss :
      (servers : List ServerLink) (r : Resolver) (now : ℕ) (key : PubKey) (c : Cache.Cache)
      → r.cache ≡ Cache.invalidate c key
      → fetch ed servers r now key ≡ after_hit ed servers r now key none
  unfolding fetch
  fetch-miss servers r now key c e = either r.caching
    where
      looked_up : Option (Option SignedRecord) × Cache.Cache → Fetched × Resolver
      looked_up p = after_hit ed servers (record r { cache = p.1 }) now key p.0

      either :
          (caching : Bool)
          → elim caching [
            | true ↦ looked_up (Cache.get r.cache now key)
            | false ↦ after_hit ed servers r now key none
          ]
            ≡ after_hit ed servers r now key none
      either true =
          ap looked_up (ap (λ (d : Cache.Cache). Cache.get d now key) e ∙ cache_miss c now key)
          ∙ ap (λ (d : Cache.Cache). looked_up (none, d)) (sym e)
      either false = refl

  -- The server's reply to a publication.
  tally_one :
      (server : ServerLink) (rec : SignedRecord) (code : ErrorCode) (serial : ℕ)
      → server (publish rec) ≡ ok (error code [])
      → tally_result (offer (server ∷ []) (publish rec) no_reply) ≡ ok serial
      → ⊥
  unfolding offer count_reply
  tally_one server rec code serial e t = ground (arith, e)

  publish_record-cache :
      (servers : List ServerLink) (r : Resolver) (now : ℕ) (rec : SignedRecord)
      → verify_answer ed rec rec.rec.key now ≡ ok tt
      → (publish_record ed servers r now rec).1
        ≡ record r { cache = Cache.invalidate r.cache rec.rec.key }
  unfolding publish_record
  publish_record-cache servers r now rec v = rw (v, publish_record) refl

  publish_record-verified :
      (servers : List ServerLink) (r : Resolver) (now : ℕ) (rec : SignedRecord) (serial : ℕ)
      → (publish_record ed servers r now rec).0 ≡ ok serial
      → verify_answer ed rec rec.rec.key now ≡ ok tt
  unfolding publish_record
  publish_record-verified servers r now rec serial e = ground arith

  -- A record that a client publishes to a server with success is what the client finds when it then looks
  -- the key up there, at the same time, if it does not contradict what the client had seen of the key.
  pub publish_record-found :
      (s : Server) (r : Resolver) (now serial : ℕ) (rec : SignedRecord) (marks : Map Seen)
      → note_rank r.marks rec ≡ ok marks
      → (publish_record ed (link_of s now ∷ []) r now rec).0 ≡ ok serial
      → (lookup_record ed
          (link_of (handle ed s now (publish rec)).1 now ∷ [])
          (publish_record ed (link_of s now ∷ []) r now rec).1
          now
          rec.rec.key).0
        ≡ ok (some rec)
  unfolding lookup_record
  publish_record-found s r now serial rec marks n e =
      let v = publish_record-verified (link_of s now ∷ []) r now rec serial e in
      let told = sym (publish_record-lem ed (link_of s now ∷ []) r now rec v) ∙ e in
      let t = (handle ed s now (publish rec)).1 in
      elim (handle-publish_outcome ed s now rec) [
        | inr (code, reply, same, pushed) ↦
            absurd (tally_one (link_of s now) rec code serial (ap ok reply) told)
        | inl (reply, held, pushed) ↦
            let fresh = (verify_answer_sound ed rec rec.rec.key now v).4 in
            let q : Resolver = record r { cache = Cache.invalidate r.cache rec.rec.key } in
            let answered =
              try_one (link_of t now) rec.rec.key q.recurse (some rec) (forwarded t.store now rec)
                (ap ok (handle_held t now q.recurse rec held fresh)) in
            ap (λ (u : Resolver). first_of (fetch ed (link_of t now ∷ []) u now rec.rec.key).0)
              (publish_record-cache (link_of s now ∷ []) r now rec v)
            ∙ ap (λ (f : _). first_of f.0)
                (fetch-miss (link_of t now ∷ []) q now rec.rec.key r.cache refl)
            ∙ after_hit-lem (link_of t now ∷ []) q now rec (forwarded t.store now rec) marks v n
                answered
      ]
