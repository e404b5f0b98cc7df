-- ===== src/Publisher/First.antt =====
-- The first publication of a service key at a server that has not heard of it.
use sqns.Base.{
  ℕ, ◌+◌, ◌^◌, ◌<◌, ◌≡◌, refl, sym, ap, ◌∙◌, true, false, ◌&&◌, none, some, List, [], ◌∷◌, length,
  leb, arith, subst, All,
}
use sqns.Bytes.{bytes_eq, bytes_eq_refl}
use sqns.Errors.{Error, Result, ok, err, ok-injective}
use sqns.Crypto.{Ed25519, IsEd25519}
use sqns.Map.{get}
use sqns.Record.{
  PubKey, Endpoint, Delegation, SignedRecord, Record, endpoints, delegation_expired,
  expected_signer, min_ttl, max_ttl, max_endpoints,
}
use sqns.Record.Authority.{
  new_live, validate, validate_body, sign, verify_delegation, verify_answer, signed_message,
}
use sqns.Record.Wire.{encode_record, encode_body, encode_endpoint}
use sqns.Record.Wire.Layout.{IsEndpoint, IsDelegation, IsSigned}
use sqns.Record.Wire.Sizes.{length-encode_record}
use sqns.Codec.{encode_all}
use sqns.Store.{Store, stored, put, admit, replace, check_retired, check_bound, outranked}
use sqns.Store.Invariant.{get-records-replace}
use sqns.Protocol.{publish}
use sqns.Server.{Server, handle}
use sqns.Server.Publish.{handle_stored}
use sqns.Resolver.{Resolver, ServerLink}
use sqns.Resolver.Publish.{Sends, publish_record, publish_record_one, publish_record_lost}
use sqns.Resolver.Remote.{server_link, server_link-stored}
use sqns.Publisher
use sqns.Publisher.{Publisher, key, sign_next, publish_next, publish_endpoints}
use sqns.Publisher.Serial.{Signs, sign_next-Signs, Signs-admit}

module _ (ed : Ed25519) where
  -- A publisher that may publish such endpoints.
  pub record CanPublish (p : Publisher) (now : ℕ) (eps : List Endpoint) : Type 0 where
    pub granted : verify_delegation ed p.delegation (key ed p) ≡ ok tt
    pub other : bytes_eq p.delegation.identity (key ed p) ≡ false
    pub current : delegation_expired p.delegation now ≡ false
    pub few : leb (length eps) max_endpoints ≡ true
    pub ttl : (leb min_ttl p.ttl && leb p.ttl max_ttl) ≡ true
    pub sized : IsDelegation p.delegation
    pub serial : p.serial < 2 ^ 64
    pub valid : All IsEndpoint eps
    pub small : length (encode_all encode_endpoint eps) < 65_377

  identity_valid :
      (d : Delegation) (service : PubKey)
      → verify_delegation ed d service ≡ ok tt
      → ed.is_valid_key d.identity ≡ true
  unfolding verify_delegation
  identity_valid d service e = ground arith

  new_live-valid :
      (p : Publisher) (now : ℕ) (eps : List Endpoint)
      → IsEd25519 ed
      → CanPublish p now eps
      → validate ed (new_live now (key ed p) p.delegation p.serial p.ttl eps) ≡ ok tt
  unfolding validate validate_body new_live
  new_live-valid p now eps law h =
      rw
        (
          law.public_key_valid p.signing_key,
          identity_valid p.delegation (key ed p) h.granted,
          h.other,
          h.few,
          h.ttl,
        )
        refl

  abbrev next_record : Publisher → ℕ → List Endpoint → Record
  next_record p now eps = new_live now (key ed p) p.delegation p.serial p.ttl eps

  sign-next_record :
      (p : Publisher) (now : ℕ) (eps : List Endpoint)
      → (x : SignedRecord) × (sign ed (next_record p now eps) p.signing_key ≡ ok x)
  unfolding sign expected_signer new_live
  sign-next_record p now eps = (
    record {
      rec = next_record p now eps;
      signature =
          ed.sign_bytes p.signing_key (signed_message (encode_record (next_record p now eps)));
    },
    rw (bytes_eq_refl (key ed p)) refl,
  )

  -- The record that is signed travels whole: what it takes fits the 16 bits of its length.
  next_record-IsSigned :
      (p : Publisher) (now : ℕ) (eps : List Endpoint) (x : SignedRecord)
      → IsEd25519 ed
      → now < 2 ^ 64
      → CanPublish p now eps
      → sign ed (next_record p now eps) p.signing_key ≡ ok x
      → IsSigned x
  unfolding sign expected_signer new_live encode_body
  next_record-IsSigned p now eps x law early h signed =
      let r = next_record p now eps in
      let size = length-encode_record r (law.public_key_size p.signing_key) h.sized in
      let whole : IsSigned (record {
        rec = r;
        signature = ed.sign_bytes p.signing_key (signed_message (encode_record r));
      }) =
        record {
          rec = record {
            key = law.public_key_size p.signing_key;
            delegation = h.sized;
            serial = h.serial;
            issued_at = early;
            ttl = ground (arith, h.ttl);
            body = (ground (arith, h.few), h.valid);
          };
          signature = law.signature_size p.signing_key (signed_message (encode_record r));
          fits = omega (arith, size, h.small);
        } in
      subst IsSigned (ok-injective _ x (rw (bytes_eq_refl (key ed p)) at signed)) whole

  sign_next-eq :
      (p : Publisher) (now : ℕ) (eps : List Endpoint)
      → IsEd25519 ed
      → CanPublish p now eps
      → (x : SignedRecord) × ((sign_next ed p now eps).0 ≡ ok x)
        × (sign ed (next_record p now eps) p.signing_key ≡ ok x)
  unfolding sign_next
  sign_next-eq p now eps law h =
      let (x, signed) = sign-next_record p now eps in
      (x, rw (new_live-valid p now eps law h) signed, signed)

  put_first :
      (s : Store) (now : ℕ) (x : SignedRecord)
      → admit ed now x ≡ ok tt
      → get s.records x.rec.key ≡ none
      → get s.bindings x.rec.key ≡ none
      → put ed s now x ≡ ok (stored, replace s x)
  unfolding put check_retired check_bound outranked
  put_first s now x a h b = rw (a, h, b) refl

  admit-verify_answer :
      (now : ℕ) (x : SignedRecord)
      → admit ed now x ≡ ok tt
      → verify_answer ed x x.rec.key now ≡ ok tt
  unfolding admit verify_answer
  admit-verify_answer now x a = ground (arith, bytes_eq_refl x.rec.key)

  publish_next-eq :
      (servers : List ServerLink) (r : Resolver) (now : ℕ) (p : Publisher) (eps : List Endpoint)
      (x : SignedRecord) (got : Result ℕ)
      → (sign_next ed p now eps).0 ≡ ok x
      → (publish_record ed servers r now x).0 ≡ got
      → (publish_next ed servers r now p eps).0 ≡ got
  unfolding publish_next
  publish_next-eq servers r now p eps x got signed sent = rw (publish_next, signed) sent

  publish_endpoints-eq :
      (servers : ℕ → List ServerLink) (r : Resolver) (now : ℕ) (p : Publisher) (eps : List Endpoint)
      (got : Result ℕ)
      → Publisher.is_stale got ≡ false
      → (publish_next ed (servers 0) r now p eps).0 ≡ got
      → (publish_endpoints ed servers r now p eps).0 ≡ got
  unfolding publish_endpoints
  publish_endpoints-eq servers r now p eps got first e = rw (publish_endpoints, e, first) e

  -- A run that publishes to a server, over a connection by bytes: it succeeds with the serial number. The record that
  -- it sends, without which it would not succeed, is the one that the server then holds for the key, and has the
  -- endpoints and the number.
  abbrev pub Publishes :
      (List ServerLink → Result ℕ) → Server → ℕ → PubKey → List Endpoint → ℕ → Type 0
  Publishes run s now k eps serial =
      (run (server_link ed s now ∷ []) ≡ ok serial)
      × ((rec : SignedRecord) × Sends run rec
          × (get (handle ed s now (publish rec)).1.store.records k ≡ some rec)
          × (endpoints rec.rec ≡ eps)
          × (rec.rec.serial ≡ serial))

  new_live-parts :
      (p : Publisher) (now : ℕ) (eps : List Endpoint) (x : SignedRecord)
      → Signs ed p now eps x
      → (x.rec.key ≡ key ed p) × (endpoints x.rec ≡ eps) × (x.rec.serial ≡ p.serial)
  unfolding new_live endpoints
  new_live-parts p now eps x h =
      (ap (λ (r : Record). r.key) h.same, ap endpoints h.same, ap (λ (r : Record). r.serial) h.same)

  -- The outcome of the record that is signed first, unless a server calls it stale.
  first_outcome :
      (servers : List ServerLink) (r : Resolver) (now : ℕ) (p : Publisher) (eps : List Endpoint)
      (x : SignedRecord) (got : Result ℕ)
      → (sign_next ed p now eps).0 ≡ ok x
      → Publisher.is_stale got ≡ false
      → (publish_record ed servers r now x).0 ≡ got
      → (publish_endpoints ed (λ n. servers) r now p eps).0 ≡ got
  first_outcome servers r now p eps x got signed first sent =
      publish_endpoints-eq (λ n. servers) r now p eps got first
        (publish_next-eq servers r now p eps x got signed sent)

  publish_endpoints-Sends :
      (r : Resolver) (now : ℕ) (p : Publisher) (eps : List Endpoint) (x : SignedRecord)
      → (sign_next ed p now eps).0 ≡ ok x
      → verify_answer ed x x.rec.key now ≡ ok tt
      → Sends (λ servers. (publish_endpoints ed (λ n. servers) r now p eps).0) x
  unfolding Publisher.is_stale
  publish_endpoints-Sends r now p eps x signed good server e n lost done =
      let failed =
        first_outcome (server ∷ []) r now p eps x (err Error.no_server) signed refl
          (publish_record_lost ed server r now e x good lost) in
      absurd (ground (arith, failed, done))

  pub publish_first :
      (s : Server) (r : Resolver) (now : ℕ) (p : Publisher) (eps : List Endpoint)
      → IsEd25519 ed
      → now + 1 < 2 ^ 64
      → CanPublish p now eps
      → get s.store.records (key ed p) ≡ none
      → get s.store.bindings (key ed p) ≡ none
      → Publishes
          (λ servers. (publish_endpoints ed (λ n. servers) r now p eps).0)
          s
          now
          (key ed p)
          eps
          p.serial
  unfolding Publisher.is_stale
  publish_first s r now p eps law early h unknown unbound =
      let (x, signed, made) = sign_next-eq p now eps law h in
      let signs = sign_next-Signs ed p now eps x law h.granted signed in
      let (mine, carried, numbered) = new_live-parts p now eps x signs in
      let a = Signs-admit ed p now eps x signs early h.current in
      let good = admit-verify_answer now x a in
      let put_x =
        put_first s.store now x a (ap (get s.store.records) mine ∙ unknown)
          (ap (get s.store.bindings) mine ∙ unbound) in
      let done = handle_stored ed s now x (replace s.store x) put_x in
      let whole = next_record-IsSigned p now eps x law (omega arith) h made in
      let sent =
        publish_record_one ed (server_link ed s now) r now _ _ x good
          (server_link-stored ed s now x whole put_x) in
      (
        first_outcome (server_link ed s now ∷ []) r now p eps x (ok p.serial) signed refl
            (sent ∙ ap ok numbered),
        (
          x,
          publish_endpoints-Sends r now p eps x signed good,
          rw done (
              get-records-replace s.store x (key ed p)
              ∙ rw (sym mine, bytes_eq_refl x.rec.key) refl),
          carried,
          numbered,
        ),
      )
