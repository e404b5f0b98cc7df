-- ===== src/Cli/Revoke.antt =====
-- What `revoke` does to a key, at a server that knows the key's identity.
use std.Path.{fun_ext}
use sqns.Base.{
  ◌<◌, ◌^◌, ◌%◌, length, length-append, arith, subst, sym, ℕ, ◌≡◌, refl, ◌∙◌, Bool, true, false,
  ◌||◌, some, List, [], ◌∷◌,
}
use sqns.Bytes.{Bytes, IsArray, be_bytes, length-be_bytes, bytes_eq_refl}
use sqns.Errors.{Error, Result, ok, err}
use sqns.Crypto.{Ed25519, IsEd25519}
use sqns.Map.{get}
use sqns.Record.{PubKey, SignedRecord, is_revoked}
use sqns.Record.Authority.{new_revoked, issue}
use sqns.Store.{Store, check_retired, replace}
use sqns.Store.Invariant.{get-records-replace}
use sqns.Protocol.{publish}
use sqns.Server.{Server, handle}
use sqns.Resolver.{Resolver, ServerLink}
use sqns.Server.Publish.{handle_stored}
use sqns.Resolver.Publish.{Sends, publish_record, publish_record_one, publish_record_lost}
use sqns.Resolver.Remote.{server_link, server_link-stored}
use sqns.Record.{max_reason_len}
use sqns.Record.Wire.{encode_body}
use sqns.Record.Wire.Layout.{IsDelegation, IsSigned}
use sqns.Record.Wire.Sizes.{length-encode_record}
use sqns.Codec.{put_string}
use sqns.Codec.Consumes.{IsText}
use sqns.Key.{Encodings}
use sqns.Text.{Text}
use sqns.Files.{PathName, Disk}
use sqns.Cli.{
  retirement_delegation, load_key, read_pubkey, agrees, revoking, revoke_all, revoke_targets,
  revoke_plan, revoke,
}
use sqns.Cli.Retire.{MayRevoke, revocation, put-revocation, verify_answer-revocation, revoking-eq}

module _ (ed : Ed25519) (enc : Encodings) where
  revoke_all_one :
      (servers : ℕ → List ServerLink) (r : Resolver) (now : ℕ) (who : Bytes) (target : PubKey)
      (reason : Bytes) (serial : ℕ) (rec : SignedRecord)
      → revoking ed enc now who target reason ≡ ok rec
      → (publish_record ed (servers 0) r now rec).0 ≡ ok serial
      → ((revoke_all ed enc servers r now who reason (target ∷ [])).0 ≡ ok tt)
        × ((revoke_all ed enc servers r now who reason (target ∷ [])).1 ≡ target ∷ [])
  unfolding revoke_all
  revoke_all_one servers r now who target reason serial rec made sent =
      (rw (revoke_all, made, sent) refl, rw (revoke_all, made, sent) refl)

  revoked_held :
      (s : Store) (now : ℕ) (who : Bytes) (target : PubKey) (reason : Bytes)
      → get (replace s (revocation ed enc now who target reason)).records target
        ≡ some (revocation ed enc now who target reason)
  unfolding new_revoked
  revoked_held s now who target reason =
      get-records-replace s (revocation ed enc now who target reason) target
      ∙ rw (bytes_eq_refl target) refl

  revocation-IsSigned :
      (now : ℕ) (who : Bytes) (target : PubKey) (reason : Bytes)
      → IsEd25519 ed
      → now < 2 ^ 64
      → IsArray 32 target
      → IsText max_reason_len reason
      → IsSigned (revocation ed enc now who target reason)
  unfolding new_revoked retirement_delegation issue encode_body put_string
  revocation-IsSigned now who target reason h early size text =
      let x = revocation ed enc now who target reason in
      let granted : IsDelegation x.rec.delegation = record {
        identity = h.public_key_size who;
        not_after = omega arith;
        signature = h.signature_size who _;
      } in
      record {
        rec = record {
          key = size;
          delegation = granted;
          serial = early;
          issued_at = early;
          ttl = omega arith;
          body = (text.0, text.1, omega (arith, text.2));
        };
        signature = h.signature_size who _;
        fits = omega (
          arith,
          text.2,
          length-encode_record x.rec size granted,
          length-append (be_bytes 2 (length reason % 2 ^ 16)) reason,
          length-be_bytes 2 (length reason % 2 ^ 16),
        );
      }

  -- A run that revokes a key at a server, over a connection by bytes: it succeeds and reports that key and no other. The
  -- record that it sends, without which it would not succeed, is a revocation that the server then holds for the key.
  abbrev pub Retires :
      (List ServerLink → Result (Unit {0}) × List PubKey × Resolver) → Server → ℕ → PubKey → Type 0
  Retires run s now target =
      ((run (server_link ed s now ∷ [])).0 ≡ ok tt)
      × ((run (server_link ed s now ∷ [])).1 ≡ target ∷ [])
      × ((rec : SignedRecord) × Sends (λ servers. (run servers).0) rec
          × (get (handle ed s now (publish rec)).1.store.records target ≡ some rec)
          × (is_revoked rec.rec ≡ true))

  revoke_all_lost :
      (servers : List ServerLink) (r : Resolver) (now : ℕ) (who : Bytes) (target : PubKey)
      (reason : Bytes) (e : Error) (rec : SignedRecord)
      → revoking ed enc now who target reason ≡ ok rec
      → (publish_record ed servers r now rec).0 ≡ err e
      → (revoke_all ed enc (λ n. servers) r now who reason (target ∷ [])).0 ≡ err e
  unfolding revoke_all
  revoke_all_lost servers r now who target reason e rec made lost = rw (revoke_all, made, lost) refl

  revoke_all-Retires :
      (s : Server) (r : Resolver) (now : ℕ) (who : Bytes) (target : PubKey) (reason : Bytes)
      → IsEd25519 ed
      → now < 2 ^ 64
      → IsArray 32 target
      → IsText max_reason_len reason
      → MayRevoke ed enc who target reason
      → get s.store.bindings target ≡ some (ed.public_key who)
      → check_retired (get s.store.records target) ≡ ok tt
      → Retires
          (λ servers. revoke_all ed enc (λ n. servers) r now who reason (target ∷ []))
          s
          now
          target
  revoke_all-Retires s r now who target reason h early size text may bound open_key =
      let rec = revocation ed enc now who target reason in
      let stores = put-revocation ed enc s.store now who target reason h may bound open_key in
      let done = handle_stored ed s now rec (replace s.store rec) stores in
      let good = verify_answer-revocation ed enc now who target reason h may in
      let made = revoking-eq ed enc now who target reason in
      let sent = publish_record_one ed (server_link ed s now) r now _ _ rec good (
        server_link-stored ed s now rec
          (revocation-IsSigned now who target reason h early size text) stores) in
      let (reported, keys) =
        revoke_all_one (λ n. server_link ed s now ∷ []) r now who target reason _ rec made sent in
      (
        reported,
        keys,
        (
          rec,
          λ server e result lost finished.
              let failed =
                revoke_all_lost (server ∷ []) r now who target reason Error.no_server rec made
                  (publish_record_lost ed server r now e rec good lost) in
              absurd (ground (arith, failed, finished)),
          rw done (revoked_held s.store now who target reason),
          (unfold is_revoked in unfold new_revoked in refl),
        ),
      )

  revoke_one :
      (d : Disk) (listing : List ServerLink) (servers : ℕ → List ServerLink) (r : Resolver)
      (now : ℕ) (key : Text) (identity_path : PathName) (reason : Bytes) (sure : Bool)
      (answer : Text) (who : Bytes) (target : PubKey)
      → load_key ed enc d identity_path ≡ ok who
      → read_pubkey ed enc d key ≡ ok target
      → (sure || agrees answer) ≡ true
      → revoke ed enc d listing servers r now (some key) false identity_path reason sure answer
        ≡ revoke_all ed enc servers r now who reason (target ∷ [])
  unfolding revoke revoke_plan revoke_targets
  revoke_one d listing servers r now key identity_path reason sure answer who target loaded named
        agreed =
      rw (revoke, revoke_plan, loaded, revoke_targets, named, agreed) refl

  -- Revoking a key by its identity takes effect: if the files and arguments give the identity's seed and the key, the
  -- user agrees, and the server, reached by bytes over a connection that loses nothing, has bound the key to the identity
  -- and holds no retirement of it, then `revoke` succeeds and reports that key and no other. The record that it sends,
  -- without whose acceptance it fails, is a revocation, and the one that the server then holds for the key. The key is
  -- valid, has 32 bytes and is not the identity's own, the reason is UTF-8 and not too long, and the clock is below 2^64.
  pub revoke-Retires :
      (d : Disk) (listing : List ServerLink) (s : Server) (r : Resolver) (now : ℕ) (key : Text)
      (identity_path : PathName) (reason : Bytes) (sure : Bool) (answer : Text) (who : Bytes)
      (target : PubKey)
      → IsEd25519 ed
      → load_key ed enc d identity_path ≡ ok who
      → read_pubkey ed enc d key ≡ ok target
      → (sure || agrees answer) ≡ true
      → now < 2 ^ 64
      → IsArray 32 target
      → IsText max_reason_len reason
      → MayRevoke ed enc who target reason
      → get s.store.bindings target ≡ some (ed.public_key who)
      → check_retired (get s.store.records target) ≡ ok tt
      → Retires
          (λ servers.
            revoke ed enc d listing
              (λ n. servers)
              r
              now
              (some key)
              false
              identity_path
              reason
              sure
              answer)
          s
          now
          target
  revoke-Retires d listing s r now key identity_path reason sure answer who target h loaded named
        agreed early size text may bound open_key =
      let same : (servers : List ServerLink)
          → revoke_all ed enc (λ n. servers) r now who reason (target ∷ [])
            ≡ revoke ed enc d listing (λ n. servers) r now (some key) false identity_path reason
                sure answer =
        λ servers. sym (
          revoke_one d listing (λ n. servers) r now key identity_path reason sure answer who target
            loaded named agreed) in
      subst
        (λ (g : List ServerLink → Result (Unit {0}) × List PubKey × Resolver).
          Retires g s now target)
        (fun_ext same)
        (revoke_all-Retires s r now who target reason h early size text may bound open_key)
