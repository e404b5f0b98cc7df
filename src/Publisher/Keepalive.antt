-- ===== src/Publisher/Keepalive.antt =====
-- A service key whose record is refreshed, at a server: two refreshes that fail do not take it off.
use sqns.Base.{ℕ, ◌+◌, ◌*◌, ◌<◌, ◌≤◌, ◌≡◌, refl, sym, ap, ◌∙◌, false, some, subst, arith}
use sqns.Bytes.{bytes_eq, bytes_eq_refl}
use sqns.Errors.{ok}
use sqns.Crypto.{Ed25519, IsEd25519}
use sqns.Record.{
  PubKey, Record, SignedRecord, endpoints, is_expired, expires_at, is_terminal, min_ttl, u64_max,
}
use sqns.Record.Authority.{verify_delegation, new_live, validate, validate_body}
use sqns.Map.{get}
use sqns.Store.{Store, PutOutcome, stored, stale, put, purge_expired}
use sqns.Store.Invariant.{
  IsConsistent, put-eq-stored, put-eq-stale, put-IsConsistent, purge_expired-IsConsistent,
  get-records-replace, get-records-purge,
}
use sqns.Protocol.{lookup, answer}
use sqns.Server.{Server, handle, forwarded}
use sqns.Resolver.Deliver.{handle_held}
use sqns.Publisher.{Publisher, key, sign_next, refresh_interval}
use sqns.Publisher.Serial.{Signs, sign_next-Signs}

-- The publisher after some refreshes: only its serial number has changed.
abbrev pub numbered : Publisher → ℕ → Publisher
numbered p serial = record p { serial = serial }

-- The store of a server from `s0` on, with the time of the last refresh: it is followed by refreshes, records of
-- other keys, and sweeps that come before the third tick.
pub data Refreshed (ed : Ed25519) (p : Publisher) (s0 : Store) : ℕ → Store → Type 0 where
  begun :
      {t : Store} {now : ℕ}
      → (serial : ℕ) (x : SignedRecord)
      → (sign_next ed (numbered p serial) now p.endpoints).0 ≡ ok x
      → put ed s0 now x ≡ ok (stored, t)
      → Refreshed ed p s0 now t
  again :
      {at now : ℕ} {s t : Store}
      → Refreshed ed p s0 at s
      → (serial : ℕ) (x : SignedRecord)
      → (sign_next ed (numbered p serial) now p.endpoints).0 ≡ ok x
      → put ed s now x ≡ ok (stored, t)
      → Refreshed ed p s0 now t
  other_key :
      {at : ℕ} {s t : Store}
      → Refreshed ed p s0 at s
      → (now : ℕ) (r : SignedRecord) (out : PutOutcome) → bytes_eq r.rec.key (key ed p) ≡ false
      → put ed s now r ≡ ok (out, t)
      → Refreshed ed p s0 at t
  swept :
      {at : ℕ} {s : Store}
      → Refreshed ed p s0 at s
      → (now : ℕ) → now < at + 3 * refresh_interval p
      → now < u64_max
      → Refreshed ed p s0 at (purge_expired s now).0

module _ (ed : Ed25519) (p : Publisher) where
  -- The record of the last refresh is held.
  record Holds (at : ℕ) (s : Store) : Type 0 where
    pub consistent : IsConsistent ed s
    pub rec : SignedRecord
    pub held : get s.records (key ed p) ≡ some rec
    pub serial : ℕ
    pub signs : Signs ed (numbered p serial) at p.endpoints rec

  least_ttl :
      (serial at : ℕ) (x : SignedRecord)
      → Signs ed (numbered p serial) at p.endpoints x
      → min_ttl ≤ p.ttl
  unfolding validate validate_body new_live
  least_ttl serial at x h = ground (arith, h.same, h.valid)

  third_tick : min_ttl ≤ p.ttl → 3 * refresh_interval p ≤ p.ttl
  unfolding refresh_interval
  third_tick long = ground arith

  Signs-is_expired :
      (serial at now : ℕ) (x : SignedRecord)
      → Signs ed (numbered p serial) at p.endpoints x
      → now < at + 3 * refresh_interval p
      → now < u64_max
      → is_expired x.rec now ≡ false
  unfolding is_expired expires_at is_terminal new_live
  Signs-is_expired serial at now x h soon early =
      let long = third_tick (least_ttl serial at x h) in ground (arith, h.same)

  Holds-put :
      (s t : Store) (now serial : ℕ) (x : SignedRecord)
      → IsEd25519 ed
      → verify_delegation ed p.delegation (key ed p) ≡ ok tt
      → IsConsistent ed s
      → (sign_next ed (numbered p serial) now p.endpoints).0 ≡ ok x
      → put ed s now x ≡ ok (stored, t)
      → Holds now t
  unfolding new_live
  Holds-put s t now serial x law granted c signed e =
      let signs = sign_next-Signs ed (numbered p serial) now p.endpoints x law granted signed in
      let own : x.rec.key ≡ key ed p = ap (λ (r : Record). r.key) signs.same in
      record {
        consistent = put-IsConsistent ed s now x stored t c e;
        rec = x;
        held =
            rw ((put-eq-stored ed s now x t e).result)
              (get-records-replace s x (key ed p) ∙ rw (sym own, bytes_eq_refl x.rec.key) refl);
        serial = serial;
        signs = signs;
      }

  Holds-other :
      (at : ℕ) (s t : Store) (now : ℕ) (r : SignedRecord) (out : PutOutcome)
      → bytes_eq r.rec.key (key ed p) ≡ false
      → put ed s now r ≡ ok (out, t)
      → Holds at s
      → Holds at t
  Holds-other at s t now r stale other e h = rw (put-eq-stale ed s now r t e) h
  Holds-other at s t now r stored other e h = record {
    consistent = put-IsConsistent ed s now r stored t h.consistent e;
    rec = h.rec;
    held =
        rw ((put-eq-stored ed s now r t e).result)
          (get-records-replace s r (key ed p) ∙ rw other (h.held));
    serial = h.serial;
    signs = h.signs;
  }

  Holds-purge :
      (at : ℕ) (s : Store) (now : ℕ)
      → now < at + 3 * refresh_interval p
      → now < u64_max
      → Holds at s
      → Holds at (purge_expired s now).0
  Holds-purge at s now soon early h =
      let fresh = Signs-is_expired h.serial at now h.rec h.signs soon early in
      record {
        consistent = purge_expired-IsConsistent ed s now h.consistent;
        rec = h.rec;
        held =
            get-records-purge ed s now (key ed p) (h.consistent.one_record)
            ∙ rw (h.held, fresh) refl;
        serial = h.serial;
        signs = h.signs;
      }

  Refreshed-Holds :
      {s0 s : Store} {at : ℕ}
      → IsEd25519 ed
      → verify_delegation ed p.delegation (key ed p) ≡ ok tt
      → IsConsistent ed s0
      → Refreshed ed p s0 at s
      → Holds at s
  Refreshed-Holds law granted c (begun serial x signed e) =
      Holds-put _ _ _ serial x law granted c signed e
  Refreshed-Holds law granted c (again h serial x signed e) =
      Holds-put _ _ _ serial x law granted (Refreshed-Holds law granted c h).consistent signed e
  Refreshed-Holds law granted c (other_key h now r out other e) =
      Holds-other _ _ _ now r out other e (Refreshed-Holds law granted c h)
  Refreshed-Holds law granted c (swept h now soon early) =
      Holds-purge _ _ now soon early (Refreshed-Holds law granted c h)

  endpoints-Signs :
      (q : Publisher) (at : ℕ) (x : SignedRecord)
      → Signs ed q at p.endpoints x
      → endpoints x.rec ≡ p.endpoints
  unfolding new_live endpoints
  endpoints-Signs q at x h = ap endpoints h.same

  -- A key stays reachable although two refreshes in a row are lost: at a server whose store was consistent when the
  -- publisher's record was stored, and to which come further refreshes, records of other keys, and sweeps before the third
  -- tick since the last refresh, a lookup before that tick is answered with a record of the key that was signed at the last
  -- refresh and has the publisher's endpoints. The delegation covers the key, and the clock is below 2^64 - 1.
  pub Refreshed-answer :
      (s0 : Store) (server : Server) (at now hops : ℕ)
      → IsEd25519 ed
      → verify_delegation ed p.delegation (key ed p) ≡ ok tt
      → IsConsistent ed s0
      → Refreshed ed p s0 at server.store
      → now < at + 3 * refresh_interval p
      → now < u64_max
      → (x : SignedRecord) × ((handle ed server now (lookup (key ed p) hops)).0
          ≡ answer (some x) (forwarded server.store now x))
        × (x.rec.issued_at ≡ at)
        × (endpoints x.rec ≡ p.endpoints)
  unfolding new_live
  Refreshed-answer s0 server at now hops law granted c path soon early =
      let h = Refreshed-Holds law granted c path in
      let own : h.rec.rec.key ≡ key ed p = ap (λ (r : Record). r.key) h.signs.same in
      (
        h.rec,
        subst
            (λ (k : PubKey).
              (handle ed server now (lookup k hops)).0
              ≡ answer (some h.rec) (forwarded server.store now h.rec))
            own
            (handle_held ed server now hops h.rec (ap (get server.store.records) own ∙ h.held)
              (Signs-is_expired h.serial at now h.rec h.signs soon early)),
        ap (λ (r : Record). r.issued_at) h.signs.same,
        endpoints-Signs (numbered p h.serial) at h.rec h.signs,
      )
