-- ===== src/Publisher/Serial.antt =====
-- The serial numbers of a publisher: what it signs after it adopted the network's serial is accepted.
use sqns.Base.{ℕ, ◌+◌, ◌^◌, ◌≤◌, ◌<◌, ◌≡◌, refl, sym, ap, ◌∙◌, false, some, List, arith, inl, inr}
use sqns.Bytes.{Bytes, bytes_eq_refl, bytes_eq_sound}
use sqns.Errors.{ok, Result-cases}
use sqns.Crypto.{Ed25519, IsEd25519}
use sqns.Record.{
  Endpoint, Record, SignedRecord, identity, is_terminal, is_expired, expires_at, delegation_expired,
  supersedes, expected_signer,
}
use sqns.Record.Wire.{encode_record}
use sqns.Record.Authority.{
  new_live, validate, validate_body, sign, verify, verify_delegation, signed_message,
}
use sqns.Map.{get}
use sqns.Store.{Store, stored, admit, put, replace, check_bound, outranked}
use sqns.Store.Merge.{check_retired_of_live}
use sqns.Resolver.{Resolver, ServerLink, lookup_record}
use sqns.Publisher.{Publisher, key, sign_next, raise_serial, adopt_network_serial}

module _ (ed : Ed25519) where
  -- What a publisher signs is a live record of its key, with its serial, that passes the checks.
  pub record Signs (p : Publisher) (now : ℕ) (endpoints : List Endpoint) (x : SignedRecord)
      : Type 0 where
    pub same : x.rec ≡ new_live now (key ed p) p.delegation p.serial p.ttl endpoints
    pub valid : validate ed x.rec ≡ ok tt
    pub verified : verify ed x ≡ ok tt

  verify-sign_next :
      (r : Record) (seed : Bytes) (x : SignedRecord)
      → IsEd25519 ed
      → verify_delegation ed r.delegation r.key ≡ ok tt
      → sign ed r seed ≡ ok x
      → (x.rec ≡ r) × (verify ed x ≡ ok tt)
  unfolding sign verify
  verify-sign_next r seed x law granted signed = (
    ground arith,
    ground (
      arith,
      bytes_eq_sound (ed.public_key seed) (expected_signer r),
      law.public_key_valid seed,
      law.sign_verifies seed (signed_message (encode_record r)),
    ),
  )

  pub sign_next-Signs :
      (p : Publisher) (now : ℕ) (endpoints : List Endpoint) (x : SignedRecord)
      → IsEd25519 ed
      → verify_delegation ed p.delegation (key ed p) ≡ ok tt
      → (sign_next ed p now endpoints).0 ≡ ok x
      → Signs p now endpoints x
  unfolding sign_next
  sign_next-Signs p now endpoints x law granted e =
      elim (Result-cases
        (validate ed (new_live now (key ed p) p.delegation p.serial p.ttl endpoints))) [
          | inr (f, bad) ↦ absurd (ground arith)
          | inl (u, good) ↦
              let r = new_live now (key ed p) p.delegation p.serial p.ttl endpoints in
              let (same, verified) =
                verify-sign_next r p.signing_key x law (unfold new_live in granted)
                  (rw good at e) in
              record { same = same; valid = ap (validate ed) same ∙ good; verified = verified }
        ]

  live_ttl :
      (p : Publisher) (now : ℕ) (endpoints : List Endpoint)
      → validate ed (new_live now (key ed p) p.delegation p.serial p.ttl endpoints) ≡ ok tt
      → 1 ≤ p.ttl
  unfolding validate validate_body new_live
  live_ttl p now endpoints v = ground arith

  -- At the moment it is signed, a record passes all checks of `put` that do not look at the store.
  pub Signs-admit :
      (p : Publisher) (now : ℕ) (endpoints : List Endpoint) (x : SignedRecord)
      → Signs p now endpoints x
      → now + 1 < 2 ^ 64
      → delegation_expired p.delegation now ≡ false
      → admit ed now x ≡ ok tt
  unfolding admit is_expired expires_at is_terminal new_live
  Signs-admit p now endpoints x h early current =
      let long = live_ttl p now endpoints (ap (validate ed) (sym h.same) ∙ h.valid) in
      rw (h.valid, h.verified) (ground (arith, h.same))

  raised_serial :
      (p : Publisher) (held : ℕ) → held + 1 < 2 ^ 64 → held < (raise_serial p held).serial
  unfolding raise_serial
  raised_serial p held low = ground arith

  newer :
      (p : Publisher) (now : ℕ) (endpoints : List Endpoint) (x held : SignedRecord)
      → Signs p now endpoints x
      → is_terminal held.rec ≡ false
      → held.rec.serial < p.serial
      → outranked x (some held) ≡ false
  unfolding outranked supersedes is_terminal new_live
  newer p now endpoints x held h live older = ground (arith, h.same)

  put-free :
      (s : Store) (now : ℕ) (x held : SignedRecord)
      → admit ed now x ≡ ok tt
      → get s.records x.rec.key ≡ some held
      → get s.bindings x.rec.key ≡ some (identity x.rec)
      → is_terminal held.rec ≡ false
      → outranked x (some held) ≡ false
      → put ed s now x ≡ ok (stored, replace s x)
  unfolding put check_bound
  put-free s now x held a h b live n =
      ground (arith, bytes_eq_refl (identity x.rec), check_retired_of_live ed held live)

  adopt-raise :
      (servers : List ServerLink) (r : Resolver) (now : ℕ) (p : Publisher) (held : SignedRecord)
      → (lookup_record ed servers r now (key ed p)).0 ≡ ok (some held)
      → (adopt_network_serial ed servers r now p).1 ≡ raise_serial p held.rec.serial
  unfolding adopt_network_serial
  adopt-raise servers r now p held e = rw (e, adopt_network_serial) refl

  raised_accepted :
      (p : Publisher) (s : Store) (now : ℕ) (endpoints : List Endpoint) (x held : SignedRecord)
      → IsEd25519 ed
      → verify_delegation ed p.delegation (key ed p) ≡ ok tt
      → delegation_expired p.delegation now ≡ false
      → now + 1 < 2 ^ 64
      → get s.records (key ed p) ≡ some held
      → get s.bindings (key ed p) ≡ some p.delegation.identity
      → is_terminal held.rec ≡ false
      → held.rec.serial + 1 < 2 ^ 64
      → (sign_next ed (raise_serial p held.rec.serial) now endpoints).0 ≡ ok x
      → put ed s now x ≡ ok (stored, replace s x)
  unfolding raise_serial new_live
  raised_accepted p s now endpoints x held law granted current early h b live low e =
      let q = raise_serial p held.rec.serial in
      let signs = sign_next-Signs q now endpoints x law granted e in
      put-free s now x held (Signs-admit q now endpoints x signs early current)
        (ap (λ (r : Record). get s.records r.key) signs.same ∙ h)
        (ap (λ (r : Record). get s.bindings r.key) signs.same
          ∙ b
          ∙ ap (λ (r : Record). some (identity r)) (sym signs.same))
        live (newer q now endpoints x held signs live (raised_serial p held.rec.serial low))

  -- What a publisher signs after it looked its key up and adopted the serial number found is accepted by
  -- every server that holds the record it found: if the servers bind the key to the publisher's identity,
  -- its delegation covers the key and has not run out, the record found is live and its serial number is
  -- not the largest of 64 bits, and the clock is not at its end.
  pub adopted_serial_accepted :
      (servers : List ServerLink) (r : Resolver) (p : Publisher) (s : Store) (now : ℕ)
      (endpoints : List Endpoint) (x held : SignedRecord)
      → IsEd25519 ed
      → verify_delegation ed p.delegation (key ed p) ≡ ok tt
      → delegation_expired p.delegation now ≡ false
      → now + 1 < 2 ^ 64
      → (lookup_record ed servers r now (key ed p)).0 ≡ ok (some held)
      → get s.records (key ed p) ≡ some held
      → get s.bindings (key ed p) ≡ some p.delegation.identity
      → is_terminal held.rec ≡ false
      → held.rec.serial + 1 < 2 ^ 64
      → (sign_next ed (adopt_network_serial ed servers r now p).1 now endpoints).0 ≡ ok x
      → put ed s now x ≡ ok (stored, replace s x)
  adopted_serial_accepted servers r p s now endpoints x held law granted current early found h b
        live low e =
      raised_accepted p s now endpoints x held law granted current early h b live low (
        ap (λ (q : Publisher). (sign_next ed q now endpoints).0)
          (sym (adopt-raise servers r now p held found))
        ∙ e)
