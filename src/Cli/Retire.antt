-- ===== src/Cli/Retire.antt =====
-- The record that `revoke` makes, and what a store does with it.
use sqns.Base.{
  ℕ, ◌+◌, ◌≡◌, refl, true, false, not, ◌&&◌, Option, none, some, length, ltb, leb, arith,
}
use sqns.Bytes.{Bytes, bytes_eq, bytes_eq_refl}
use sqns.Errors.{ok}
use sqns.Crypto.{Ed25519, IsEd25519}
use sqns.Map.{get}
use sqns.Record.{
  PubKey, SignedRecord, expected_signer, is_terminal, is_revoked, is_superseded, is_expired,
  delegation_expired, supersedes, max_reason_len, max_clock_skew,
}
use sqns.Record.Wire.{encode_record}
use sqns.Record.Authority.{
  issue, sign, verify, verify_delegation, validate, validate_body, check_reason, verify_answer,
  signed_message, new_revoked,
}
use sqns.Store.{Store, stored, put, admit, check_retired, check_bound, outranked, replace}
use sqns.Store.Invariant.{check_retired_live}
use sqns.Key.{Encodings}
use sqns.Cli.{retirement_delegation, revoking}

module _ (ed : Ed25519) (enc : Encodings) where
  -- The record that `revoke` makes.
  abbrev pub revocation : ℕ → Bytes → PubKey → Bytes → SignedRecord
  revocation now who target reason =
      let r = new_revoked now target (retirement_delegation ed enc now who target) now reason in
      record { rec = r; signature = ed.sign_bytes who (signed_message (encode_record r)) }

  pub revoking-eq :
      (now : ℕ) (who : Bytes) (target : PubKey) (reason : Bytes)
      → revoking ed enc now who target reason ≡ ok (revocation now who target reason)
  unfolding revoking sign expected_signer new_revoked retirement_delegation issue
  revoking-eq now who target reason = rw (revoking, sign, bytes_eq_refl (ed.public_key who)) refl

  verify-revocation :
      (now : ℕ) (who : Bytes) (target : PubKey) (reason : Bytes)
      → IsEd25519 ed
      → verify ed (revocation now who target reason) ≡ ok tt
  unfolding verify expected_signer new_revoked retirement_delegation issue verify_delegation
  verify-revocation now who target reason h =
      rw (h.public_key_valid who, h.sign_verifies who _, h.sign_verifies who _) refl

  validate-revocation :
      (now : ℕ) (who : Bytes) (target : PubKey) (reason : Bytes)
      → IsEd25519 ed
      → ed.is_valid_key target ≡ true
      → bytes_eq (ed.public_key who) target ≡ false
      → leb (length reason) max_reason_len ≡ true
      → validate ed (revocation now who target reason).rec ≡ ok tt
  unfolding validate validate_body check_reason new_revoked retirement_delegation issue
  validate-revocation now who target reason h valid other short =
      rw (valid, h.public_key_valid who, other, short) refl

  revoked_terminal :
      (now : ℕ) (who : Bytes) (target : PubKey) (reason : Bytes)
      → is_terminal (revocation now who target reason).rec ≡ true
  unfolding is_terminal is_superseded is_revoked new_revoked
  revoked_terminal now who target reason = refl

  revoked_fresh :
      (now : ℕ) (who : Bytes) (target : PubKey) (reason : Bytes)
      → is_expired (revocation now who target reason).rec now ≡ false
  unfolding is_expired is_terminal is_superseded is_revoked new_revoked
  revoked_fresh now who target reason = refl

  retired_anyway :
      (r : SignedRecord) (now : ℕ)
      → is_terminal r.rec ≡ true
      → (delegation_expired r.rec.delegation now && not (is_terminal r.rec)) ≡ false
  retired_anyway r now terminal = ground arith

  admit_terminal :
      (now : ℕ) (r : SignedRecord)
      → validate ed r.rec ≡ ok tt
      → verify ed r ≡ ok tt
      → ltb (now + max_clock_skew) r.rec.issued_at ≡ false
      → is_expired r.rec now ≡ false
      → is_terminal r.rec ≡ true
      → admit ed now r ≡ ok tt
  unfolding admit
  admit_terminal now r valid signed past fresh terminal =
      rw (valid, signed, past, fresh, retired_anyway r now terminal) refl

  verify_answer_terminal :
      (now : ℕ) (r : SignedRecord)
      → validate ed r.rec ≡ ok tt
      → verify ed r ≡ ok tt
      → is_expired r.rec now ≡ false
      → is_terminal r.rec ≡ true
      → verify_answer ed r r.rec.key now ≡ ok tt
  unfolding verify_answer
  verify_answer_terminal now r valid signed fresh terminal =
      rw (bytes_eq_refl r.rec.key, valid, signed, fresh, retired_anyway r now terminal) refl

  -- `who` may retire the key `target` for such a reason.
  pub record MayRevoke (who : Bytes) (target : PubKey) (reason : Bytes) : Type 0 where
    pub valid : ed.is_valid_key target ≡ true
    pub other : bytes_eq (ed.public_key who) target ≡ false
    pub short : leb (length reason) max_reason_len ≡ true

  not_future : (now : ℕ) → ltb (now + max_clock_skew) now ≡ false
  not_future now = ground arith

  admit-revocation :
      (now : ℕ) (who : Bytes) (target : PubKey) (reason : Bytes)
      → IsEd25519 ed
      → MayRevoke who target reason
      → admit ed now (revocation now who target reason) ≡ ok tt
  admit-revocation now who target reason h may =
      admit_terminal now (revocation now who target reason)
        (validate-revocation now who target reason h may.valid may.other may.short)
        (verify-revocation now who target reason h) (unfold new_revoked in not_future now)
        (revoked_fresh now who target reason) (revoked_terminal now who target reason)

  pub verify_answer-revocation :
      (now : ℕ) (who : Bytes) (target : PubKey) (reason : Bytes)
      → IsEd25519 ed
      → MayRevoke who target reason
      → verify_answer ed
          (revocation now who target reason)
          (revocation now who target reason).rec.key
          now
        ≡ ok tt
  verify_answer-revocation now who target reason h may =
      verify_answer_terminal now (revocation now who target reason)
        (validate-revocation now who target reason h may.valid may.other may.short)
        (verify-revocation now who target reason h) (revoked_fresh now who target reason)
        (revoked_terminal now who target reason)

  outranked_terminal :
      (r : SignedRecord) (o : Option SignedRecord)
      → is_terminal r.rec ≡ true
      → check_retired o ≡ ok tt
      → outranked r o ≡ false
  unfolding outranked supersedes
  outranked_terminal r none terminal open_key = refl
  outranked_terminal r (some held) terminal open_key =
      rw (check_retired_live held open_key, terminal) refl

  pub put-revocation :
      (s : Store) (now : ℕ) (who : Bytes) (target : PubKey) (reason : Bytes)
      → IsEd25519 ed
      → MayRevoke who target reason
      → get s.bindings target ≡ some (ed.public_key who)
      → check_retired (get s.records target) ≡ ok tt
      → put ed s now (revocation now who target reason)
        ≡ ok (stored, replace s (revocation now who target reason))
  unfolding put new_revoked retirement_delegation issue check_bound
  put-revocation s now who target reason h may bound open_key =
      rw
        (
          admit-revocation now who target reason h may,
          open_key,
          bound,
          bytes_eq_refl (ed.public_key who),
          outranked_terminal (revocation now who target reason) (get s.records target)
              (revoked_terminal now who target reason) open_key,
        )
        refl
