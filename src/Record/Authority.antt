-- ===== src/Record/Authority.antt =====
-- crates/sqns-core/src/record.rs: who may say what. Delegations, the structural checks, signing and
-- verifying, over the signature scheme that ed25519_dalek provides.
pub mod Messages
pub mod Answers
use sqns.Base.{
  ℕ, ◌-◌, not, ◌&&◌, [], ◌∷◌, ◌++◌, length, leb, List, if◌then◌else◌, Option, none, some, Bool,
}
use sqns.Bytes.{Bytes, be_bytes, bytes_eq, ascii}
use sqns.Errors.{Error, malformed_record, bad_key, Result, ok, err, check, ◌>>=◌, ◌>>◌}
use sqns.Crypto.{Ed25519}
use sqns.Record.{
  PubKey, Delegation, RecordBody, live, superseded, revoked, Record, SignedRecord, Endpoint,
  identity, expected_signer, is_terminal, is_expired, expires_at, delegation_expired, sig_context,
  delegation_context, max_endpoints, min_ttl, max_ttl, max_reason_len,
}
use sqns.Record.Wire.{encode_record}

-- The bytes that the two kinds of signature cover.
unfoldable pub delegation_message : PubKey → PubKey → ℕ → Bytes
delegation_message identity service_key not_after =
    delegation_context ++ (identity ++ (service_key ++ be_bytes 8 not_after))

unfoldable pub signed_message : Bytes → Bytes
signed_message record_bytes = sig_context ++ record_bytes

-- The constructors of records; `now_unix()` is the argument `now`.
unfoldable pub new_live : ℕ → PubKey → Delegation → ℕ → ℕ → List Endpoint → Record
new_live now key d serial ttl eps = record {
  key = key;
  delegation = d;
  serial = serial;
  issued_at = now;
  ttl = ttl;
  body = live eps;
}

unfoldable pub new_superseded : ℕ → PubKey → Delegation → ℕ → PubKey → Bytes → Record
new_superseded now key d serial next reason = record {
  key = key;
  delegation = d;
  serial = serial;
  issued_at = now;
  ttl = max_ttl;
  body = superseded next reason;
}

unfoldable pub new_revoked : ℕ → PubKey → Delegation → ℕ → Bytes → Record
new_revoked now key d serial reason = record {
  key = key;
  delegation = d;
  serial = serial;
  issued_at = now;
  ttl = max_ttl;
  body = revoked reason;
}

unfoldable pub check_reason : Bytes → Result (Unit {0})
check_reason reason = check (leb (length reason) max_reason_len) malformed_record

-- The default text of a revocation that gives no reason.
unfoldable pub reason_or_default : Bytes → Bytes
reason_or_default reason = elim reason [ [] ↦ ascii "no reason given" | b ∷ bs ↦ b ∷ bs ]

unfoldable pub revocation_error : SignedRecord → Option Error
revocation_error s = elim s.rec.body [
  | revoked reason ↦ some (Error.revoked s.rec.key none (reason_or_default reason))
  | _ ↦ none
]

module _ (ed : Ed25519) where
  unfoldable pub issue : Bytes → PubKey → ℕ → Delegation
  unfolding delegation_message
  issue seed service_key not_after =
      let identity = ed.public_key seed in
      record {
        identity = identity;
        not_after = not_after;
        signature = ed.sign_bytes seed (delegation_message identity service_key not_after);
      }

  unfoldable pub verify_delegation : Delegation → PubKey → Result (Unit {0})
  verify_delegation d service_key = do
    check (ed.is_valid_key d.identity) bad_key
    check
        (ed.verifies d.identity (delegation_message d.identity service_key d.not_after) d.signature)
        Error.delegation

  unfoldable pub validate_body : Record → RecordBody → Result (Unit {0})
  unfolding check_reason
  validate_body r (live eps) = do
    check (leb (length eps) max_endpoints) malformed_record
    check (leb min_ttl r.ttl && leb r.ttl max_ttl) malformed_record
  validate_body r (superseded next reason) = do
    check (ed.is_valid_key next) bad_key
    check (not (bytes_eq next r.key)) malformed_record
    check_reason reason
  validate_body r (revoked reason) = check_reason reason

  unfoldable pub validate : Record → Result (Unit {0})
  unfolding validate_body
  validate r = do
    check (ed.is_valid_key r.key) bad_key
    check (ed.is_valid_key (identity r)) bad_key
    check (not (bytes_eq (identity r) r.key)) Error.delegation
    validate_body r r.body

  unfoldable pub sign : Record → Bytes → Result SignedRecord
  sign r seed =
      if bytes_eq (ed.public_key seed) (expected_signer r)
      then ok
          (record { rec = r; signature = ed.sign_bytes seed (signed_message (encode_record r)) })
      else err Error.signature

  unfoldable pub verify : SignedRecord → Result (Unit {0})
  unfolding verify_delegation
  verify s = do
    verify_delegation s.rec.delegation s.rec.key
    check (ed.is_valid_key (expected_signer s.rec)) bad_key
    check (ed.verifies (expected_signer s.rec) (signed_message (encode_record s.rec)) s.signature)
        Error.signature

  -- What a client runs on every answer.
  unfoldable pub verify_answer : SignedRecord → PubKey → ℕ → Result (Unit {0})
  verify_answer s asked now = do
    check (bytes_eq s.rec.key asked) (Error.key_mismatch asked s.rec.key)
    verify s
    validate s.rec
    check (not (delegation_expired s.rec.delegation now && not (is_terminal s.rec)))
        Error.delegation
    check (not (is_expired s.rec now)) (Error.expired (now - expires_at s.rec))
