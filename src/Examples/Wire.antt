-- ===== src/Examples/Wire.antt =====
-- Encoding, decoding, signing and verifying at concrete records.
use sqns.Base.{All, ◌↔◌, ◌≡◌, refl, [], ◌∷◌, arith}
use sqns.Bytes.{IsByte}
use sqns.Errors.{Error, ok, err}
use sqns.Record.Wire.{encode_record, encode_signed, decode_signed}
use sqns.Record.Wire.Layout.{IsRecord, IsSigned}
use sqns.Record.Wire.RoundTrip.{decode_signed-encode_signed}
use sqns.Record.Wire.Canonical.{encode_signed-decode_signed}
use sqns.Record.Authority.Answers.{IsCurrent, sign-verify_answer}
use sqns.Record.Authority.Messages.{signed_message_injective}
use sqns.Record.Authority.{signed_message, verify_answer}
use sqns.Examples.Data.{
  first_record, first, program, killed, toy, toy-IsEd25519, identity_seed, service_seed,
  service_key,
}

first_record-IsRecord : IsRecord first_record
unfolding program
first_record-IsRecord = record {
  key = omega arith;
  delegation = record { identity = omega arith; not_after = omega arith; signature = omega arith };
  serial = omega arith;
  issued_at = omega arith;
  ttl = omega arith;
  body = (
    omega arith,
    (
      record {
        host = omega arith;
        port = omega arith;
        priority = omega arith;
        weight = omega arith;
      },
      (
        record {
          host = ((omega arith, refl, omega arith), omega arith);
          port = omega arith;
          priority = omega arith;
          weight = omega arith;
        },
        tt,
      ),
    ),
  );
}

pub first-IsSigned : IsSigned first
unfolding program
first-IsSigned = record {
  rec = first_record-IsRecord;
  signature =
      toy-IsEd25519.signature_size service_seed (signed_message (encode_record first_record));
  fits = omega arith;
}

pub killed-IsSigned : IsSigned killed
unfolding program
killed-IsSigned = record {
  rec = record {
    key = toy-IsEd25519.public_key_size service_seed;
    delegation = first_record-IsRecord.delegation;
    serial = omega arith;
    issued_at = omega arith;
    ttl = omega arith;
    body = (omega arith, refl, omega arith);
  };
  signature =
      toy-IsEd25519.signature_size identity_seed (signed_message (encode_record killed.rec));
  fits = omega arith;
}

-- The clock past the end of the record, and an answer for another key.
answers :
    (verify_answer toy first service_key 1100 ≡ ok tt)
    × (verify_answer toy first (1 ∷ []) 1100 ≡ err (Error.key_mismatch (1 ∷ []) service_key))
    × (verify_answer toy first service_key 1300 ≡ err (Error.expired 0))
    × (verify_answer toy killed service_key 999999 ≡ ok tt)
unfolding program
answers = (refl, refl, refl, refl)

decode_signed-encode_signed_example : decode_signed (encode_signed first) ≡ ok first
decode_signed-encode_signed_example = decode_signed-encode_signed first first-IsSigned

-- The bytes of the record, as they travel.
record_bytes-IsByte : All IsByte (encode_record first_record)
unfolding program
record_bytes-IsByte = ground arith

signed_message_injective_example : first_record ≡ first_record
signed_message_injective_example =
    signed_message_injective first_record first_record first_record-IsRecord first_record-IsRecord
      refl

sign-verify_answer_example :
    (verify_answer toy first service_key 1100 ≡ ok tt)
    ↔ ((first_record.key ≡ service_key) × IsCurrent toy first_record 1100)
unfolding program
sign-verify_answer_example =
    sign-verify_answer toy first_record service_seed identity_seed first service_key 1100
      toy-IsEd25519 refl refl refl

signed_bytes-IsByte : All IsByte (encode_signed first)
unfolding program
signed_bytes-IsByte = ground arith

encode_signed-decode_signed_example : (encode_signed first ≡ encode_signed first) × IsSigned first
encode_signed-decode_signed_example =
    encode_signed-decode_signed (encode_signed first) first signed_bytes-IsByte
      (decode_signed-encode_signed first first-IsSigned)
