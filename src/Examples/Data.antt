-- ===== src/Examples/Data.antt =====
-- A toy signature scheme that has the documented behaviour, and some keys, grants and records.
use sqns.Base.{◌+◌, ◌*◌, refl, true, [], ◌∷◌}
use sqns.Bytes.{
  Bytes, be_bytes, from_be, bytes_eq, bytes_eq_refl, length-be_bytes, All-be_bytes, ascii,
}
use sqns.Crypto.{Ed25519, IsEd25519}
use sqns.Record.{PubKey, v4, name, Endpoint, Delegation, Record, SignedRecord}
use sqns.Codec.{
  ◌>>=◌, pure, fail, require, lift, take, unsigned, text, short_string, string, finish, repeat,
  decode_whole, put_string, put_short_string,
}
use sqns.Record.{expected_signer, endpoints, successor, delegation_expired, is_expired, supersedes}
use sqns.Record.Wire.{
  encode_endpoint, encode_delegation, encode_body, encode_record, encode_signed, decode_host,
  decode_endpoint, decode_delegation, decode_body, decode_record_from, decode_record,
  decode_signed_from, decode_signed,
}
use sqns.Bytes.{is_utf8, bytes_lt}
use sqns.Map.{get, insert, remove, retain, or_insert, set_insert}
use sqns.Store.{
  put, admit, find, bind, replace, purge_expired, check_retired, check_bound, outranked,
  retirement_error, keep, since, filter_since, sort_records, insert_sorted, goes_before, Store,
  new_store,
}
use sqns.Store.Merge.{after}
use sqns.Record.Authority.{
  issue, verify_delegation, validate, sign, verify, verify_answer, delegation_message,
  revocation_error, reason_or_default, signed_message, new_live, new_superseded, new_revoked,
}

-- All that a run computes with.
unfoldable pub program : Unit {0}
unfolding be_bytes from_be bytes_eq bytes_lt is_utf8 ◌>>=◌ pure fail require lift take unsigned text
    short_string string finish repeat decode_whole put_string put_short_string expected_signer
    endpoints successor delegation_expired is_expired supersedes encode_endpoint encode_delegation
    encode_body encode_record encode_signed decode_host decode_endpoint decode_delegation
    decode_body decode_record_from decode_record decode_signed_from decode_signed issue
    verify_delegation validate sign verify verify_answer delegation_message revocation_error
    reason_or_default signed_message new_live new_superseded new_revoked get insert remove retain
    or_insert set_insert put admit find bind replace purge_expired check_retired check_bound
    outranked retirement_error keep since filter_since sort_records insert_sorted goes_before
program = tt

abbrev toy_public : Bytes → Bytes
toy_public seed = be_bytes 32 (from_be seed)

-- Every byte of the key and of the message counts.
abbrev toy_signature : Bytes → Bytes → Bytes
toy_signature key msg = be_bytes 64 (from_be key + 257 * from_be msg)

abbrev pub toy : Ed25519
toy = record {
  is_valid_key = λ k. true;
  verifies = λ k m s. bytes_eq s (toy_signature k m);
  public_key = toy_public;
  sign_bytes = λ seed m. toy_signature (toy_public seed) m;
}

pub toy-IsEd25519 : IsEd25519 toy
toy-IsEd25519 = record {
  public_key_valid = λ seed. refl;
  public_key_size = λ seed. (length-be_bytes 32 (from_be seed), All-be_bytes 32 (from_be seed));
  signature_size = λ seed m. (length-be_bytes 64 _, All-be_bytes 64 _);
  sign_verifies = λ seed m. bytes_eq_refl (toy_signature (toy_public seed) m);
}

abbrev pub identity_seed : Bytes
identity_seed = 7 ∷ []

abbrev pub service_seed : Bytes
service_seed = 9 ∷ 1 ∷ []

abbrev pub service_key : PubKey
service_key = toy_public service_seed

abbrev pub next_key : PubKey
next_key = toy_public (5 ∷ [])

abbrev pub grant : Delegation
grant = issue toy identity_seed service_key 5000

abbrev pub home : Endpoint
home = record { host = v4 (127 ∷ 0 ∷ 0 ∷ 1 ∷ []); port = 5300; priority = 0; weight = 1 }

abbrev pub named : Endpoint
named = record { host = name (ascii "ns.example"); port = 443; priority = 10; weight = 0 }

abbrev pub signed_by : Bytes → Record → SignedRecord
signed_by seed r = record {
  rec = r;
  signature = toy.sign_bytes seed (signed_message (encode_record r));
}

-- Published at the second 1000, for five minutes.
abbrev pub first_record : Record
first_record = new_live 1000 service_key grant 1 300 (home ∷ named ∷ [])

abbrev pub first : SignedRecord
first = signed_by service_seed first_record

abbrev pub second_record : Record
second_record = new_live 1010 service_key grant 2 30 []

abbrev pub second : SignedRecord
second = signed_by service_seed second_record

abbrev pub rotated : SignedRecord
rotated = signed_by identity_seed (new_superseded 1020 service_key grant 3 next_key (ascii "moved"))

abbrev pub killed : SignedRecord
killed = signed_by identity_seed (new_revoked 1020 service_key grant 3 (ascii "stolen"))

-- The same key and serial number as `second`, under an identity of somebody else.
abbrev pub stolen_record : Record
stolen_record = new_live 1010 service_key (issue toy (8 ∷ []) service_key 5000) 2 300 []

abbrev pub stolen : SignedRecord
stolen = signed_by service_seed stolen_record

-- The stores after `first`, and after `killed` on top of it.
abbrev pub one : Store
one = after new_store (put toy new_store 1000 first)

abbrev pub dead : Store
dead = after one (put toy one 1020 killed)
