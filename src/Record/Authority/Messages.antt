-- ===== src/Record/Authority/Messages.antt =====
-- The two kinds of signed messages: they never coincide, and each determines what it covers.
use sqns.Base.{ℕ, ◌^◌, ◌<◌, ◌≡◌, ◌≢◌, refl, sym, ap, ◌∙◌, append_injective, arith}
use sqns.Bytes.{Bytes, IsArray, be_bytes, from_be, from_be-be_bytes}
use sqns.Errors.{ok}
use sqns.Record.{PubKey, Record, delegation_context, sig_context}
use sqns.Record.Wire.{encode_record, decode_record}
use sqns.Record.Wire.Layout.{IsRecord}
use sqns.Record.Wire.RoundTrip.{decode_record-encode_record}
use sqns.Record.Authority.{delegation_message, signed_message}

-- No message that a delegation signature covers is one that a record signature covers, whatever
-- the keys, the time and the record bytes.
delegation_message-ne-signed_message :
    (identity service_key : PubKey) (not_after : ℕ) (record_bytes : Bytes)
    → delegation_message identity service_key not_after ≢ signed_message record_bytes
unfolding delegation_message signed_message
delegation_message-ne-signed_message identity service_key not_after record_bytes e = ground arith

be_bytes_injective : (w m n : ℕ) → m < 256 ^ w → n < 256 ^ w → be_bytes w m ≡ be_bytes w n → m ≡ n
be_bytes_injective w m n hm hn e =
    sym (from_be-be_bytes w m hm) ∙ ap from_be e ∙ from_be-be_bytes w n hn

-- Two grants over 32-byte keys and 64-bit times that have the same message are the same grant.
pub delegation_message_injective :
    (i k i' k' : PubKey) (n n' : ℕ)
    → IsArray 32 i
    → IsArray 32 k
    → IsArray 32 i'
    → IsArray 32 k'
    → n < 2 ^ 64
    → n' < 2 ^ 64
    → delegation_message i k n ≡ delegation_message i' k' n'
    → (i ≡ i') × (k ≡ k') × (n ≡ n')
unfolding delegation_message
delegation_message_injective i k i' k' n n' hi hk hi' hk' hn hn' e =
    let (_, e1) = append_injective delegation_context delegation_context refl e in
    let (same_i, e2) = append_injective i i' (hi.0 ∙ sym hi'.0) e1 in
    let (same_k, e3) = append_injective k k' (hk.0 ∙ sym hk'.0) e2 in
    (same_i, same_k, be_bytes_injective 8 n n' hn hn' e3)

-- Two records of the wire's ranges that are signed by the same message are the same record.
pub signed_message_injective :
    (r s : Record)
    → IsRecord r
    → IsRecord s
    → signed_message (encode_record r) ≡ signed_message (encode_record s)
    → r ≡ s
unfolding signed_message
signed_message_injective r s hr hs e =
    let (_, same) = append_injective sig_context sig_context refl e in
    ok_injective (
      sym (decode_record-encode_record r hr)
      ∙ ap decode_record same
      ∙ decode_record-encode_record s hs)
  where
    ok_injective : {a b : Record} → ok a ≡ ok b → a ≡ b
    ok_injective p = cc
