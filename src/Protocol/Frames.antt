-- ===== src/Protocol/Frames.antt =====
-- Frames on a stream: what one side writes the other reads, and what follows stays on the stream.
use sqns.Base.{
  ℕ, suc, append_assoc, ◌%◌, ◌^◌, ◌≤◌, ◌<◌, ◌≡◌, refl, sym, ap, ◌∙◌, false, [], ◌∷◌, ◌++◌, length,
  length-append, take-append, drop-append, ltb, arith,
}
use sqns.Bytes.{Bytes, be_bytes, from_be, length-be_bytes, from_be-be_bytes, be_bytes-one}
use sqns.Errors.{ok}
use sqns.Protocol.{
  Request, Response, max_message_len, request_type, encode_request, response_type, encode_response,
  write_frame, read_exact, read_frame, write_request, read_request, write_response, read_response,
}
use sqns.Protocol.Messages.{
  IsRequest, IsResponse, decode_request-encode_request, decode_response-encode_response,
}

read_exact-append :
    (bs rest : Bytes) (n : ℕ) → length bs ≡ n → read_exact n (bs ++ rest) ≡ ok (bs, rest)
unfolding read_exact
read_exact-append bs rest n e = rw (← e) (rw (short, take-append bs rest, drop-append bs rest) refl)
  where
    short : ltb (length (bs ++ rest)) (length bs) ≡ false
    short = ground (arith, length-append bs rest)

write_frame-eq-ok :
    (kind : ℕ) (payload out : Bytes)
    → write_frame kind payload ≡ ok out
    → (length payload ≤ max_message_len)
      × (out ≡ kind ∷ (be_bytes 4 (length payload % 2 ^ 32) ++ payload))
unfolding write_frame
write_frame-eq-ok kind payload out e = ground arith

-- A frame that was written is read back, with the bytes that follow it left on the stream.
pub read_frame-write_frame :
    (kind : ℕ) (payload rest out : Bytes)
    → kind < 256
    → write_frame kind payload ≡ ok out
    → read_frame (out ++ rest) ≡ ok (kind, payload, rest)
unfolding read_frame
read_frame-write_frame kind payload rest out hk e =
    let (small, shape) = write_frame-eq-ok kind payload out e in
    let size = length payload % 2 ^ 32 in
    let header : Bytes = kind ∷ be_bytes 4 size in
    let whole : out ++ rest ≡ header ++ (payload ++ rest) =
      ap (λ (o : Bytes). o ++ rest) shape
      ∙ ap (◌∷◌ kind) (append_assoc (be_bytes 4 size) payload rest) in
    let five : length header ≡ 5 = ap suc (length-be_bytes 4 size) in
    let announced : from_be (be_bytes 4 size) ≡ length payload =
      from_be-be_bytes 4 size (omega arith) ∙ omega arith in
    let fits : ltb max_message_len (length payload) ≡ false = ground arith in
    let kind_back : from_be (kind ∷ []) ≡ kind =
      ap from_be (sym (be_bytes-one kind hk)) ∙ from_be-be_bytes 1 kind hk in
    rw (whole, read_exact-append header (payload ++ rest) 5 five, read_frame)
      (rw (announced, fits, read_exact-append payload rest (length payload) refl, kind_back) refl)

type_byte : (q : Request) → request_type q < 256
unfolding request_type
type_byte q = ground arith

response_byte : (p : Response) → response_type p < 256
unfolding response_type
response_byte p = ground arith

-- A request that the wire can carry and that was written is read back, and the stream goes on behind it.
pub read_request-write_request :
    (q : Request) (out rest : Bytes)
    → IsRequest q
    → write_request q ≡ ok out
    → read_request (out ++ rest) ≡ ok (q, rest)
unfolding write_request read_request
read_request-write_request q out rest h e =
    rw
      (
        read_frame-write_frame (request_type q) (encode_request q) rest out (type_byte q) e,
        read_request,
        decode_request-encode_request q h,
      )
      refl

-- A response that the wire can carry and that was written is read back, and the stream goes on
-- behind it.
pub read_response-write_response :
    (p : Response) (out rest : Bytes)
    → IsResponse p
    → write_response p ≡ ok out
    → read_response (out ++ rest) ≡ ok (p, rest)
unfolding write_response read_response
read_response-write_response p out rest h e =
    rw
      (
        read_frame-write_frame (response_type p) (encode_response p) rest out (response_byte p) e,
        read_response,
        decode_response-encode_response p h,
      )
      refl
