-- ===== src/Server/Stream.antt =====
-- crates/sqnsd/src/server.rs: one stream of a connection, as `serve_connection` answers it, and an exchange over it.
use sqns.Base.{
  ℕ, ◌%◌, ◌^◌, ◌≤◌, ◌<◌, ◌≡◌, refl, sym, ap, ◌∙◌, Option, none, some, [], ◌∷◌, ◌++◌, append-nil,
  length, leb, ltb, arith, Bool-cases, inl, inr, if◌then◌else◌,
}
use sqns.Bytes.{Bytes, be_bytes}
use sqns.Errors.{io, ok, err}
use sqns.Crypto.{Ed25519}
use sqns.Record.{SignedRecord}
use sqns.Protocol.{
  malformed, Request, Response, error, encode_response, write_request, write_response, read_request,
  read_response, write_frame, read_frame, read_exact, max_message_len, response_type,
}
use sqns.Protocol.Messages.{IsRequest, IsResponse}
use sqns.Protocol.Frames.{read_request-write_request, read_response-write_response}
use sqns.Connect.{Connection, received, exchange}
use sqns.Server.{Server, handle}

-- What is sent of a response; one that cannot be written ends the stream.
unfoldable pub sent : Response → Bytes
sent resp = elim (write_response resp) [ ok out ↦ out | err e ↦ [] ]

module _ (ed : Ed25519) where
  -- The response to what was read from a stream, and the server after it.
  unfoldable pub respond : Server → ℕ → Bytes → Response × Server × Option SignedRecord
  respond s now stream = elim (read_request stream) [
    | ok (req, rest) ↦ handle ed s now req
    | err e ↦ (error malformed [], s, none)
  ]

  -- One round of the loop of `serve_connection`: the bytes sent back, and the server.
  unfoldable pub serve_stream : Server → ℕ → Bytes → Bytes × Server
  unfolding respond sent
  serve_stream s now stream = let (resp, s', pushed) = respond s now stream in (sent resp, s')

  abbrev pub connection_to : Server → ℕ → Connection
  connection_to s now out = some (serve_stream s now out).0

  respond-lem :
      (s : Server) (now : ℕ) (req : Request) (out : Bytes)
      → IsRequest req
      → write_request req ≡ ok out
      → respond s now out ≡ handle ed s now req
  unfolding respond
  respond-lem s now req out h w =
      let back : read_request out ≡ ok (req, []) =
        ap read_request (sym (append-nil out)) ∙ read_request-write_request req out [] h w in
      rw (back, respond) refl

  write_response-eq :
      (resp : Response)
      → length (encode_response resp) ≤ max_message_len
      → (out : Bytes) × (write_response resp ≡ ok out)
  unfolding write_response write_frame
  write_response-eq resp fits =
      elim (Bool-cases (ltb max_message_len (length (encode_response resp)))) [
        | inl long ↦ absurd (ground arith)
        | inr short ↦ (
          response_type resp
              ∷ (be_bytes 4 (length (encode_response resp) % 2 ^ 32) ++ encode_response resp),
          rw (write_response, write_frame, short) refl,
        )
      ]

  sent_long : (resp : Response) → max_message_len < length (encode_response resp) → sent resp ≡ []
  unfolding write_response write_frame sent
  sent_long resp long = elim (Bool-cases (ltb max_message_len (length (encode_response resp)))) [
    | inl e ↦ rw (sent, write_response, write_frame, e) refl
    | inr short ↦ absurd (ground arith)
  ]

  read-sent :
      (resp : Response)
      → IsResponse resp
      → length (encode_response resp) ≤ max_message_len
      → read_response (sent resp) ≡ ok (resp, [])
  unfolding sent
  read-sent resp h fits =
      let (out, w) = write_response-eq resp fits in
      let bytes : sent resp ≡ out = rw (sent, w) refl in
      ap read_response (bytes ∙ sym (append-nil out)) ∙ read_response-write_response resp out [] h w

  read_nothing : read_response [] ≡ err io
  unfolding read_response read_frame read_exact
  read_nothing = refl

  received-sent :
      (resp : Response)
      → IsResponse resp
      → received (sent resp)
        ≡ (if leb (length (encode_response resp)) max_message_len then ok resp else err io)
  unfolding received
  received-sent resp h = elim (Bool-cases (leb (length (encode_response resp)) max_message_len)) [
    | inl fits ↦ rw (received, read-sent resp h (ground arith), fits) refl
    | inr long ↦ rw (sent_long resp (ground arith), long, received, read_nothing) refl
  ]

  -- An exchange with a server, over a connection that loses nothing: for a request that can be written and whose
  -- response is well-formed, the client gets the response that `handle` gives when it has at most `max_message_len`
  -- bytes, and an I/O error for a longer one; the server is the one after `handle` in both cases.
  pub exchange_serve :
      (s : Server) (now : ℕ) (req : Request) (out : Bytes)
      → IsRequest req
      → write_request req ≡ ok out
      → IsResponse (handle ed s now req).0
      → (exchange (connection_to s now) req ≡ (
          if leb (length (encode_response (handle ed s now req).0)) max_message_len
          then ok (handle ed s now req).0
          else err io))
        × ((serve_stream s now out).1 ≡ (handle ed s now req).1)
  unfolding exchange serve_stream sent
  exchange_serve s now req out h w good =
      let same : respond s now out ≡ handle ed s now req = respond-lem s now req out h w in
      (
        rw (exchange, w, serve_stream, same, received-sent (handle ed s now req).0 good) refl,
        rw (serve_stream, same) refl,
      )
