-- ===== src/Resolver/Remote.antt =====
-- A server as a client reaches it: over a connection that loses nothing, by the bytes of requests and responses.
use sqns.Base.{
  ℕ, ◌%◌, ◌^◌, ◌<◌, ◌≡◌, ◌∙◌, refl, false, true, ◌∷◌, ◌++◌, length, length-append, ltb, leb, arith,
  ap,
}
use sqns.Bytes.{Bytes, be_bytes, length-be_bytes}
use sqns.Errors.{ok}
use sqns.Crypto.{Ed25519}
use sqns.Record.{Record, SignedRecord, expires_at}
use sqns.Record.Wire.{encode_signed}
use sqns.Record.Wire.Layout.{IsSigned}
use sqns.Record.Wire.Sizes.{length-encode_signed}
use sqns.Store.{stored, put, replace}
use sqns.Protocol.{
  publish, published, request_type, encode_request, encode_response, write_request, write_frame,
  max_message_len,
}
use sqns.Connect.{exchange}
use sqns.Server.{Server, handle}
use sqns.Server.Publish.{handle_stored}
use sqns.Server.Stream.{connection_to, exchange_serve}
use sqns.Resolver.{ServerLink}

expires_at-lt : (r : Record) → expires_at r < 2 ^ 64
unfolding expires_at
expires_at-lt r = ground arith

write_publish :
    (x : SignedRecord) → IsSigned x → (out : Bytes) × (write_request (publish x) ≡ ok out)
unfolding write_request write_frame encode_request
write_publish x h =
    let short : ltb max_message_len (length (encode_signed x)) ≡ false =
      ground (arith, length-encode_signed x h, h.fits) in
    (
      request_type (publish x)
          ∷ (be_bytes 4 (length (encode_signed x) % 2 ^ 32) ++ encode_signed x),
      rw (write_request, write_frame, short) refl,
    )

length-published :
    (serial end : ℕ) → leb (length (encode_response (published serial end))) max_message_len ≡ true
unfolding encode_response
length-published serial end = ground (
  arith,
  length-append (be_bytes 8 serial) (be_bytes 8 end),
  length-be_bytes 8 serial,
  length-be_bytes 8 end,
)

module _ (ed : Ed25519) where
  -- Over the connection, with the encoders, the decoders and the limit of a frame.
  abbrev pub server_link : Server → ℕ → ServerLink
  server_link s now req = exchange (connection_to ed s now) req

  pub server_link-stored :
      (s : Server) (now : ℕ) (x : SignedRecord)
      → IsSigned x
      → put ed s.store now x ≡ ok (stored, replace s.store x)
      → server_link s now (publish x) ≡ ok (published x.rec.serial (expires_at x.rec))
  server_link-stored s now x h e =
      let (out, written) = write_publish x h in
      let reply : (handle ed s now (publish x)).0 ≡ published x.rec.serial (expires_at x.rec) =
        ap (λ y. y.0) (handle_stored ed s now x (replace s.store x) e) in
      (exchange_serve ed s now (publish x) out h written
        (rw reply (h.rec.serial, expires_at-lt x.rec))).0
      ∙ rw (reply, length-published x.rec.serial (expires_at x.rec)) refl
