-- ===== src/Connect/Link.antt =====
-- crates/sqnsd/src/link.rs, and `request_server` of crates/sqns-client/src/resolver.rs, which is the same: a connection to
-- one server that is kept, and re-dialed once if an exchange on it fails. `streams` says what each connection does with
-- what is written to it at the time of the call.
use sqns.Base.{◌≡◌, refl, inl, inr, Option, none, some}
use sqns.Errors.{Error, Result, ok, err, Result-cases}
use sqns.Protocol.{Request, Response}
use sqns.Connect.{Connection, exchange}

module _ {C : Type 0} where
  -- A connection that has just been dialed, and the slot afterwards.
  unfoldable pub request_new : (C → Connection) → Result C → Request → Result Response × Option C
  request_new streams (err e) req = (err e, none)
  request_new streams (ok conn) req = elim (exchange (streams conn) req) [
    | ok resp ↦ (ok resp, some conn)
    | err e ↦ (err e, none)
  ]

  -- `PeerLink::request`, with the slot before and after.
  unfoldable pub request :
      (C → Connection) → Result C → Option C → Request → Result Response × Option C
  unfolding request_new
  request streams dialed none req = request_new streams dialed req
  request streams dialed (some conn) req = elim (exchange (streams conn) req) [
    | ok resp ↦ (ok resp, some conn)
    | err e ↦ request_new streams dialed req
  ]

  -- What a request leaves in the slot: the connection that gave the response, or nothing.
  abbrev IsPooled : (C → Connection) → Request → Result Response × Option C → Type 0
  IsPooled streams req (ok resp, slot) =
      (conn : C) × (slot ≡ some conn) × (exchange (streams conn) req ≡ ok resp)
  IsPooled streams req (err e, slot) = slot ≡ none

  request_new-IsPooled :
      (streams : C → Connection) (dialed : Result C) (req : Request)
      → IsPooled streams req (request_new streams dialed req)
  unfolding request_new
  request_new-IsPooled streams (err e) req = refl
  request_new-IsPooled streams (ok conn) req = elim (Result-cases (exchange (streams conn) req)) [
    | inl (resp, e) ↦ rw (request_new, e) (conn, refl, e)
    | inr (x, e) ↦ rw (request_new, e) refl
  ]

  -- A request over a kept connection, whatever the connections do: after a response the slot keeps the connection that
  -- gave it, and after an error the slot is empty.
  request-IsPooled :
      (streams : C → Connection) (dialed : Result C) (slot : Option C) (req : Request)
      → IsPooled streams req (request streams dialed slot req)
  unfolding request
  request-IsPooled streams dialed none req = request_new-IsPooled streams dialed req
  request-IsPooled streams dialed (some conn) req =
      elim (Result-cases (exchange (streams conn) req)) [
        | inl (resp, e) ↦ rw (request, e) (conn, refl, e)
        | inr (x, e) ↦ rw (request, e) (request_new-IsPooled streams dialed req)
      ]

  -- A connection that went stale costs nothing but a dial: when no exchange on the kept connection succeeds, and the
  -- connection that is dialed gives a response, the request gives that response and keeps the new connection.
  pub request_redials :
      (streams : C → Connection) (conn : C) (slot : Option C) (req : Request) (resp : Response)
      → ((old : C) → slot ≡ some old → (e : Error) × (exchange (streams old) req ≡ err e))
      → exchange (streams conn) req ≡ ok resp
      → request streams (ok conn) slot req ≡ (ok resp, some conn)
  unfolding request request_new
  request_redials streams conn none req resp stale good = rw (request, request_new, good) refl
  request_redials streams conn (some old) req resp stale good =
      let (e, failed) = stale old refl in rw (request, failed, request_new, good) refl
