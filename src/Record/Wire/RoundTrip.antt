-- ===== src/Record/Wire/RoundTrip.antt =====
-- What was encoded decodes to itself.
use sqns.Base.{
  ℕ, ◌%◌, ◌^◌, ◌<◌, ◌≡◌, refl, sym, not, ◌∷◌, ◌++◌, length, arith, ◌==◌, append-nil, subst,
}
use sqns.Bytes.{Bytes}
use sqns.Errors.{malformed_record, ok}
use sqns.Codec.{
  u8, u16, u32, u64, array, bytes, string, short_string, repeat, lift, encode_all, put_short_string,
  put_string,
}
use sqns.Codec.Reads.{
  Reads, Reads-bind, Reads-map, Reads-cast, Reads-pure, Reads-take, Reads-unsigned, Reads-u8,
  Reads-require, Reads-lift, Reads-short_string, Reads-string, Reads-repeat, decode_whole-Reads,
}
use sqns.Record.{
  Host, v4, v6, name, Endpoint, Delegation, RecordBody, live, superseded, revoked, Record,
  SignedRecord,
}
use sqns.Record.Wire.{
  host_v4, host_v6, host_name, body_live, body_superseded, body_revoked, encode_host, decode_host,
  encode_endpoint, decode_endpoint, encode_delegation, decode_delegation, encode_body, decode_body,
  encode_record, decode_record_from, decode_record, encode_signed, decode_signed_from,
  decode_signed,
}
use sqns.Record.Wire.Layout.{IsHost, IsEndpoint, IsDelegation, IsBody, IsRecord, IsSigned}

-- The kind byte of a host, and the bytes behind it; so for a body.
abbrev host_kind : Host → ℕ
host_kind (v4 a) = host_v4
host_kind (v6 a) = host_v6
host_kind (name n) = host_name

abbrev host_rest : Host → Bytes
host_rest (v4 a) = a
host_rest (v6 a) = a
host_rest (name n) = put_short_string n

abbrev body_kind : RecordBody → ℕ
body_kind (live eps) = body_live
body_kind (superseded next reason) = body_superseded
body_kind (revoked reason) = body_revoked

abbrev body_rest : RecordBody → Bytes
body_rest (live eps) = (length eps % 2 ^ 8) ∷ encode_all encode_endpoint eps
body_rest (superseded next reason) = next ++ put_string reason
body_rest (revoked reason) = put_string reason

host_parts : (h : Host) → host_kind h ∷ host_rest h ≡ encode_host h
unfolding encode_host
host_parts (v4 a) = refl
host_parts (v6 a) = refl
host_parts (name n) = refl

host_kind-lt : (h : Host) → host_kind h < 256
host_kind-lt (v4 a) = omega arith
host_kind-lt (v6 a) = omega arith
host_kind-lt (name n) = omega arith

body_parts : (b : RecordBody) → body_kind b ∷ body_rest b ≡ encode_body b
unfolding encode_body
body_parts (live eps) = refl
body_parts (superseded next reason) = refl
body_parts (revoked reason) = refl

body_kind-lt : (b : RecordBody) → body_kind b < 256
body_kind-lt (live eps) = omega arith
body_kind-lt (superseded next reason) = omega arith
body_kind-lt (revoked reason) = omega arith

Reads-host : (h : Host) → IsHost h → Reads (decode_host (host_kind h)) (host_rest h) h
unfolding decode_host
Reads-host (v4 a) fits = Reads-map (array 4) v4 (Reads-take 4 a fits.0)
Reads-host (v6 a) fits = Reads-map (array 16) v6 (Reads-take 16 a fits.0)
Reads-host (name n) (text, filled) = Reads-cast _ (name n) (append-nil _) (
    Reads-bind short_string _ (Reads-short_string n text.2 text.1)
      (Reads-require (not (length n == 0)) malformed_record _ (ground arith) (Reads-pure (name n))))

pub Reads-endpoint : (e : Endpoint) → IsEndpoint e → Reads decode_endpoint (encode_endpoint e) e
unfolding decode_endpoint encode_endpoint
Reads-endpoint e h = Reads-bind u16 _ (Reads-unsigned 2 e.priority h.priority) (
    Reads-bind u16 _ (Reads-unsigned 2 e.weight h.weight) (
      Reads-bind u16 _ (Reads-unsigned 2 e.port h.port) (
        Reads-cast _ e (host_parts e.host) (
          Reads-bind u8 _ (Reads-u8 (host_kind e.host) (host_kind-lt e.host))
            (Reads-map (decode_host (host_kind e.host)) _ (Reads-host e.host h.host))))))

pub Reads-delegation :
    (d : Delegation) → IsDelegation d → Reads decode_delegation (encode_delegation d) d
unfolding decode_delegation encode_delegation
Reads-delegation d h = Reads-bind (array 32) _ (Reads-take 32 d.identity h.identity.0) (
    Reads-bind u64 _ (Reads-unsigned 8 d.not_after h.not_after)
      (Reads-map (array 64) _ (Reads-take 64 d.signature h.signature.0)))

Reads-body : (b : RecordBody) → IsBody b → Reads (decode_body (body_kind b)) (body_rest b) b
unfolding decode_body
Reads-body (live eps) (few, all) = Reads-bind u8 _ (Reads-u8 (length eps % 2 ^ 8) (omega arith)) (
    Reads-map (repeat (length eps % 2 ^ 8) decode_endpoint) live (
      subst (λ (n : ℕ). Reads (repeat n decode_endpoint) (encode_all encode_endpoint eps) eps)
        (omega arith)
        (Reads-repeat decode_endpoint encode_endpoint IsEndpoint eps Reads-endpoint all)))
Reads-body (superseded next reason) (size, text) =
    Reads-bind (array 32) _ (Reads-take 32 next size.0)
      (Reads-map string (superseded next) (Reads-string reason text.2 text.1))
Reads-body (revoked reason) text = Reads-map string revoked (Reads-string reason text.2 text.1)

Reads-record : (r : Record) → IsRecord r → Reads decode_record_from (encode_record r) r
unfolding decode_record_from encode_record
Reads-record r h = Reads-bind u8 _ (Reads-u8 4 (omega arith)) (
    Reads-require (4 == 4) malformed_record _ refl (
      Reads-bind (array 32) _ (Reads-take 32 r.key h.key.0) (
        Reads-bind decode_delegation _ (Reads-delegation r.delegation h.delegation) (
          Reads-bind u64 _ (Reads-unsigned 8 r.serial h.serial) (
            Reads-bind u64 _ (Reads-unsigned 8 r.issued_at h.issued_at) (
              Reads-bind u32 _ (Reads-unsigned 4 r.ttl h.ttl) (
                Reads-cast _ r (body_parts r.body) (
                  Reads-bind u8 _ (Reads-u8 (body_kind r.body) (body_kind-lt r.body)) (
                    Reads-map (decode_body (body_kind r.body)) _ (Reads-body r.body h.body))))))))))

-- A record that the wire form can carry is read back from its canonical bytes.
pub decode_record-encode_record : (r : Record) → IsRecord r → decode_record (encode_record r) ≡ ok r
unfolding decode_record
decode_record-encode_record r h =
    decode_whole-Reads decode_record_from (encode_record r) r (Reads-record r h)

pub Reads-signed : (s : SignedRecord) → IsSigned s → Reads decode_signed_from (encode_signed s) s
unfolding decode_signed_from encode_signed
Reads-signed s h =
    Reads-bind u16 _ (Reads-unsigned 2 (length (encode_record s.rec) % 2 ^ 16) (omega arith)) (
      Reads-bind (bytes (length (encode_record s.rec) % 2 ^ 16)) _
        (Reads-take _ (encode_record s.rec) (sym (mod_small (length (encode_record s.rec)) h.fits)))
        (Reads-bind (lift (decode_record (encode_record s.rec))) _
          (Reads-lift (decode_record (encode_record s.rec)) s.rec
            (decode_record-encode_record s.rec h.rec))
          (Reads-map (array 64) _ (Reads-take 64 s.signature h.signature.0))))
  where
    mod_small : (n : ℕ) → n < 2 ^ 16 → n % 2 ^ 16 ≡ n
    mod_small n lt = omega arith

-- A signed record that the wire form can carry, its body no longer than the two bytes of its length
-- can say, is read back from its bytes.
pub decode_signed-encode_signed :
    (s : SignedRecord) → IsSigned s → decode_signed (encode_signed s) ≡ ok s
unfolding decode_signed
decode_signed-encode_signed s h =
    decode_whole-Reads decode_signed_from (encode_signed s) s (Reads-signed s h)
