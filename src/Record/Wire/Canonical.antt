-- ===== src/Record/Wire/Canonical.antt =====
-- What decodes was encoded: the decoders accept no second form of a value, and nothing out of range.
use mathlib.Core.Path.{ap₂}
use sqns.Base.{
  ℕ, ◌%◌, ◌^◌, ◌≤◌, ◌<◌, ◌≡◌, refl, sym, ap, ◌∙◌, true, not, [], ◌∷◌, ◌++◌, length, All, arith,
  ◌==◌, ==_iff, append-nil,
}
use sqns.Bytes.{Bytes, IsByte, be_bytes}
use sqns.Errors.{malformed_record, ok}
use sqns.Codec.{u8, u16, u32, u64, array, bytes, string, short_string, repeat, lift}
use sqns.Codec.Consumes.{
  Consumes, Consumes-bind, Consumes-pure, Consumes-fail, Consumes-if, Consumes-require,
  Consumes-lift, Consumes-take, Consumes-unsigned, Consumes-u8, Consumes-short_string,
  Consumes-string, Consumes-repeat, decode_whole-Consumes,
}
use sqns.Record.{v4, v6, name, live, superseded, revoked, Record, SignedRecord, record_version}
use sqns.Record.Wire.{
  host_v4, host_v6, host_name, body_live, body_superseded, body_revoked, encode_host, decode_host,
  encode_endpoint, decode_endpoint, encode_delegation, decode_delegation, encode_body, decode_body,
  encode_record, decode_record_from, decode_record, encode_signed, decode_signed_from,
  decode_signed,
}
use sqns.Record.Wire.Layout.{IsHost, IsEndpoint, IsDelegation, IsBody, IsRecord, IsSigned}

pub kind-eq : (a b : ℕ) → (a == b) ≡ true → a ≡ b
kind-eq a b = (==_iff a b).0

Consumes-IsHost :
    (kind : ℕ) → Consumes (decode_host kind) (λ h bs. (kind ∷ bs ≡ encode_host h) × IsHost h)
unfolding decode_host encode_host
Consumes-IsHost kind =
    Consumes-if (kind == host_v4) _ _ _
      (λ is. Consumes-bind (array 4) _ _ _ (Consumes-take 4) λ a bs (same, size, octets).
        Consumes-pure _ (v4 a)
          (ap₂ ◌∷◌ (kind-eq kind host_v4 is) (append-nil bs ∙ same), (size, octets)))
      (λ _.
        Consumes-if (kind == host_v6) _ _ _
          (λ is. Consumes-bind (array 16) _ _ _ (Consumes-take 16) λ a bs (same, size, octets).
            Consumes-pure _ (v6 a)
              (ap₂ ◌∷◌ (kind-eq kind host_v6 is) (append-nil bs ∙ same), (size, octets)))
          (λ _.
            Consumes-if (kind == host_name) _ _ _
              (λ is. Consumes-bind short_string _ _ _ Consumes-short_string λ n bs (same, text).
                Consumes-require (not (length n == 0)) malformed_record _ _ λ filled.
                  Consumes-pure _ (name n) (
                    ap₂ ◌∷◌ (kind-eq kind host_name is) (append-nil bs ∙ same),
                    (text, nonempty n filled),
                  ))
              (λ _. Consumes-fail _ malformed_record)))
  where
    nonempty : (n : Bytes) → not (length n == 0) ≡ true → 1 ≤ length n
    nonempty n h = ground arith

-- Bytes read one after the other, the last of them followed by nothing.
join3 :
    {a b c a' b' c' : Bytes} → a ≡ a' → b ≡ b' → c ≡ c' → a ++ (b ++ (c ++ [])) ≡ a' ++ (b' ++ c')
join3 {c = c} p q r = ap₂ ◌++◌ p (ap₂ ◌++◌ q (append-nil c ∙ r))

Consumes-IsEndpoint : Consumes decode_endpoint (λ e bs. (bs ≡ encode_endpoint e) × IsEndpoint e)
unfolding decode_endpoint encode_endpoint
Consumes-IsEndpoint = Consumes-bind u16 _ _ _ (Consumes-unsigned 2) λ priority b1 (e1, f1).
    Consumes-bind u16 _ _ _ (Consumes-unsigned 2) λ weight b2 (e2, f2).
      Consumes-bind u16 _ _ _ (Consumes-unsigned 2) λ port b3 (e3, f3).
        Consumes-bind u8 _ _ _ Consumes-u8 λ kind b4 (e4, _).
          Consumes-bind (decode_host kind) _ _ _ (Consumes-IsHost kind) λ host b5 (e5, f5).
            Consumes-pure _ _ (
              ap₂ ◌++◌ e1 (ap₂ ◌++◌ e2 (ap₂ ◌++◌ e3 (ap₂ ◌++◌ e4 (append-nil b5) ∙ e5))),
              record { host = f5; port = f3; priority = f1; weight = f2 },
            )

pub Consumes-IsDelegation :
    Consumes decode_delegation (λ d bs. (bs ≡ encode_delegation d) × IsDelegation d)
unfolding decode_delegation encode_delegation
Consumes-IsDelegation =
    Consumes-bind (array 32) _ _ _ (Consumes-take 32) λ identity b1 (e1, s1, f1).
      Consumes-bind u64 _ _ _ (Consumes-unsigned 8) λ not_after b2 (e2, f2).
        Consumes-bind (array 64) _ _ _ (Consumes-take 64) λ signature b3 (e3, s3, f3).
          Consumes-pure _ _
            (join3 e1 e2 e3, record { identity = (s1, f1); not_after = f2; signature = (s3, f3) })

Consumes-IsBody :
    (kind : ℕ) → Consumes (decode_body kind) (λ b bs. (kind ∷ bs ≡ encode_body b) × IsBody b)
unfolding decode_body encode_body
Consumes-IsBody kind =
    Consumes-if (kind == body_live) _ _ _
      (λ is. Consumes-bind u8 _ _ _ Consumes-u8 λ count b1 (e1, f1).
        Consumes-bind (repeat count decode_endpoint) _ _ _
          (Consumes-repeat decode_endpoint encode_endpoint IsEndpoint Consumes-IsEndpoint count)
          λ eps b2 (e2, size, all). Consumes-pure _ (live eps) (
            ap₂ ◌∷◌ (kind-eq kind body_live is)
                (ap₂ ◌++◌ (e1 ∙ ap (λ (n : ℕ). n ∷ []) (omega arith)) (append-nil b2 ∙ e2)),
            (omega arith, all),
          ))
      (λ _.
        Consumes-if (kind == body_superseded) _ _ _
          (λ is. Consumes-bind (array 32) _ _ _ (Consumes-take 32) λ next b1 (e1, s1, f1).
            Consumes-bind string _ _ _ Consumes-string λ reason b2 (e2, text).
              Consumes-pure _ (superseded next reason) (
                ap₂ ◌∷◌ (kind-eq kind body_superseded is) (ap₂ ◌++◌ e1 (append-nil b2 ∙ e2)),
                ((s1, f1), text),
              ))
          (λ _.
            Consumes-if (kind == body_revoked) _ _ _
              (λ is. Consumes-bind string _ _ _ Consumes-string λ reason b1 (e1, text).
                Consumes-pure _ (revoked reason)
                  (ap₂ ◌∷◌ (kind-eq kind body_revoked is) (append-nil b1 ∙ e1), text))
              (λ _. Consumes-fail _ malformed_record)))

Consumes-IsRecord : Consumes decode_record_from (λ r bs. (bs ≡ encode_record r) × IsRecord r)
unfolding decode_record_from encode_record
Consumes-IsRecord = Consumes-bind u8 _ _ _ Consumes-u8 λ version b0 (e0, _).
    Consumes-require (version == record_version) malformed_record _ _ λ current.
      Consumes-bind (array 32) _ _ _ (Consumes-take 32) λ key b1 (e1, s1, f1).
        Consumes-bind decode_delegation _ _ _ Consumes-IsDelegation λ delegation b2 (e2, f2).
          Consumes-bind u64 _ _ _ (Consumes-unsigned 8) λ serial b3 (e3, f3).
            Consumes-bind u64 _ _ _ (Consumes-unsigned 8) λ issued_at b4 (e4, f4).
              Consumes-bind u32 _ _ _ (Consumes-unsigned 4) λ ttl b5 (e5, f5).
                Consumes-bind u8 _ _ _ Consumes-u8 λ kind b6 (e6, _).
                  Consumes-bind (decode_body kind) _ _ _ (Consumes-IsBody kind) λ body b7 (e7, f7).
                    Consumes-pure _ _ (
                      ap₂ ◌++◌
                          (e0 ∙ ap (λ (v : ℕ). v ∷ []) (kind-eq version record_version current))
                          (ap₂ ◌++◌ e1 (
                            ap₂ ◌++◌ e2 (
                              ap₂ ◌++◌ e3
                                (ap₂ ◌++◌ e4 (ap₂ ◌++◌ e5 (ap₂ ◌++◌ e6 (append-nil b7) ∙ e7)))))),
                      record {
                        key = (s1, f1);
                        delegation = f2;
                        serial = f3;
                        issued_at = f4;
                        ttl = f5;
                        body = f7;
                      },
                    )

-- Bytes that decode to a record are its canonical bytes, and each of its fields is in range.
pub encode_record-decode_record :
    (bs : Bytes) (r : Record)
    → All IsByte bs
    → decode_record bs ≡ ok r
    → (encode_record r ≡ bs) × IsRecord r
unfolding decode_record
encode_record-decode_record bs r bytes e =
    let (same, fits) = decode_whole-Consumes decode_record_from _ bs r Consumes-IsRecord bytes e in
    (sym same, fits)

pub Consumes-IsSigned : Consumes decode_signed_from (λ s bs. (bs ≡ encode_signed s) × IsSigned s)
unfolding decode_signed_from encode_signed
Consumes-IsSigned = Consumes-bind u16 _ _ _ (Consumes-unsigned 2) λ len b1 (e1, f1).
    Consumes-bind (bytes len) _ _ _ (Consumes-take len) λ body b2 (e2, s2, f2).
      Consumes-bind (lift (decode_record body)) _ _ _
        (Consumes-lift (decode_record body) (λ r bs. (bs ≡ []) × (decode_record body ≡ ok r))
          λ r e. (refl, e))
        λ rec b3 (e3, decoded).
          Consumes-bind (array 64) _ _ _ (Consumes-take 64) λ signature b4 (e4, s4, f4).
            let (same, fits) = encode_record-decode_record body rec f2 decoded in
            let size : length (encode_record rec) ≡ len = ap length same ∙ s2 in
            Consumes-pure _ _ (
              ap₂ ◌++◌ (e1 ∙ ap (be_bytes 2) (small len (length (encode_record rec)) f1 size))
                  (ap₂ ◌++◌ (e2 ∙ sym same) (ap₂ ◌++◌ e3 (append-nil b4 ∙ e4))),
              record { rec = fits; signature = (s4, f4); fits = omega arith },
            )
  where
    small : (n m : ℕ) → n < 2 ^ 16 → m ≡ n → n ≡ m % 2 ^ 16
    small n m h e = omega arith

-- Bytes that decode to a signed record are what encoding it gives, and it is in range.
pub encode_signed-decode_signed :
    (bs : Bytes) (s : SignedRecord)
    → All IsByte bs
    → decode_signed bs ≡ ok s
    → (encode_signed s ≡ bs) × IsSigned s
unfolding decode_signed
encode_signed-decode_signed bs s bytes e =
    let (same, fits) = decode_whole-Consumes decode_signed_from _ bs s Consumes-IsSigned bytes e in
    (sym same, fits)
