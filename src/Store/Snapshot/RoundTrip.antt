-- ===== src/Store/Snapshot/RoundTrip.antt =====
-- A snapshot that was written is read back.
use sqns.Base.{ℕ, ◌%◌, ◌^◌, ◌<◌, ◌≡◌, refl, subst, List, [], length, All, arith, ◌==◌}
use sqns.Bytes.{Bytes, IsArray, bytes_eq}
use sqns.Errors.{malformed_record, ok}
use sqns.Codec
use sqns.Codec.{u8, u32, bytes, array, repeat, encode_all}
use sqns.Codec.Reads.{
  Reads, Reads-bind, Reads-map, Reads-take, Reads-unsigned, Reads-u8, Reads-require, Reads-repeat,
  decode_whole-Reads,
}
use sqns.Record.{PubKey, SignedRecord}
use sqns.Record.Wire.{encode_signed, decode_signed_from}
use sqns.Record.Wire.Layout.{IsSigned}
use sqns.Record.Wire.RoundTrip.{Reads-signed}
use sqns.Map.{Map}
use sqns.Store.Snapshot.{
  snapshot_magic, snapshot_version, sort_bindings, encode_binding, encode_snapshot, decode_binding,
  insert_all, decode_snapshot_from, decode_snapshot,
}
use sqns.Store.Snapshot.Bindings.{sort_bindings-All}

-- The two keys of a binding.
abbrev pub IsBinding : Bytes × PubKey → Type 0
IsBinding b = IsArray 32 b.0 × IsArray 32 b.1

Reads-binding : (b : Bytes × PubKey) → IsBinding b → Reads decode_binding (encode_binding b) b
unfolding decode_binding
Reads-binding b h =
    Reads-bind (array 32) _ (Reads-take 32 b.0 h.0.0)
      (Reads-map (array 32) _ (Reads-take 32 b.1 h.1.0))

-- The number of the elements as it is written is the number of them.
counted :
    {A : Type 0} (item : Codec.Decode A) (encode : A → Bytes) (P : A → Type 0) (xs : List A)
    → ((x : A) → P x → Reads item (encode x) x)
    → All P xs
    → length xs < 2 ^ 32
    → Reads (repeat (length xs % 2 ^ 32) item) (encode_all encode xs) xs
counted item encode P xs one all h =
    subst (λ (n : ℕ). Reads (repeat n item) (encode_all encode xs) xs) (omega arith)
      (Reads-repeat item encode P xs one all)

-- Records that the wire form can carry, and bindings of 32-byte keys, fewer than 2^32 of each, are read
-- back from a snapshot: the records in their order, and the bindings as inserting them by their keys'
-- order gives them.
pub decode_snapshot-encode_snapshot :
    (recs : List SignedRecord) (bindings : Map PubKey)
    → All IsSigned recs
    → All IsBinding bindings
    → length recs < 2 ^ 32
    → length bindings < 2 ^ 32
    → decode_snapshot (encode_snapshot recs bindings)
      ≡ ok (recs, insert_all [] (sort_bindings bindings))
unfolding decode_snapshot decode_snapshot_from encode_snapshot
decode_snapshot-encode_snapshot recs bindings signed bound few few' =
    let sorted = sort_bindings bindings in
    let (all, size) = sort_bindings-All IsBinding bindings bound in
    let pairs : Reads (repeat (length bindings % 2 ^ 32) decode_binding)
        (encode_all encode_binding sorted) sorted =
      subst
        (λ (n : ℕ).
          Reads (repeat (n % 2 ^ 32) decode_binding) (encode_all encode_binding sorted) sorted)
        size
        (counted decode_binding encode_binding IsBinding sorted Reads-binding all
          (omega (arith, size))) in
    decode_whole-Reads decode_snapshot_from _ _ (
      Reads-bind (bytes 6) _ (Reads-take 6 snapshot_magic refl) (
        Reads-require (bytes_eq snapshot_magic snapshot_magic) malformed_record _
          (unfold bytes_eq in refl)
          (Reads-bind u8 _ (Reads-u8 snapshot_version (omega arith)) (
            Reads-require (snapshot_version == snapshot_version) malformed_record _ refl (
              Reads-bind u32 _ (Reads-unsigned 4 (length recs % 2 ^ 32) (omega arith)) (
                Reads-bind (repeat (length recs % 2 ^ 32) decode_signed_from) _
                  (counted decode_signed_from encode_signed IsSigned recs Reads-signed signed few)
                  (Reads-bind u32 _ (Reads-unsigned 4 (length bindings % 2 ^ 32) (omega arith))
                    (Reads-map (repeat (length bindings % 2 ^ 32) decode_binding) _ pairs))))))))
