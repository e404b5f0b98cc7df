-- ===== src/Record/Grant/RoundTrip.antt =====
-- Exactly the bytes of a delegation that covers its key decode as a delegation file.
use sqns.Base.{
  ℕ, ◌≡◌, ◌↔◌, refl, ap, ◌∙◌, subst, inl, inr, [], ◌∷◌, ◌++◌, All, ◌==◌, arith, append-nil,
}
use mathlib.Core.Path.{ap₂}
use sqns.Bytes.{Bytes, IsByte, IsArray, bytes_eq, bytes_eq_sound}
use sqns.Errors.{Error, ok, err, Result-cases}
use sqns.Crypto.{Ed25519}
use sqns.Codec.{u8, bytes, array, decode_whole}
use sqns.Codec.Reads.{
  Reads, Reads-bind, Reads-cast, Reads-take, Reads-u8, Reads-require, Reads-pure,
  decode_whole-Reads,
}
use sqns.Codec.Consumes.{
  Consumes, Consumes-bind, Consumes-require, Consumes-take, Consumes-u8, Consumes-pure,
  decode_whole-Consumes,
}
use sqns.Record.Wire.{decode_delegation}
use sqns.Record.Wire.Layout.{IsDelegation}
use sqns.Record.Wire.RoundTrip.{Reads-delegation}
use sqns.Record.Wire.Canonical.{Consumes-IsDelegation, kind-eq}
use sqns.Record.Authority.{verify_delegation}
use sqns.Record.Grant.{
  DelegationFile, delegation_file_magic, delegation_file_version, encode_file, decode_file_from,
  decode_file,
}

pub record IsFile (f : DelegationFile) : Type 0 where
  pub service_key : IsArray 32 f.service_key
  pub delegation : IsDelegation f.delegation

Reads-file : (f : DelegationFile) → IsFile f → Reads decode_file_from (encode_file f) f
unfolding decode_file_from encode_file
Reads-file f h = Reads-bind (bytes 7) _ (Reads-take 7 delegation_file_magic refl) (
    Reads-require (bytes_eq delegation_file_magic delegation_file_magic) Error.delegation _
      (unfold bytes_eq in refl)
      (Reads-bind u8 _ (Reads-u8 delegation_file_version (omega arith)) (
        Reads-require (delegation_file_version == delegation_file_version) Error.delegation _ refl (
          Reads-bind (array 32) _ (Reads-take 32 f.service_key h.service_key.0) (
            Reads-cast _ f (append-nil _) (
              Reads-bind decode_delegation _ (Reads-delegation f.delegation h.delegation)
                (Reads-pure f)))))))

Consumes-IsFile : Consumes decode_file_from (λ f bs. (bs ≡ encode_file f) × IsFile f)
unfolding decode_file_from encode_file
Consumes-IsFile = Consumes-bind (bytes 7) _ _ _ (Consumes-take 7) λ magic b0 (e0, s0, f0).
    Consumes-require (bytes_eq magic delegation_file_magic) Error.delegation _ _ λ right.
      Consumes-bind u8 _ _ _ Consumes-u8 λ version b1 (e1, f1).
        Consumes-require (version == delegation_file_version) Error.delegation _ _ λ current.
          Consumes-bind (array 32) _ _ _ (Consumes-take 32) λ key b2 (e2, s2, f2).
            Consumes-bind decode_delegation _ _ _ Consumes-IsDelegation λ delegation b3 (e3, f3).
              Consumes-pure _ _ (
                ap₂ ◌++◌ (e0 ∙ bytes_eq_sound magic delegation_file_magic right) (
                    ap₂ ◌++◌
                      (e1
                        ∙ ap (λ (v : ℕ). v ∷ []) (kind-eq version delegation_file_version current))
                      (ap₂ ◌++◌ e2 (append-nil b3 ∙ e3))),
                record { service_key = (s2, f2); delegation = f3 },
              )

module _ (ed : Ed25519) where
  pub decode_file-encode_file :
      (f : DelegationFile)
      → IsFile f
      → verify_delegation ed f.delegation f.service_key ≡ ok tt
      → decode_file ed (encode_file f) ≡ ok f
  unfolding decode_file
  decode_file-encode_file f fits covered =
      rw
        (
          decode_whole-Reads decode_file_from (encode_file f) f (Reads-file f fits),
          decode_file,
          covered,
        )
        refl

  -- Bytes decode to a delegation file exactly if they are its bytes, its fields have their sizes and the
  -- identity's signature covers its service key.
  pub decode_file_iff :
      (input : Bytes) (f : DelegationFile)
      → All IsByte input
      → (decode_file ed input ≡ ok f) ↔ (
          (input ≡ encode_file f)
          × IsFile f
          × (verify_delegation ed f.delegation f.service_key ≡ ok tt))
  unfolding decode_file
  decode_file_iff input f octets = (sound, complete)
    where
      Described : DelegationFile → Type 0
      Described g =
          (input ≡ encode_file g)
          × IsFile g
          × (verify_delegation ed g.delegation g.service_key ≡ ok tt)

      failed : (x : Error) → err x ≡ ok f → ⊥
      failed x e = ground arith

      found : (g : DelegationFile) → ok g ≡ ok f → g ≡ f
      found g e = ground arith

      sound :
          decode_file ed input ≡ ok f
          → (input ≡ encode_file f)
            × IsFile f
            × (verify_delegation ed f.delegation f.service_key ≡ ok tt)
      sound e = elim (Result-cases (decode_whole decode_file_from input)) [
        | inr (x, bad) ↦ absurd (failed x (rw (bad, decode_file) at e))
        | inl (g, good) ↦ elim (Result-cases (verify_delegation ed g.delegation g.service_key)) [
          | inr (x, bad) ↦ absurd (failed x (rw (good, decode_file, bad) at e))
          | inl (u, covered) ↦
              let (same, fits) =
                decode_whole-Consumes decode_file_from _ input g Consumes-IsFile octets good in
              subst Described (found g (rw (good, decode_file, covered) at e)) (same, fits, covered)
        ]
      ]

      complete :
          (input ≡ encode_file f)
            × IsFile f
            × (verify_delegation ed f.delegation f.service_key ≡ ok tt)
          → decode_file ed input ≡ ok f
      complete (same, fits, covered) =
          ap (decode_file ed) same ∙ decode_file-encode_file f fits covered
