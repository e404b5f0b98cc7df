-- ===== src/Key/Secret.antt =====
-- crates/sqns-core/src/key.rs: private keys in files. A signing key is its seed.
use sqns.Base.{
  ℕ, ◌%◌, ◌≡◌, refl, ◌∙◌, inl, true, none, some, [], ◌∷◌, ◌++◌, length, All, All-append, ◌==◌,
  arith, if◌then◌else◌,
}
use sqns.Bytes.{Bytes, IsArray, bytes_eq_refl}
use sqns.Bytes.Utf8.Encode.{IsChar, encode_utf8, from_utf8, from_utf8-encode_utf8}
use sqns.Errors.{bad_key, Result, ok, err, check, ◌>>=◌, ◌>>◌}
use sqns.Map.{get, insert}
use sqns.Map.Laws.{get-insert}
use sqns.Text.{Text, trim}
use sqns.Text.Trim.{trim-IsSolid, trim-line}
use sqns.Files.{PathName, File, Disk, mode_of, lookup_file, read_to_string, write, set_permissions}
use sqns.Key.{Encodings, IsHex}

module _ (enc : Encodings) where
  unfoldable pub secret_from_hex : Text → Result Bytes
  secret_from_hex s = elim (enc.decode_hex (trim s)) [
    | none ↦ err bad_key
    | some raw ↦ if length raw == 32 then ok raw else err bad_key
  ]

  -- `mode & 0o077`
  abbrev pub group_bits : ℕ → ℕ
  group_bits mode = mode % 64

  unfoldable pub load_secret_file : Disk → PathName → Result Bytes
  unfolding secret_from_hex
  load_secret_file d p = do
    meta ← lookup_file d p
    check (group_bits meta.mode == 0) bad_key
    text ← read_to_string d p
    secret_from_hex (trim text)

  -- `save_secret_file`, with the line feed behind the digits.
  unfoldable pub save_secret_file : Disk → PathName → Bytes → Result Disk
  save_secret_file d p seed = do
    d' ← write d p (encode_utf8 (enc.encode_hex seed ++ (10 ∷ [])))
    set_permissions d' p 0o600

  written : (d : Disk) (p : PathName) (f : File) → get (insert d.files p f) p ≡ some f
  written d p f = get-insert d.files p p f ∙ rw (bytes_eq_refl p) refl

  load_secret_file-lem :
      (d : Disk) (p : PathName) (f : File) (s : Text) (seed : Bytes)
      → get d.files p ≡ some f
      → (group_bits f.mode == 0) ≡ true
      → from_utf8 f.content ≡ some s
      → secret_from_hex (trim s) ≡ ok seed
      → load_secret_file d p ≡ ok seed
  unfolding load_secret_file lookup_file read_to_string
  load_secret_file-lem d p f s seed held private text parsed =
      let meta : lookup_file d p ≡ ok f = rw (lookup_file, held) refl in
      let line : read_to_string d p ≡ ok s = rw (read_to_string, held, text) refl in
      rw (load_secret_file, meta, private, line) parsed

  secret_from_hex-line :
      (seed : Bytes)
      → IsHex enc
      → IsArray 32 seed
      → secret_from_hex (trim (enc.encode_hex seed ++ (10 ∷ []))) ≡ ok seed
  unfolding secret_from_hex
  secret_from_hex-line seed h size =
      let solid = h.solid_hex seed size in
      rw
        (
          trim-line (enc.encode_hex seed) solid,
          secret_from_hex,
          trim-IsSolid (enc.encode_hex seed) solid,
          h.decode_hex-encode_hex seed size,
          size.0,
        )
        refl

  -- A seed that is saved where the disk can be written is loaded back, also over a file that others could read: the
  -- file ends up accessible to its owner alone.
  pub load-save_secret_file :
      (d : Disk) (p : PathName) (seed : Bytes)
      → IsHex enc
      → IsArray 32 seed
      → d.writable p ≡ true
      → (d' : Disk) × (save_secret_file d p seed ≡ ok d')
        × (load_secret_file d' p ≡ ok seed)
        × ((f : File) × (get d'.files p ≡ some f) × (f.mode ≡ 0o600))
  unfolding save_secret_file write set_permissions insert
  load-save_secret_file d p seed h size can =
      let line = enc.encode_hex seed ++ (10 ∷ []) in
      let f : File = record { content = encode_utf8 line; mode = mode_of d (get d.files p) } in
      let d1 : Disk = record d { files = insert d.files p f } in
      let f' : File = record f { mode = 0o600 } in
      let d2 : Disk = record d { files = insert d1.files p f' } in
      let chars : All IsChar line =
        All-append IsChar (enc.encode_hex seed) (10 ∷ []) (h.hex_chars seed size)
          (inl (omega arith), tt) in
      (
        d2,
        rw (save_secret_file, can, set_permissions, written d p f) refl,
        load_secret_file-lem d2 p f' line seed (written d1 p f') refl
            (from_utf8-encode_utf8 line chars) (secret_from_hex-line seed h size),
        (f', written d1 p f', refl),
      )
