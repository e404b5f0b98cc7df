-- ===== src/Config/ServerKey.antt =====
-- A server keeps its key from one start to the next.
use sqns.Base.{◌≡◌, refl, Bool, true, false}
use sqns.Bytes.{Bytes, IsArray}
use sqns.Errors.{bad_key, ok, err}
use sqns.Files.{PathName, Disk, exists}
use sqns.Key.{Encodings, IsHex}
use sqns.Key.Secret.{load-save_secret_file}
use sqns.Config.{load_or_create_key}

module _ (enc : Encodings) where
  -- Where there is no key file and its path can be written, a server makes a key at its first start, and each later
  -- start has that key and leaves the files as they are, whether the path is then given by a flag or not. A path that a
  -- flag gives at the first start is an error, and no key is made.
  pub load_or_create_key_stable :
      (d : Disk) (p : PathName) (fresh : Bytes)
      → IsHex enc
      → IsArray 32 fresh
      → d.writable p ≡ true
      → exists d p ≡ false
      → (d' : Disk) × (load_or_create_key enc d p false fresh ≡ ok (fresh, d'))
        × ((explicit : Bool) (other : Bytes)
            → load_or_create_key enc d' p explicit other ≡ ok (fresh, d'))
        × (load_or_create_key enc d p true fresh ≡ err bad_key)
  unfolding load_or_create_key exists
  load_or_create_key_stable d p fresh h size can absent =
      let (d', saved, loaded, (f, held, mode)) = load-save_secret_file enc d p fresh h size can in
      (
        d',
        rw (load_or_create_key, absent, saved) refl,
        λ explicit other. rw (load_or_create_key, exists, held, loaded) refl,
        rw (load_or_create_key, absent) refl,
      )
