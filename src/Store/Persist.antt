-- ===== src/Store/Persist.antt =====
-- crates/sqnsd/src/store.rs: `persist` and `open`, with the file of the snapshot. A write may fail, or the process may
-- end, at any step; what is then on the disk is what the next start finds.
pub mod Atomic
use sqns.Base.{ℕ, Bool, not, Option, none, some, List, [], ◌∷◌, ◌++◌, ◌==◌, is_empty, if◌then◌else◌}
use sqns.Bytes.{Bytes, ascii, bytes_eq}
use sqns.Errors.{io, Result, ok, err, ◌>>=◌}
use sqns.Crypto.{Ed25519}
use sqns.Map.{get, insert, remove}
use sqns.Files.{PathName, File, Disk, exists, read, write}
use sqns.Store.{Store, new_store}
use sqns.Store.Snapshot.{open_snapshot, snapshot_of}

-- A path up to its last slash, and the name behind it.
unfoldable pub split_name : PathName → Bytes × Bytes
split_name [] = ([], [])
split_name (c ∷ s) =
    let (dir, file) = split_name s in
    if not (is_empty dir)
    then (c ∷ dir, file)
    else if c == 47
    then (c ∷ [], file)
    else ([], c ∷ file)

-- A name up to its last dot.
unfoldable pub before_dot : Bytes → Option Bytes
before_dot [] = none
before_dot (c ∷ s) = elim (before_dot s) [
  | some t ↦ some (c ∷ t)
  | none ↦ if c == 46 then some [] else none
]

-- `Path::file_stem`: a dot at the front alone begins no extension.
unfoldable pub file_stem : Bytes → Bytes
unfolding before_dot
file_stem file = elim (before_dot file) [ none ↦ file | some [] ↦ file | some (c ∷ t) ↦ c ∷ t ]

-- `Path::with_extension`, for a path that ends in the name of a file.
unfoldable pub with_extension : PathName → Bytes → PathName
unfolding split_name file_stem
with_extension path extension =
    let (dir, file) = split_name path in
    if bytes_eq file (ascii "..") then path else dir ++ (file_stem file ++ (46 ∷ extension))

abbrev pub tmp_of : PathName → PathName
tmp_of path = with_extension path (ascii "tmp")

-- The step of `persist` that is not completed: making the directory, creating the file beside the target, writing it,
-- syncing it, or renaming it. Before the file is synced it may have any bytes.
pub data Stop : Type 0 where
  directory : Stop
  creating : Stop
  writing : Bytes → Stop
  syncing : Bytes → Stop
  renaming : Stop

-- `fs::rename`
unfoldable pub rename : Disk → PathName → PathName → Result (Unit {0}) × Disk
rename d from to = elim (get d.files from) [
  | none ↦ (err io, d)
  | some f ↦ (ok tt, record d { files = insert (remove d.files from) to f })
]

-- A file that is left behind with such bytes.
unfoldable pub left_behind : Disk → PathName → Bytes → Result (Unit {0}) × Disk
left_behind d p bytes = elim (write d p bytes) [ err e ↦ (err e, d) | ok d' ↦ (err io, d') ]

unfoldable pub write_beside : Disk → PathName → Bytes → Option Stop → Result (Unit {0}) × Disk
unfolding left_behind rename
write_beside d path bytes (some Stop.directory) = (err io, d)
write_beside d path bytes (some Stop.creating) = (err io, d)
write_beside d path bytes (some (Stop.writing left)) = left_behind d (tmp_of path) left
write_beside d path bytes (some (Stop.syncing left)) = left_behind d (tmp_of path) left
write_beside d path bytes (some Stop.renaming) = left_behind d (tmp_of path) bytes
write_beside d path bytes none = elim (write d (tmp_of path) bytes) [
  | err e ↦ (err e, d)
  | ok d' ↦ rename d' (tmp_of path) path
]

-- `Store::persist`, for the path that the store has.
unfoldable pub persist : Store → Disk → Option PathName → Option Stop → Result (Unit {0}) × Disk
unfolding write_beside
persist s d none stop = (ok tt, d)
persist s d (some path) stop = write_beside d path (snapshot_of s) stop

-- `Store::open`
unfoldable pub open_at : Ed25519 → Disk → ℕ → Option PathName → Result Store
open_at ed d now none = ok new_store
open_at ed d now (some path) =
    if exists d path
    then (read d path >>= λ bytes. ok (open_snapshot ed now bytes))
    else ok new_store
