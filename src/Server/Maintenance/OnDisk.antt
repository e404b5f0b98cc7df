-- ===== src/Server/Maintenance/OnDisk.antt =====
-- The snapshot's file of `maintenance` is the file on the disk.
use sqns.Base.{
  ◌≡◌, sym, ap, ◌∙◌, Bool, true, false, Option, some, ◌==◌, Bool-cases, inl, inr, arith,
  if◌then◌else◌,
}
use sqns.Bytes.{bytes_eq}
use sqns.Errors.{Result, ok, err}
use sqns.Files.{PathName, Disk}
use sqns.Store.Snapshot.{snapshot_of}
use sqns.Store.Persist.{Stop, tmp_of, persist}
use sqns.Store.Persist.Atomic.{content, content-persist}
use sqns.Server.Maintenance.{Maintained, persist_tick}

abbrev returned : Result (Unit {0}) × Disk → Bool
returned (ok _, d) = true
returned (err e, d) = false

-- The disk after a tick of the snapshot writer.
abbrev disk_after : Maintained → Disk → PathName → Option Stop → Disk
disk_after m d path stop =
    if m.store.revision == m.persisted_revision then d else (persist m.store d (some path) stop).1

abbrev written_to : Maintained → Bool → Maintained
written_to m written =
    if written
    then record m { file = some (snapshot_of m.store); persisted_revision = m.store.revision }
    else m

persist_tick-due :
    (m : Maintained) (written : Bool)
    → m.has_path ≡ true
    → (m.store.revision == m.persisted_revision) ≡ false
    → persist_tick m written ≡ written_to m written
unfolding persist_tick
persist_tick-due m written has_path due = ground arith

persist_tick-idle :
    (m : Maintained) (written : Bool)
    → (m.store.revision == m.persisted_revision) ≡ true
    → persist_tick m written ≡ m
unfolding persist_tick
persist_tick-idle m written idle = ground arith

-- A tick of the snapshot writer does to the file on the disk what `persist_tick` says of the state, with the outcome of
-- `persist`, wherever it stops: if the two agree before, they agree after.
pub persist_tick-OnDisk :
    (m : Maintained) (d : Disk) (path : PathName) (stop : Option Stop)
    → bytes_eq (tmp_of path) path ≡ false
    → m.has_path ≡ true
    → content d path ≡ m.file
    → content (disk_after m d path stop) path
      ≡ (persist_tick m (returned (persist m.store d (some path) stop))).file
persist_tick-OnDisk m d path stop beside has_path same =
    let out = persist m.store d (some path) stop in
    elim (Bool-cases (m.store.revision == m.persisted_revision)) [
      | inl idle ↦
          rw idle
            (same ∙ ap (λ (t : Maintained). t.file) (sym (persist_tick-idle m (returned out) idle)))
      | inr due ↦ rw due (
          go out (content-persist m.store d path stop beside)
          ∙ ap (λ (t : Maintained). t.file) (sym (persist_tick-due m (returned out) has_path due)))
    ]
  where
    go :
        (out : Result (Unit {0}) × Disk)
        → content out.1 path
          ≡ elim (out.0) [ ok _ ↦ some (snapshot_of m.store) | err _ ↦ content d path ]
        → content out.1 path ≡ (written_to m (returned out)).file
    go (ok _, d') h = h
    go (err e, d') h = h ∙ same
