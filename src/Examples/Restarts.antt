-- ===== src/Examples/Restarts.antt =====
-- Stores that are written and opened again, and their slots.
use sqns.Base.{◌≡◌, refl, arith, All, true, false, some, none, [], ◌∷◌}
use sqns.Bytes.{ascii, bytes_eq}
use sqns.Errors.{ok, ◌>>◌}
use sqns.Files.{PathName, Disk}
use sqns.Record.Wire.Layout.{IsSigned}
use sqns.Map.{get, values}
use sqns.Store.{put, admit}
use sqns.Store.Spec.{view, view_result, spec_put, put_refines}
use sqns.Store.Snapshot.{open_snapshot, snapshot_of}
use sqns.Store.Snapshot.RoundTrip.{IsBinding}
use sqns.Store.Restart.{kept, restart}
use sqns.Store.Persist.{writing, tmp_of, with_extension, persist}
use sqns.Store.Persist.Atomic.{Reopened, Untouched, persist-Reopened}
use sqns.Examples.Data.{
  program, toy, service_key, second, one, dead, identity_seed, service_seed, toy-IsEd25519,
}
use sqns.Examples.Wire.{first-IsSigned, killed-IsSigned}
use sqns.Examples.Stores.{one-IsConsistent}

put_refines_example :
    view_result (put toy one 1010 second) ≡ (admit toy 1010 second >> spec_put (view one) second)
put_refines_example = put_refines toy one 1010 second one-IsConsistent

one-IsBinding : All IsBinding one.bindings
unfolding program
one-IsBinding =
    ((toy-IsEd25519.public_key_size service_seed, toy-IsEd25519.public_key_size identity_seed), tt)

dead-IsBinding : All IsBinding dead.bindings
unfolding program
dead-IsBinding =
    ((toy-IsEd25519.public_key_size service_seed, toy-IsEd25519.public_key_size identity_seed), tt)

one-IsSigned : All IsSigned (values one.records)
unfolding program values
one-IsSigned = (first-IsSigned, tt)

dead-IsSigned : All IsSigned (values dead.records)
unfolding program values
dead-IsSigned = (killed-IsSigned, tt)

restart_example :
    (get (open_snapshot toy 1200 (snapshot_of one)).bindings service_key
      ≡ get one.bindings service_key)
    × (get (open_snapshot toy 1200 (snapshot_of one)).records service_key
        ≡ kept toy 1200 (get one.records service_key))
unfolding program values
restart_example =
    restart toy one 1200 service_key one-IsConsistent one-IsSigned one-IsBinding (omega arith)
      (omega arith)

-- The disk of a server that has a snapshot, and the path of a state file.
abbrev records_path : PathName
records_path = ascii "/var/lib/sqns/records.db"

abbrev with_snapshot : Disk
with_snapshot = record {
  files = (records_path, record { content = snapshot_of dead; mode = 0o600 }) ∷ [];
  writable = λ p. true;
  new_mode = 0o644;
}

tmp_path : tmp_of records_path ≡ ascii "/var/lib/sqns/records.tmp"
unfolding with_extension program
tmp_path = refl

tmp_hidden :
    with_extension (ascii "/srv/v1.2/.records") (ascii "tmp") ≡ ascii "/srv/v1.2/.records.tmp"
unfolding with_extension program
tmp_hidden = refl

beside : bytes_eq (tmp_of records_path) records_path ≡ false
unfolding with_extension program
beside = refl

-- A write that ended after two bytes.
persist-Reopened_example :
    Reopened toy one with_snapshot 1200 records_path
      (persist one with_snapshot (some records_path) (some (writing (83 ∷ 81 ∷ []))))
    × Untouched with_snapshot
        (persist one with_snapshot (some records_path) (some (writing (83 ∷ 81 ∷ [])))).1
        (tmp_of records_path)
        records_path
    × ((persist one with_snapshot (some records_path) none).0 ≡ ok tt)
persist-Reopened_example =
    persist-Reopened toy one with_snapshot 1200 records_path (some (writing (83 ∷ 81 ∷ []))) beside
