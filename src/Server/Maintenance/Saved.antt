-- ===== src/Server/Maintenance/Saved.antt =====
-- Why `maintenance` may skip the snapshot when the revision is the one written last.
use sqns.Base.{ℕ, suc, ◌+◌, ◌≤◌, ◌≡◌, ◌⊎◌, some, arith}
use sqns.Bytes.{Bytes}
use sqns.Record.{u64_max}
use sqns.Map.{Map}
use sqns.Upstream.{Upstream}
use sqns.Store.{Store, bump}
use sqns.Store.Snapshot.{snapshot_of}
use sqns.Server.Maintenance.{Maintained}

-- A step leaves the snapshot and the revision as they are, or counts the revision up.
abbrev Counts : Store → Store → Type 0
Counts s t =
    ((snapshot_of t ≡ snapshot_of s) × (t.revision ≡ s.revision)) ⊎ (t.revision ≡ bump s.revision)

-- A snapshot was not written yet, or it is older than the store, or it is the store's.
abbrev IsTracked : Maintained → Type 0
IsTracked m =
    (m.persisted_revision ≡ u64_max)
    ⊎ ((m.persisted_revision ≤ m.store.revision)
        × (m.persisted_revision ≡ m.store.revision → m.file ≡ some (snapshot_of m.store)))

-- What holds of the loop's state after so many steps, from a store with such a revision.
record Tracks (first n : ℕ) (m : Maintained) : Type 0 where
  few : m.store.revision ≤ first + n
  tracked : IsTracked m

-- The state with another store, and others relayed.
abbrev with_store : Maintained → Store → Upstream → Maintained
with_store m t u = record m { store = t; upstream = u }

later : (first n : ℕ) (m : Maintained) → Tracks first n m → Tracks first (suc n) m
later first n m h = record { few = let few = h.few in omega arith; tracked = h.tracked }

-- The state after a snapshot was written.
abbrev saved : Maintained → Maintained
saved m = record m { file = some (snapshot_of m.store); persisted_revision = m.store.revision }

-- What a tick of the snapshot writer may leave behind.
abbrev Persists : Maintained → Maintained → Type 0
Persists m m' = (m' ≡ m) ⊎ (m' ≡ saved m)
