-- ===== src/Server/Maintenance.antt =====
-- crates/sqnsd/src/server.rs: `maintenance`, which sweeps and writes the snapshot on timers, and the last snapshot of
-- `serve`. The file is the bytes that were written to it last; whether a write succeeds is an argument.
-- `OnDisk` has the file on the disk.
pub mod Saved
pub mod OnDisk
use sqns.Base.{
  ℕ, zero, suc, ◌+◌, ◌-◌, ◌%◌, ◌^◌, ◌≤◌, ◌<◌, ◌≡◌, ◌⊎◌, inl, inr, refl, sym, ap, ◌∙◌, subst, Bool,
  true, false, not, Option, none, some, List, [], ◌∷◌, length, ltb, ◌==◌, ==_iff, arith,
  if◌then◌else◌, Bool-cases,
}
use sqns.Bytes.{Bytes}
use sqns.Crypto.{Ed25519}
use sqns.Record.{SignedRecord, is_expired, u64_max}
use sqns.Map.{Map, retain, values}
use sqns.Upstream.{Upstream, purge_relayed}
use sqns.Store.{Store, stored, stale, bump, bind, keep, replace, purge_expired}
use sqns.Store.Invariant.{put-eq-stored, put-eq-stale}
use sqns.Store.Snapshot.{snapshot_of, encode_snapshot}
use sqns.Store.History.{Step, put_ok, put_err, purge}

pub record Maintained : Type 0 where
  pub store : Store
  pub upstream : Upstream
  pub has_path : Bool
  pub file : Option Bytes
  pub persisted_revision : ℕ

-- The state when `maintenance` starts.
unfoldable pub start : Store → Upstream → Bool → Option Bytes → Maintained
start s u has_path file = record {
  store = s;
  upstream = u;
  has_path = has_path;
  file = file;
  persisted_revision = u64_max;
}

unfoldable pub purge_tick : Maintained → ℕ → Maintained
purge_tick m now = record m {
  store = (purge_expired m.store now).0;
  upstream = (purge_relayed m.upstream now).0;
}

unfoldable pub persist_tick : Maintained → Bool → Maintained
persist_tick m written =
    if not m.has_path
    then m
    else if m.store.revision == m.persisted_revision
    then m
    else if written
    then record m { file = some (snapshot_of m.store); persisted_revision = m.store.revision }
    else m

-- The snapshot when the server stops.
unfoldable pub shutdown : Maintained → Bool → Maintained
shutdown m written =
    if not m.has_path
    then m
    else if written
    then record m { file = some (snapshot_of m.store) }
    else m

-- What happens to the state: `n` ticks, and requests that change the store and what is cached, in any order.
pub data Run (ed : Ed25519) (m : Maintained) : ℕ → Maintained → Type 0 where
  begun : Run ed m 0 m
  changed :
      {n : ℕ} {m' : Maintained} {t : Store}
      → Run ed m n m'
      → Step ed m'.store t
      → (u : Upstream) → Run ed m (suc n) (record m' { store = t; upstream = u })
  purged :
      {n : ℕ} {m' : Maintained} → Run ed m n m' → (now : ℕ) → Run ed m (suc n) (purge_tick m' now)
  persisted :
      {n : ℕ} {m' : Maintained}
      → Run ed m n m'
      → (written : Bool) → Run ed m (suc n) (persist_tick m' written)
