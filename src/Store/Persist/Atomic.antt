-- ===== src/Store/Persist/Atomic.antt =====
-- A crash in the middle of `persist` leaves the previous snapshot in place.
use sqns.Base.{
  ℕ, ◌≡◌, refl, sym, ap, ◌∙◌, true, false, Option, none, some, Bool-cases, Option-cases, inl, inr,
  arith, if◌then◌else◌,
}
use sqns.Bytes.{Bytes, bytes_eq, bytes_eq_refl, bytes_eq_sound}
use sqns.Errors.{Error, io, Result, ok, err, Result-cases}
use sqns.Crypto.{Ed25519}
use sqns.Map.{get, remove}
use sqns.Map.Laws.{get-insert, get-remove}
use sqns.Files.{PathName, File, Disk, mode_of, exists, read, write}
use sqns.Store.{Store, new_store}
use sqns.Store.Snapshot.{open_snapshot, snapshot_of}
use sqns.Store.Persist.{
  Stop, directory, creating, writing, syncing, renaming, tmp_of, rename, left_behind, write_beside,
  persist, open_at,
}

-- What a file has, if it is there.
abbrev pub content : Disk → PathName → Option Bytes
content d p = elim (get d.files p) [ some f ↦ some f.content | none ↦ none ]

-- Every file but those two is as it was.
abbrev pub Untouched : Disk → Disk → PathName → PathName → Type 0
Untouched d d' a b =
    (q : PathName) → bytes_eq a q ≡ false → bytes_eq b q ≡ false → get d'.files q ≡ get d.files q

-- What `persist` may leave on the disk, by what it returns.
abbrev Outcome : Disk → PathName → Bytes → Result (Unit {0}) × Disk → Type 0
Outcome d path bytes (ok _, d') = (content d' path ≡ some bytes) × Untouched d d' (tmp_of path) path
Outcome d path bytes (err e, d') =
    (get d'.files path ≡ get d.files path) × Untouched d d' (tmp_of path) path

get-write :
    (d : Disk) (p : PathName) (bytes : Bytes) (d' : Disk) (q : PathName)
    → write d p bytes ≡ ok d'
    → bytes_eq p q ≡ false
    → get d'.files q ≡ get d.files q
unfolding write
get-write d p bytes d' q e other =
    ground
      (arith, get-insert d.files p q (record { content = bytes; mode = mode_of d (get d.files p) }))

get-write_self :
    (d : Disk) (p : PathName) (bytes : Bytes) (d' : Disk)
    → write d p bytes ≡ ok d'
    → (f : File) × (get d'.files p ≡ some f) × (f.content ≡ bytes)
unfolding write
get-write_self d p bytes d' e = (
  record { content = bytes; mode = mode_of d (get d.files p) },
  ground (
    arith,
    bytes_eq_refl p,
    get-insert d.files p p (record { content = bytes; mode = mode_of d (get d.files p) }),
  ),
  refl,
)

unchanged :
    (d : Disk) (path : PathName) (bytes : Bytes) (e : Error) → Outcome d path bytes (err e, d)
unchanged d path bytes e = (refl, λ q a b. refl)

left_behind-Outcome :
    (d : Disk) (path : PathName) (bytes left : Bytes)
    → bytes_eq (tmp_of path) path ≡ false
    → Outcome d path bytes (left_behind d (tmp_of path) left)
unfolding left_behind
left_behind-Outcome d path bytes left beside = elim (Result-cases (write d (tmp_of path) left)) [
  | inr (e, failed) ↦ rw (left_behind, failed) (unchanged d path bytes e)
  | inl (d', done) ↦
      rw (left_behind, done)
        (
          get-write d (tmp_of path) left d' path done beside,
          λ q a b. get-write d (tmp_of path) left d' q done a,
        )
]

renamed :
    (d d' : Disk) (path : PathName) (bytes : Bytes)
    → bytes_eq (tmp_of path) path ≡ false
    → write d (tmp_of path) bytes ≡ ok d'
    → Outcome d path bytes (rename d' (tmp_of path) path)
unfolding rename
renamed d d' path bytes beside done =
    let (f, there, same) = get-write_self d (tmp_of path) bytes d' done in
    let m = remove d'.files (tmp_of path) in
    rw (rename, there)
      (
        ground (arith, get-insert m path path f, bytes_eq_refl path, same),
        λ q a b.
            get-insert m path q f
            ∙ rw b (
                get-remove d'.files (tmp_of path) q
                ∙ rw a (get-write d (tmp_of path) bytes d' q done a)),
      )

write_beside-Outcome :
    (d : Disk) (path : PathName) (bytes : Bytes) (stop : Option Stop)
    → bytes_eq (tmp_of path) path ≡ false
    → Outcome d path bytes (write_beside d path bytes stop)
unfolding write_beside
write_beside-Outcome d path bytes (some directory) beside = unchanged d path bytes io
write_beside-Outcome d path bytes (some creating) beside = unchanged d path bytes io
write_beside-Outcome d path bytes (some (writing left)) beside =
    left_behind-Outcome d path bytes left beside
write_beside-Outcome d path bytes (some (syncing left)) beside =
    left_behind-Outcome d path bytes left beside
write_beside-Outcome d path bytes (some renaming) beside =
    left_behind-Outcome d path bytes bytes beside
write_beside-Outcome d path bytes none beside = elim (Result-cases (write d (tmp_of path) bytes)) [
  | inr (e, failed) ↦ rw (write_beside, failed) (unchanged d path bytes e)
  | inl (d', done) ↦ rw (write_beside, done) (renamed d d' path bytes beside done)
]

-- The bytes of the snapshot's file after `persist`: those that were written if it returned without an error, and
-- otherwise the bytes before.
pub content-persist :
    (s : Store) (d : Disk) (path : PathName) (stop : Option Stop)
    → bytes_eq (tmp_of path) path ≡ false
    → content (persist s d (some path) stop).1 path ≡ elim ((persist s d (some path) stop).0) [
      | ok _ ↦ some (snapshot_of s)
      | err _ ↦ content d path
    ]
unfolding persist
content-persist s d path stop beside =
    go (write_beside d path (snapshot_of s) stop)
      (write_beside-Outcome d path (snapshot_of s) stop beside)
  where
    go :
        (out : Result (Unit {0}) × Disk)
        → Outcome d path (snapshot_of s) out
        → content out.1 path ≡ elim (out.0) [ ok _ ↦ some (snapshot_of s) | err _ ↦ content d path ]
    go (ok _, d') h = h.0
    go (err e, d') h =
        ap
          (λ (o : Option File). elim o as (λ _. Option Bytes) [
            | some f ↦ some f.content
            | none ↦ none
          ])
          h.0

-- A path that is its own temporary file, such as one whose extension is `tmp`, loses the snapshot when a write is cut
-- off.
pub write_beside_itself :
    (d : Disk) (path : PathName) (bytes left : Bytes)
    → bytes_eq (tmp_of path) path ≡ true
    → d.writable path ≡ true
    → content (write_beside d path bytes (some (writing left))).1 path ≡ some left
unfolding write_beside left_behind write
write_beside_itself d path bytes left itself open_path =
    let same : tmp_of path ≡ path = bytes_eq_sound (tmp_of path) path itself in
    ap (λ (p : PathName). content (left_behind d p left).1 path) same ∙ self_left
  where
    self_left : content (left_behind d path left).1 path ≡ some left
    self_left =
        rw (left_behind, write, open_path)
          (rw
            (
              content,
              get-insert d.files path path
                  (record { content = left; mode = mode_of d (get d.files path) }),
              bytes_eq_refl path,
            )
            refl)

-- What `open` does with a file, by its bytes.
abbrev opened : Ed25519 → ℕ → Option Bytes → Result Store
opened ed now none = ok new_store
opened ed now (some bytes) = ok (open_snapshot ed now bytes)

-- Whether `persist` returned, and what is opened then.
abbrev pub Reopened : Ed25519 → Store → Disk → ℕ → PathName → Result (Unit {0}) × Disk → Type 0
Reopened ed s d now path (ok _, d') =
    open_at ed d' now (some path) ≡ ok (open_snapshot ed now (snapshot_of s))
Reopened ed s d now path (err e, d') = open_at ed d' now (some path) ≡ open_at ed d now (some path)

module _ (ed : Ed25519) where
  open_at-content :
      (d : Disk) (now : ℕ) (path : PathName)
      → open_at ed d now (some path) ≡ opened ed now (content d path)
  unfolding open_at exists read
  open_at-content d now path = elim (Option-cases (get d.files path)) [
    | inl e ↦ rw (open_at, exists, opened, content, e) refl
    | inr (f, e) ↦ rw (open_at, exists, read, opened, content, e) refl
  ]

  Outcome-Reopened :
      (s : Store) (d : Disk) (now : ℕ) (path : PathName) (out : Result (Unit {0}) × Disk)
      → Outcome d path (snapshot_of s) out
      → Reopened ed s d now path out
  Outcome-Reopened s d now path (ok _, d') (saved, rest) =
      open_at-content d' now path ∙ ap (opened ed now) saved
  Outcome-Reopened s d now path (err e, d') (kept, rest) =
      open_at-content d' now path
      ∙ ap (λ (o : Option File). opened ed now (elim o [ some f ↦ some f.content | none ↦ none ]))
          kept
      ∙ sym (open_at-content d now path)

  Outcome-Untouched :
      (d : Disk) (path : PathName) (bytes : Bytes) (out : Result (Unit {0}) × Disk)
      → Outcome d path bytes out
      → Untouched d out.1 (tmp_of path) path
  Outcome-Untouched d path bytes (ok _, d') h = h.1
  Outcome-Untouched d path bytes (err e, d') h = h.1

  write_beside-result :
      (d : Disk) (path : PathName) (bytes : Bytes)
      → (write_beside d path bytes none).0 ≡ (if d.writable (tmp_of path) then ok tt else err io)
  unfolding write_beside rename write
  write_beside-result d path bytes = elim (Bool-cases (d.writable (tmp_of path))) [
    | inr shut ↦
        let failed : write d (tmp_of path) bytes ≡ err io = rw (write, shut) refl in
        rw (write_beside, failed, shut) refl
    | inl open_path ↦ elim (Result-cases (write d (tmp_of path) bytes)) [
      | inr (e, failed) ↦ absurd (ground arith)
      | inl (d', done) ↦
          let (f, there, same) = get-write_self d (tmp_of path) bytes d' done in
          rw (write_beside, done, rename, there, open_path) refl
    ]
  ]

  -- The snapshot is replaced as a whole or not at all. Wherever `persist` fails or the process ends in it, whatever the
  -- file beside the target then has: when it returned without an error, the next start opens the snapshot of the store
  -- that was written, and otherwise it opens what it would have opened before; no other file changes. When nothing
  -- stops it, it returns without an error exactly if the file beside can be written. The path must not be its own
  -- temporary file: its extension is not `tmp`.
  pub persist-Reopened :
      (s : Store) (d : Disk) (now : ℕ) (path : PathName) (stop : Option Stop)
      → bytes_eq (tmp_of path) path ≡ false
      → Reopened ed s d now path (persist s d (some path) stop)
        × Untouched d (persist s d (some path) stop).1 (tmp_of path) path
        × ((persist s d (some path) none).0 ≡ (if d.writable (tmp_of path) then ok tt else err io))
  unfolding persist
  persist-Reopened s d now path stop beside =
      let bytes = snapshot_of s in
      let out = write_beside d path bytes stop in
      let h = write_beside-Outcome d path bytes stop beside in
      (
        Outcome-Reopened s d now path out h,
        Outcome-Untouched d path bytes out h,
        write_beside-result d path bytes,
      )
