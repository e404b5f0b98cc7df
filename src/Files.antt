-- ===== src/Files.antt =====
-- What the program uses of `std::fs`: files under their paths, each with its bytes and its permission bits.
use sqns.Base.{ℕ, Bool, true, false, Option, none, some, if◌then◌else◌}
use sqns.Bytes.{Bytes}
use sqns.Bytes.Utf8.Encode.{from_utf8}
use sqns.Errors.{io, Result, ok, err}
use sqns.Map.{Map, get, insert}
use sqns.Text.{Text}

-- A path, by its bytes.
abbrev pub PathName : Type 0
PathName = Bytes

pub record File : Type 0 where
  pub content : Bytes
  pub mode : ℕ

-- The files, which paths can be written (their directories being made where they are missing), and the permissions
-- that a new file starts with.
pub record Disk : Type 0 where
  pub files : Map File
  pub writable : PathName → Bool
  pub new_mode : ℕ

-- `Path::exists`
unfoldable pub exists : Disk → PathName → Bool
exists d p = elim (get d.files p) [ some f ↦ true | none ↦ false ]

-- `fs::metadata`, with the content.
unfoldable pub lookup_file : Disk → PathName → Result File
lookup_file d p = elim (get d.files p) [ some f ↦ ok f | none ↦ err io ]

-- `fs::read`
unfoldable pub read : Disk → PathName → Result Bytes
read d p = elim (get d.files p) [ some f ↦ ok f.content | none ↦ err io ]

-- `fs::read_to_string`
unfoldable pub read_to_string : Disk → PathName → Result Text
read_to_string d p = elim (get d.files p) [
  | none ↦ err io
  | some f ↦ elim (from_utf8 f.content) [ some s ↦ ok s | none ↦ err io ]
]

abbrev pub mode_of : Disk → Option File → ℕ
mode_of d none = d.new_mode
mode_of d (some f) = f.mode

-- `fs::write`: a file that is there keeps its permissions.
unfoldable pub write : Disk → PathName → Bytes → Result Disk
write d p bytes =
    if d.writable p
    then ok (record d {
      files = insert d.files p (record { content = bytes; mode = mode_of d (get d.files p) });
    })
    else err io

-- `fs::set_permissions`
unfoldable pub set_permissions : Disk → PathName → ℕ → Result Disk
set_permissions d p mode = elim (get d.files p) [
  | none ↦ err io
  | some f ↦ ok (record d { files = insert d.files p (record f { mode = mode }) })
]
