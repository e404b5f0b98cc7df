-- ===== src/Record.antt =====
-- crates/sqns-core/src/record.rs: records, delegations and what they say, without their signatures.
-- A `PubKey` is its 32 bytes, a `String` its UTF-8 bytes, an address its octets.
pub mod Wire
pub mod Authority
pub mod Order
pub mod Grant
use sqns.Base.{
  ℕ, ◌+◌, ◌-◌, ◌^◌, Bool, true, false, not, ◌&&◌, ◌||◌, Option, none, some, List, [], ◌∷◌, length,
  ltb, leb, ◌==◌, if◌then◌else◌,
}
use sqns.Bytes.{Bytes, ascii}

abbrev pub PubKey : Type 0
PubKey = Bytes

abbrev pub record_version : ℕ
record_version = 4

abbrev pub sig_context : Bytes
sig_context = ascii "sqns-record-v4"

abbrev pub delegation_context : Bytes
delegation_context = ascii "sqns-delegation-v2"

abbrev pub u64_max : ℕ
u64_max = 2 ^ 64 - 1

abbrev pub never_expires_at : ℕ
never_expires_at = u64_max

abbrev pub max_reason_len : ℕ
max_reason_len = 256

abbrev pub max_endpoints : ℕ
max_endpoints = 255

abbrev pub min_ttl : ℕ
min_ttl = 30

abbrev pub max_ttl : ℕ
max_ttl = 604_800

abbrev pub max_clock_skew : ℕ
max_clock_skew = 300

pub data Host : Type 0 where
  v4 : Bytes → Host
  v6 : Bytes → Host
  name : Bytes → Host

pub record Endpoint : Type 0 where
  pub host : Host
  pub port : ℕ
  pub priority : ℕ
  pub weight : ℕ

pub record Delegation : Type 0 where
  pub identity : PubKey
  pub not_after : ℕ
  pub signature : Bytes

pub data RecordBody : Type 0 where
  live : List Endpoint → RecordBody
  superseded : PubKey → Bytes → RecordBody
  revoked : Bytes → RecordBody

pub record Record : Type 0 where
  pub key : PubKey
  pub delegation : Delegation
  pub serial : ℕ
  pub issued_at : ℕ
  pub ttl : ℕ
  pub body : RecordBody

-- A `Record` with the signature made under its key's authority.
pub record SignedRecord : Type 0 where
  pub rec : Record
  pub signature : Bytes

-- `Delegation::is_expired`
unfoldable pub delegation_expired : Delegation → ℕ → Bool
delegation_expired d now = not (d.not_after == never_expires_at) && leb d.not_after now

abbrev pub identity : Record → PubKey
identity r = r.delegation.identity

-- The key whose signature the record must carry.
unfoldable pub expected_signer : Record → PubKey
expected_signer r = elim r.body [
  | live _ ↦ r.key
  | superseded _ _ ↦ identity r
  | revoked _ ↦ identity r
]

unfoldable pub endpoints : Record → List Endpoint
endpoints r = elim r.body [ live eps ↦ eps | _ ↦ [] ]

unfoldable pub successor : Record → Option PubKey
successor r = elim r.body [ superseded next _ ↦ some next | _ ↦ none ]

unfoldable pub is_superseded : Record → Bool
is_superseded r = elim r.body [ superseded _ _ ↦ true | _ ↦ false ]

unfoldable pub is_revoked : Record → Bool
is_revoked r = elim r.body [ revoked _ ↦ true | _ ↦ false ]

unfoldable pub is_terminal : Record → Bool
unfolding is_superseded is_revoked
is_terminal r = is_superseded r || is_revoked r

unfoldable pub is_withdrawal : Record → Bool
is_withdrawal r = elim r.body [ live eps ↦ length eps == 0 | _ ↦ false ]

-- `issued_at.saturating_add(ttl)` for a record that can expire.
unfoldable pub expires_at : Record → ℕ
unfolding is_terminal
expires_at r =
    if is_terminal r
    then u64_max
    else if ltb u64_max (r.issued_at + r.ttl)
    then u64_max
    else r.issued_at + r.ttl

unfoldable pub is_expired : Record → ℕ → Bool
unfolding expires_at is_terminal
is_expired r now = not (is_terminal r) && leb (expires_at r) now

-- Seconds until expiry; the subtraction saturates at zero in the source too.
unfoldable pub remaining : Record → ℕ → ℕ
unfolding expires_at
remaining r now = expires_at r - now

-- `(self.serial, self.issued_at) > (other.serial, other.issued_at)`
unfoldable pub later : Record → Record → Bool
later r s = ltb s.serial r.serial || (s.serial == r.serial && ltb s.issued_at r.issued_at)

-- Whether `r` should replace `s` in a store.
unfoldable pub supersedes : Record → Record → Bool
unfolding is_terminal later
supersedes r s = if is_terminal s then false else if is_terminal r then true else later r s
