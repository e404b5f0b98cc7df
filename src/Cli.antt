-- ===== src/Cli.antt =====
-- crates/sqns/src/main.rs: the commands that issue delegations and retire keys. Paths are chosen by the caller; what is
-- printed is left out, but for the keys that `revoke` reports.
pub mod Commands
pub mod Delegate
pub mod Retire
pub mod Revoke
pub mod Servers
use sqns.Base.{
  ℕ, suc, ◌+◌, ◌*◌, ◌%◌, ◌^◌, Bool, true, false, not, ◌&&◌, ◌||◌, Option, none, some, List, [], ◌∷◌,
  map, filter, ltb, ◌==◌, is_empty, length, if◌then◌else◌,
}
use sqns.Bytes.{Bytes, bytes_eq, ascii}
use sqns.Bytes.Utf8.Encode.{encode_utf8}
use sqns.Errors.{Error, bad_key, Result, ok, err, check, ◌>>=◌, ◌>>◌}
use sqns.Crypto.{Ed25519}
use sqns.Record.{PubKey, Delegation, Record, SignedRecord, is_terminal, never_expires_at, u64_max}
use sqns.Record.Authority.{issue, sign, new_superseded, new_revoked}
use sqns.Record.Grant.{DelegationFile, encode_file, decode_file}
use sqns.Text.{Text, trim, split_once}
use sqns.Endpoint.{split}
use sqns.Key.{Encodings, parse_key}
use sqns.Key.Secret.{load_secret_file, save_secret_file}
use sqns.Files.{PathName, Disk, exists, read, write}
use sqns.Address.{ServerAddr, parse_address}
use sqns.Resolver.{Resolver, ServerLink, lookup_identity_records}
use sqns.Resolver.Publish.{publish_record}

abbrev pub max_delegation_lifetime : ℕ
max_delegation_lifetime = 31_536_000

abbrev pub default_delegation_lifetime : ℕ
default_delegation_lifetime = 7_776_000

-- `saturating_mul` of 64 bits.
abbrev pub saturating_mul : ℕ → ℕ → ℕ
saturating_mul a b = if ltb u64_max (a * b) then u64_max else a * b

-- When a delegation ends that is issued now.
unfoldable pub not_after_of : ℕ → ℕ → Bool → Result ℕ
not_after_of now days true = ok never_expires_at
not_after_of now days false = do
  let lifetime = saturating_mul days 86_400
  check (not ((lifetime == 0) || ltb max_delegation_lifetime lifetime)) Error.delegation
  ok ((now + lifetime) % 2 ^ 64)

-- What the user types to confirm.
abbrev pub agrees : Text → Bool
agrees answer = bytes_eq (trim answer) (ascii "revoke")

module _ (ed : Ed25519) (enc : Encodings) where
  unfoldable pub load_key : Disk → PathName → Result Bytes
  load_key d p = if exists d p then load_secret_file enc d p else err bad_key

  -- The text of an argument is a key, or else the path of a seed.
  unfoldable pub read_pubkey : Disk → Text → Result PubKey
  read_pubkey d value = elim (parse_key enc value) [
    | ok k ↦ ok k
    | err e ↦
        let p = encode_utf8 value in
        if exists d p
        then (load_secret_file enc d p >>= λ seed. ok (ed.public_key seed))
        else err bad_key
  ]

  -- `keygen`, with the seed that `generate` gives.
  unfoldable pub keygen : Disk → PathName → Bool → Bytes → Result Disk
  keygen d out force seed =
      if exists d out && not force then err bad_key else save_secret_file enc d out seed

  -- `delegate`, when both keys are there.
  unfoldable pub issue_to : Disk → ℕ → Bytes → PubKey → ℕ → Bool → PathName → Result Disk
  unfolding not_after_of
  issue_to d now identity service days never_expires out = do
    check (not (bytes_eq service (ed.public_key identity))) Error.delegation
    not_after ← not_after_of now days never_expires
    write d out (
        encode_file
          (record { service_key = service; delegation = issue ed identity service not_after }))

  -- `delegate`
  unfoldable pub delegate : Disk → ℕ → PathName → Text → ℕ → Bool → PathName → Result Disk
  unfolding load_key read_pubkey issue_to
  delegate d now identity_path service_key days never_expires out = do
    identity ← load_key d identity_path
    service ← read_pubkey d service_key
    issue_to d now identity service days never_expires out

  unfoldable pub load_delegation : Disk → PathName → Result DelegationFile
  load_delegation d p = elim (read d p) [
    | ok bytes ↦ decode_file ed bytes
    | err e ↦ err Error.delegation
  ]

  unfoldable pub retirement_delegation : ℕ → Bytes → PubKey → Delegation
  retirement_delegation now identity service =
      issue ed identity service ((now + default_delegation_lifetime) % 2 ^ 64)

  -- The record that `supersede` publishes, and the one that `revoke` does.
  unfoldable pub superseding : ℕ → Bytes → PubKey → PubKey → Bytes → Result SignedRecord
  unfolding retirement_delegation
  superseding now identity old new reason =
      sign ed (new_superseded now old (retirement_delegation now identity old) now new reason)
        identity

  unfoldable pub revoking : ℕ → Bytes → PubKey → Bytes → Result SignedRecord
  unfolding retirement_delegation
  revoking now identity target reason =
      sign ed (new_revoked now target (retirement_delegation now identity target) now reason)
        identity

  unfoldable pub superseding_from : Disk → ℕ → Text → Text → PathName → Bytes → Result SignedRecord
  unfolding load_key read_pubkey superseding
  superseding_from d now old_key new_key identity_path reason = do
    old ← read_pubkey d old_key
    new ← read_pubkey d new_key
    identity ← load_key d identity_path
    superseding now identity old new reason

  -- `supersede`, with the resolver that it builds.
  unfoldable pub supersede :
      Disk → List ServerLink → Resolver → ℕ → Text → Text → PathName → Bytes → Result ℕ × Resolver
  unfolding superseding_from
  supersede d servers r now old_key new_key identity_path reason =
      elim (superseding_from d now old_key new_key identity_path reason) [
        | err e ↦ (err e, r)
        | ok rec ↦ publish_record ed servers r now rec
      ]

  -- The keys that `revoke` is about: those that the listing shows as live, or the one that is given.
  unfoldable pub revoke_targets :
      Disk → List ServerLink → ℕ → Bytes → Bool → Option Text → Result (List PubKey)
  unfolding read_pubkey
  revoke_targets d servers now identity true key =
      lookup_identity_records ed servers now (ed.public_key identity) >>= λ recs. ok (
        map (λ (rec : SignedRecord). rec.rec.key)
          (filter (λ (rec : SignedRecord). not (is_terminal rec.rec)) recs))
  revoke_targets d servers now identity false none = err bad_key
  revoke_targets d servers now identity false (some key) = read_pubkey d key >>= λ k. ok (k ∷ [])

  -- What `revoke` is to do, if the user agrees to it: the identity, and the keys.
  unfoldable pub revoke_plan :
      Disk
      → List ServerLink
      → ℕ
      → Option Text
      → Bool
      → PathName
      → Bool
      → Text
      → Result (Bytes × List PubKey)
  unfolding load_key revoke_targets
  revoke_plan d servers now key all identity_path sure answer = do
    identity ← load_key d identity_path
    targets ← revoke_targets d servers now identity all key
    check (is_empty targets || (sure || agrees answer)) bad_key
    ok (identity, targets)

  -- The loop of `revoke`, with the keys that it reported. `servers n` are the servers when `n` keys are still to
  -- come behind the one that is published.
  unfoldable pub revoke_all :
      (ℕ → List ServerLink)
      → Resolver
      → ℕ
      → Bytes
      → Bytes
      → List PubKey
      → Result (Unit {0}) × List PubKey × Resolver
  unfolding revoking
  revoke_all servers r now identity reason [] = (ok tt, [], r)
  revoke_all servers r now identity reason (target ∷ targets) =
      elim (revoking now identity target reason) [
        | err e ↦ (err e, [], r)
        | ok rec ↦
            let (out, r') = publish_record ed (servers (length targets)) r now rec in
            elim out [
              | err e ↦ (err e, [], r')
              | ok serial ↦
                  let (rest, done, r'') = revoke_all servers r' now identity reason targets in
                  (rest, target ∷ done, r'')
            ]
      ]

  -- `revoke`, with the resolver that it builds; `listing` are the servers at the listing.
  unfoldable pub revoke :
      Disk
      → List ServerLink
      → (ℕ → List ServerLink)
      → Resolver
      → ℕ
      → Option Text
      → Bool
      → PathName
      → Bytes
      → Bool
      → Text
      → Result (Unit {0}) × List PubKey × Resolver
  unfolding revoke_plan revoke_all
  revoke d listing servers r now key all identity_path reason sure answer =
      elim (revoke_plan d listing now key all identity_path sure answer) [
        | err e ↦ (err e, [], r)
        | ok (identity, targets) ↦ revoke_all servers r now identity reason targets
      ]
