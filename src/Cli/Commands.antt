-- ===== src/Cli/Commands.antt =====
-- crates/sqns/src/main.rs: the commands that ask and publish, as `run_async` runs them with the resolver that
-- `build_resolver` gives and paths that are chosen. What a command prints is given as data.
pub mod First
pub mod Lines
pub mod Resolved
use sqns.Base.{
  ℕ, not, Option, none, some, List, [], ◌∷◌, map, length, is_empty, Bool, if◌then◌else◌,
}
use sqns.Bytes.{Bytes, bytes_eq}
use sqns.Errors.{Error, Result, ok, err, ◌>>=◌}
use sqns.Crypto.{Ed25519}
use sqns.Record.{PubKey, Endpoint, SignedRecord, RecordBody, live, superseded, revoked, successor}
use sqns.Text.{Text}
use sqns.Key.{Encodings, parse_key}
use sqns.Endpoint.{parse_endpoint}
use sqns.Files.{PathName, Disk}
use sqns.Protocol.{Response, counters, status, StatusInfo}
use sqns.Select.{Rng}
use sqns.Resolver.{
  Resolver, ServerLink, lookup_record, lookup_identity_records, try_servers, unexpected,
}
use sqns.Resolver.Walk.{ServiceLocation, resolve_service}
use sqns.Publisher
use sqns.Cli.{load_key, read_pubkey, load_delegation}

-- What `lookup` prints: the record and, if it forwards, where that leads, with the record there.
pub record Shown : Type 0 where
  pub rec : SignedRecord
  pub forward : Option (Result (PubKey × Option SignedRecord))

-- What `resolve` prints: the key that was reached, if it is another one, and the endpoints to try.
pub record Printed : Type 0 where
  pub rotated : Option PubKey
  pub endpoints : List Endpoint

-- `describe_state`
pub data State : Type 0 where
  superseded_by : PubKey → State
  is_revoked : Bytes → State
  withdrawn : State
  is_live : ℕ → State

unfoldable pub describe_state : RecordBody → State
describe_state (superseded next reason) = State.superseded_by next
describe_state (revoked reason) = State.is_revoked reason
describe_state (live []) = State.withdrawn
describe_state (live (ep ∷ eps)) = State.is_live (length (ep ∷ eps))

-- `is_stale` of a location decides on the first.
unfoldable pub print_location : PubKey → ServiceLocation → Result Printed
print_location key loc =
    if is_empty loc.endpoints
    then err (Error.unpublished key)
    else ok (record {
      rotated = if bytes_eq loc.key loc.requested then none else some loc.key;
      endpoints = loc.endpoints;
    })

unfoldable pub parse_endpoints : List Text → Result (List Endpoint)
parse_endpoints [] = ok []
parse_endpoints (s ∷ texts) =
    parse_endpoint s >>= λ ep. parse_endpoints texts >>= λ rest. ok (ep ∷ rest)

abbrev counters_of : Response → Result StatusInfo
counters_of (counters info) = ok info
counters_of other = err (unexpected other)

-- `Resolver::status`, and the command of that name.
unfoldable pub status_command : List ServerLink → Result StatusInfo
status_command servers = try_servers servers status >>= λ response. counters_of response

module _ (ed : Ed25519) (enc : Encodings) where
  -- Where the forward of a record leads.
  unfoldable pub follow_forward :
      List ServerLink → Rng → Resolver → ℕ → PubKey → SignedRecord → Result Shown × Resolver
  follow_forward servers draw r now key rec =
      let (found, r') = resolve_service ed servers draw r now key in
      elim found [
        | err e ↦ (ok (record { rec = rec; forward = some (err e) }), r')
        | ok loc ↦
            let (got, r'') = lookup_record ed servers r' now loc.key in
            elim got [
              | err e ↦ (err e, r'')
              | ok there ↦ (ok (record { rec = rec; forward = some (ok (loc.key, there)) }), r'')
            ]
      ]

  -- `lookup`
  unfoldable pub lookup_command :
      List ServerLink → Rng → Resolver → ℕ → Text → Result Shown × Resolver
  unfolding follow_forward
  lookup_command servers draw r now text = elim (parse_key enc text) [
    | err e ↦ (err e, r)
    | ok key ↦
        let (got, r') = lookup_record ed servers r now key in
        elim got [
          | err e ↦ (err e, r')
          | ok none ↦ (err (Error.unpublished key), r')
          | ok (some rec) ↦ elim (successor rec.rec) [
            | none ↦ (ok (record { rec = rec; forward = none }), r')
            | some next ↦ follow_forward servers draw r' now key rec
          ]
        ]
  ]

  -- `resolve`
  unfoldable pub resolve_command :
      List ServerLink → Rng → Resolver → ℕ → Text → Result Printed × Resolver
  unfolding print_location
  resolve_command servers draw r now text = elim (parse_key enc text) [
    | err e ↦ (err e, r)
    | ok key ↦
        let (found, r') = resolve_service ed servers draw r now key in
        elim found [ err e ↦ (err e, r') | ok loc ↦ (print_location key loc, r') ]
  ]

  -- The publisher of `publish` and of `withdraw`.
  unfoldable pub make_publisher :
      Disk → ℕ → PathName → PathName → List Text → ℕ → Result Publisher.Publisher
  unfolding parse_endpoints
  make_publisher d now key_path delegation_path texts ttl = do
    signing_key ← load_key ed enc d key_path
    endpoints ← parse_endpoints texts
    file ← load_delegation ed enc d delegation_path
    Publisher.new ed now signing_key file.delegation endpoints ttl

  -- `publish`; `servers n` are the servers at the request `n`.
  unfoldable pub publish_command :
      Disk
      → (ℕ → List ServerLink)
      → Resolver
      → ℕ
      → PathName
      → PathName
      → List Text
      → ℕ
      → Result ℕ × Resolver
  unfolding make_publisher
  publish_command d servers r now key_path delegation_path texts ttl =
      elim (make_publisher d now key_path delegation_path texts ttl) [
        | err e ↦ (err e, r)
        | ok p ↦ let (out, p', r') = Publisher.publish ed servers r now p in (out, r')
      ]

  -- `publish` with `keepalive`: the refreshes before ctrl-c, one that it cuts off being one whose servers do not
  -- reply, and the time when it comes, with the servers then.
  unfoldable pub publish_until_stopped :
      Disk
      → (ℕ → List ServerLink)
      → Resolver
      → ℕ
      → PathName
      → PathName
      → List Text
      → ℕ
      → List (ℕ × (ℕ → List ServerLink))
      → ℕ × (ℕ → List ServerLink)
      → Result (Unit {0}) × Resolver
  unfolding make_publisher
  publish_until_stopped d servers r now key_path delegation_path texts ttl ticks (end, last) =
      elim (make_publisher d now key_path delegation_path texts ttl) [
        | err e ↦ (err e, r)
        | ok p ↦
            let (out, p', r') = Publisher.publish ed servers r now p in
            elim out [
              | err e ↦ (err e, r')
              | ok serial ↦
                  let (p'', r'') = Publisher.run ed ticks r' p' in
                  let (gone, q, r3) = Publisher.withdraw ed last r'' end p'' in
                  (gone >>= λ serial'. ok tt, r3)
            ]
      ]

  -- `withdraw`
  unfoldable pub withdraw_command :
      Disk → (ℕ → List ServerLink) → Resolver → ℕ → PathName → PathName → ℕ → Result ℕ × Resolver
  unfolding make_publisher
  withdraw_command d servers r now key_path delegation_path ttl =
      elim (make_publisher d now key_path delegation_path [] ttl) [
        | err e ↦ (err e, r)
        | ok p ↦ let (out, p', r') = Publisher.withdraw ed servers r now p in (out, r')
      ]

  -- `identity`
  unfoldable pub identity_command :
      Disk → List ServerLink → ℕ → Text → Result (List (PubKey × State))
  unfolding describe_state
  identity_command d servers now text = read_pubkey ed enc d text >>= λ who.
      lookup_identity_records ed servers now who >>= λ recs.
      ok (map (λ (rec : SignedRecord). (rec.rec.key, describe_state rec.rec.body)) recs)
