-- ===== src/Config/Bounds.antt =====
-- What holds of every configuration with which a server starts.
use sqns.Base.{◌≤◌, ◌≡◌, ◌≢◌, Bool, true, false, Option, some, List, [], All, ◌++◌}
use sqns.Errors.{ok}
use sqns.Text.{Text}
use sqns.Key.{Encodings}
use sqns.Files.{PathName, Disk}
use sqns.Address.{ServerAddr}
use sqns.Cli.Servers.{Environment, parse_all}
use sqns.Config.{Fields, Config, parse_listen, Flags, config_path, base_config}

-- No interval is so short that a loop would not rest, some query may be in flight, and the versions of the envelope
-- are some, none of them reserved.
pub record IsConfig (c : Config) : Type 0 where
  pub upstream_timeout : 1 ≤ c.upstream_timeout
  pub max_upstream_inflight : 1 ≤ c.max_upstream_inflight
  pub sync_interval : 5 ≤ c.sync_interval
  pub persist_interval : 1 ≤ c.persist_interval
  pub some_version : c.accepted_envelope_versions ≢ []
  pub not_reserved : All (λ v. 1 ≤ v) c.accepted_envelope_versions

-- What is behind `before` is what the texts say.
abbrev Appends : Encodings → List Text → List ServerAddr → List ServerAddr → Type 0
Appends enc texts before after =
    (more : List ServerAddr) × (parse_all enc texts ≡ ok more) × (after ≡ before ++ more)

-- What the flags of a server say of its configuration, where `base` is what the file or the defaults say: the peers and
-- upstreams of the flags come behind those of the file, in their order.
abbrev pub Follows : Encodings → Flags → Config → Config → Type 0
Follows enc flags base c =
    (flags.no_sync ≡ true → c.allow_sync ≡ false)
    × (flags.insecure_dns ≡ true → c.require_dnssec ≡ false)
    × ((p : PathName) → flags.key_file ≡ some p → c.key_file ≡ p)
    × ((p : PathName) → flags.state_file ≡ some p → c.state_file ≡ some p)
    × ((s : Text) → flags.listen ≡ some s → parse_listen s ≡ ok c.listen)
    × Appends enc flags.peers base.peers c.peers
    × Appends enc flags.upstreams base.upstreams c.upstreams

-- The configuration after the flag for the address, from the one before it.
pub record Listens (listen : Option Text) (base c : Config) : Type 0 where
  pub config : IsConfig c
  pub address : (s : Text) → listen ≡ some s → parse_listen s ≡ ok c.listen
  pub peers : c.peers ≡ base.peers
  pub upstreams : c.upstreams ≡ base.upstreams

module _ (enc : Encodings) where
  module _ (toml : Text → Option Fields) where
    -- A configuration that the flags make of what the file or the defaults say.
    abbrev pub IsBuilt : Environment → Bool → Disk → Flags → Config → Type 0
    IsBuilt e root d flags c =
        IsConfig c
        × (base : Config) × (base_config enc toml e root d (config_path d flags) ≡ ok base)
        × Follows enc flags base c
