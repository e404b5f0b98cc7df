-- ===== src/Config.antt =====
-- crates/sqnsd/src/config.rs and crates/sqnsd/src/main.rs: the configuration of a server, from its file and its flags, and
-- the server's key. The crate toml is a parameter that gives the fields which a file sets; intervals are in
-- seconds. That a directory is made before a file is written is a part of what the disk says can be written.
pub mod Bounds
pub mod ServerKey
use sqns.Base.{
  ℕ, Bool, true, false, not, ◌||◌, Option, none, some, List, [], ◌∷◌, ◌++◌, ltb, ◌==◌, is_empty,
  if◌then◌else◌,
}
use sqns.Bytes.{Bytes, ascii}
use sqns.Errors.{Error, bad_key, protocol, Result, ok, err, check, ◌>>=◌, ◌>>◌}
use sqns.Record.{PubKey}
use sqns.Text.{Text, parse_u16, show_u16}
use sqns.Text.Socket.{IpAddr, SocketAddr, parse_ip, parse_socket}
use sqns.Key.{Encodings, parse_key}
use sqns.Key.Secret.{load_secret_file, save_secret_file}
use sqns.Files.{PathName, Disk, exists, read_to_string}
use sqns.Protocol.{default_port}
use sqns.Address.{ServerAddr}
use sqns.Cli.Servers.{Environment, join, sqns_dir, parse_all}

-- The fields that a file sets.
pub record Fields : Type 0 where
  pub listen : Option Text
  pub key_file : Option PathName
  pub state_file : Option PathName
  pub peers : Option (List Text)
  pub allowed_clients : Option (List Text)
  pub upstreams : Option (List Text)
  pub upstream_timeout_secs : Option ℕ
  pub upstream_cache : Option Bool
  pub max_upstream_inflight : Option ℕ
  pub require_dnssec : Option Bool
  pub allow_sync : Option Bool
  pub sync_interval_secs : Option ℕ
  pub persist_interval_secs : Option ℕ
  pub accepted_envelope_versions : Option (List ℕ)

pub record FileConfig : Type 0 where
  pub listen : Text
  pub key_file : PathName
  pub state_file : Option PathName
  pub peers : List Text
  pub allowed_clients : List Text
  pub upstreams : List Text
  pub upstream_timeout_secs : ℕ
  pub upstream_cache : Bool
  pub max_upstream_inflight : ℕ
  pub require_dnssec : Bool
  pub allow_sync : Bool
  pub sync_interval_secs : ℕ
  pub persist_interval_secs : ℕ
  pub accepted_envelope_versions : List ℕ

abbrev pub default_listen : Text
default_listen = ascii "[::]:5300"

abbrev pub default_envelope_versions : List ℕ
default_envelope_versions = 1 ∷ 2 ∷ []

abbrev pub unless {ℓ} : {A : Type ℓ} → A → Option A → A
unless x none = x
unless x (some y) = y

-- The defaults of the fields; only the key file has none.
unfoldable pub filled : Fields → Option FileConfig
filled f = elim f.key_file [
  | none ↦ none
  | some key_file ↦ some (record {
    listen = unless default_listen f.listen;
    key_file = key_file;
    state_file = f.state_file;
    peers = unless [] f.peers;
    allowed_clients = unless [] f.allowed_clients;
    upstreams = unless [] f.upstreams;
    upstream_timeout_secs = unless 5 f.upstream_timeout_secs;
    upstream_cache = unless true f.upstream_cache;
    max_upstream_inflight = unless 64 f.max_upstream_inflight;
    require_dnssec = unless true f.require_dnssec;
    allow_sync = unless true f.allow_sync;
    sync_interval_secs = unless 60 f.sync_interval_secs;
    persist_interval_secs = unless 30 f.persist_interval_secs;
    accepted_envelope_versions = unless default_envelope_versions f.accepted_envelope_versions;
  })
]

pub record Config : Type 0 where
  pub listen : SocketAddr
  pub key_file : PathName
  pub state_file : Option PathName
  pub peers : List ServerAddr
  pub upstreams : List ServerAddr
  pub upstream_timeout : ℕ
  pub upstream_cache : Bool
  pub max_upstream_inflight : ℕ
  pub allowed_clients : List PubKey
  pub require_dnssec : Bool
  pub allow_sync : Bool
  pub sync_interval : ℕ
  pub persist_interval : ℕ
  pub accepted_envelope_versions : List ℕ

abbrev pub any_address : Text
any_address = ascii "[::]:"

abbrev or_address : Option SocketAddr → Result SocketAddr
or_address (some addr) = ok addr
or_address none = err Error.address

unfoldable pub parse_listen : Text → Result SocketAddr
parse_listen s = elim (parse_socket s) [
  | some addr ↦ ok addr
  | none ↦ elim (parse_u16 s) [
    | some port ↦ or_address (parse_socket (any_address ++ show_u16 port))
    | none ↦ elim (parse_ip s) [
      | some ip ↦ ok (record { ip = ip; port = default_port })
      | none ↦ err Error.address
    ]
  ]
]

-- `n.max(least)`
abbrev pub at_least : ℕ → ℕ → ℕ
at_least least n = if ltb n least then least else n

abbrev pub has_zero : List ℕ → Bool
has_zero [] = false
has_zero (v ∷ versions) = v == 0 || has_zero versions

-- The flags of `sqnsd`.
pub record Flags : Type 0 where
  pub config : Option PathName
  pub listen : Option Text
  pub key_file : Option PathName
  pub state_file : Option PathName
  pub peers : List Text
  pub upstreams : List Text
  pub no_sync : Bool
  pub insecure_dns : Bool

abbrev pub system_config : PathName
system_config = ascii "/etc/sqns/sqnsd.toml"

abbrev pub system_key : PathName
system_key = ascii "/etc/sqns/sqnsd.key"

abbrev pub system_state : PathName
system_state = ascii "/var/lib/sqns/records.db"

unfoldable pub default_paths : Environment → Bool → Result (PathName × PathName)
default_paths e true = ok (system_key, system_state)
default_paths e false =
    sqns_dir e >>= λ dir. ok (join dir (ascii "sqnsd.key"), join dir (ascii "records.db"))

-- The file that is read: the one that is named, or the system's if it is there.
unfoldable pub config_path : Disk → Flags → Option PathName
config_path d flags = elim flags.config [
  | some p ↦ some p
  | none ↦ if exists d system_config then some system_config else none
]

abbrev pub default_config : PathName → PathName → FileConfig
default_config key_file state_file = record {
  listen = ascii "[::]:" ++ show_u16 default_port;
  key_file = key_file;
  state_file = some state_file;
  peers = [];
  allowed_clients = [];
  upstreams = [];
  upstream_timeout_secs = 5;
  upstream_cache = true;
  max_upstream_inflight = 64;
  require_dnssec = true;
  allow_sync = true;
  sync_interval_secs = 60;
  persist_interval_secs = 30;
  accepted_envelope_versions = 1 ∷ 2 ∷ [];
}

abbrev pub override_listen : Option Text → Config → Result Config
override_listen none c = ok c
override_listen (some s) c = parse_listen s >>= λ addr. ok (record c { listen = addr })

unfoldable pub parsed : Option Fields → Result FileConfig
unfolding filled
parsed none = err protocol
parsed (some fields) = elim (filled fields) [ some f ↦ ok f | none ↦ err protocol ]

abbrev pub override_flags : Flags → List ServerAddr → List ServerAddr → Config → Config
override_flags flags peers upstreams c = record c {
  key_file = unless c.key_file flags.key_file;
  state_file = elim flags.state_file [ some p ↦ some p | none ↦ c.state_file ];
  peers = c.peers ++ peers;
  upstreams = c.upstreams ++ upstreams;
  allow_sync = if flags.no_sync then false else c.allow_sync;
  require_dnssec = if flags.insecure_dns then false else c.require_dnssec;
}

module _ (enc : Encodings) where
  unfoldable pub parse_keys : List Text → Result (List PubKey)
  parse_keys [] = ok []
  parse_keys (s ∷ specs) = parse_key enc s >>= λ k. parse_keys specs >>= λ rest. ok (k ∷ rest)

  -- `FileConfig::resolve`
  unfoldable pub resolve_config : FileConfig → Result Config
  unfolding parse_listen parse_keys
  resolve_config f = do
    listen ← parse_listen f.listen
    peers ← parse_all enc f.peers
    upstreams ← parse_all enc f.upstreams
    allowed_clients ← parse_keys f.allowed_clients
    check (not (is_empty f.accepted_envelope_versions || has_zero f.accepted_envelope_versions))
        protocol
    ok (record {
      listen = listen;
      key_file = f.key_file;
      state_file = f.state_file;
      peers = peers;
      upstreams = upstreams;
      upstream_timeout = at_least 1 f.upstream_timeout_secs;
      upstream_cache = f.upstream_cache;
      max_upstream_inflight = at_least 1 f.max_upstream_inflight;
      allowed_clients = allowed_clients;
      require_dnssec = f.require_dnssec;
      allow_sync = f.allow_sync;
      sync_interval = at_least 5 f.sync_interval_secs;
      persist_interval = at_least 1 f.persist_interval_secs;
      accepted_envelope_versions = f.accepted_envelope_versions;
    })

  module _ (toml : Text → Option Fields) where
    -- `Config::from_file`
    unfoldable pub from_file : Disk → PathName → Result Config
    unfolding parsed resolve_config
    from_file d p = elim (read_to_string d p) [
      | err e ↦ err protocol
      | ok text ↦ parsed (toml text) >>= λ f. resolve_config f
    ]

    -- The configuration before the flags.
    unfoldable pub base_config : Environment → Bool → Disk → Option PathName → Result Config
    unfolding from_file resolve_config default_paths
    base_config e root d (some p) = from_file d p
    base_config e root d none =
        default_paths e root >>= λ paths. resolve_config (default_config paths.0 paths.1)

    unfoldable pub build_config : Environment → Bool → Disk → Flags → Result Config
    unfolding base_config config_path
    build_config e root d flags = do
      base ← base_config e root d (config_path d flags)
      c ← override_listen flags.listen base
      peers ← parse_all enc flags.peers
      upstreams ← parse_all enc flags.upstreams
      ok (override_flags flags peers upstreams c)

  -- `load_or_create_key`, with the seed that `generate` gives.
  unfoldable pub load_or_create_key : Disk → PathName → Bool → Bytes → Result (Bytes × Disk)
  load_or_create_key d p explicit fresh =
      if exists d p
      then (load_secret_file enc d p >>= λ seed. ok (seed, d))
      else if explicit
      then err bad_key
      else (save_secret_file enc d p fresh >>= λ d'. ok (fresh, d'))
