-- ===== src/Cli/Servers.antt =====
-- crates/sqns/src/main.rs: `build_resolver`, which chooses the servers that a command asks, with `sqns_dir` of
-- crates/sqns-core/src/key.rs and `Resolver::new`. The environment is an argument.
pub mod Chosen
pub mod ConfigFile
use sqns.Base.{
  ℕ, ◌+◌, ◌/◌, ◌%◌, Bool, true, false, not, ◌||◌, Option, none, some, List, [], ◌∷◌, ◌++◌, map,
  filter, ltb, ◌==◌, is_empty, if◌then◌else◌,
}
use sqns.Bytes.{Bytes, ascii}
use sqns.Errors.{Error, bad_key, Result, ok, err, ◌>>=◌}
use sqns.Text.{Text, trim}
use sqns.Endpoint.{split}
use sqns.Key.{Encodings}
use sqns.Key.Secret.{load_secret_file}
use sqns.Files.{PathName, Disk, read_to_string}
use sqns.Address.{ServerAddr, parse_address}
use sqns.Protocol.{default_recurse}
use sqns.Resolver.{Resolver}

-- What a command finds outside of its arguments: `$SQNS_SERVER`, `$SQNS_HOME` and the home directory.
pub record Environment : Type 0 where
  pub servers : Option Text
  pub sqns_home : Option Bytes
  pub home_dir : Option PathName

-- `Path::join` with a relative path.
unfoldable pub join : PathName → PathName → PathName
join [] name = name
join (c ∷ []) name = if c == 47 then c ∷ name else c ∷ (47 ∷ name)
join (c ∷ d ∷ dir) name = c ∷ join (d ∷ dir) name

-- `sqns_dir`
unfoldable pub sqns_dir : Environment → Result PathName
unfolding join
sqns_dir e = elim e.sqns_home [
  | some (c ∷ dir) ↦ ok (c ∷ dir)
  | _ ↦ elim e.home_dir [ some home ↦ ok (join home (ascii ".sqns")) | none ↦ err bad_key ]
]

abbrev add_first : ℕ → List Text → List Text
add_first c [] = (c ∷ []) ∷ []
add_first c (line ∷ rest) = (c ∷ line) ∷ rest

-- `lines`, with the carriage returns left in: they are white space, and trimmed.
unfoldable pub lines : Text → List Text
lines [] = []
lines (c ∷ s) = let rest = lines s in if c == 10 then [] ∷ rest else add_first c rest

-- What a line of the configuration says, without its comment.
unfoldable pub config_line : Text → Text
config_line line = trim ((split 35 line).0)

abbrev pub nonempty : Text → Bool
nonempty s = not (is_empty s)

unfoldable pub servers_from_config : Text → List Text
unfolding lines config_line
servers_from_config text = filter nonempty (map config_line (lines text))

-- What separates the servers in the environment.
abbrev pub is_separator : ℕ → Bool
is_separator c = (c == 44) || ((c == 32) || ((c == 9) || (c == 10)))

-- `split` at any of the separators: the first part, and the others.
unfoldable pub split_words : Text → Text × List Text
split_words [] = ([], [])
split_words (c ∷ s) =
    let (first, parts) = split_words s in
    if is_separator c then ([], first ∷ parts) else (c ∷ first, parts)

unfoldable pub servers_from_env : Text → List Text
unfolding split_words
servers_from_env s = let (first, parts) = split_words s in filter nonempty (first ∷ parts)

abbrev pub default_server : Text
default_server = ascii "sqns://ns.squic.org/9Yb1A35fjEVVxphy5sGKfqC9fhTD9etoJQ4gVSa1jEKb"

abbrev pub or_else : List Text → List Text → List Text
or_else [] other = other
or_else (s ∷ specs) other = s ∷ specs

unfoldable pub env_specs : Environment → List Text
unfolding servers_from_env
env_specs e = elim e.servers [ some s ↦ servers_from_env s | none ↦ [] ]

unfoldable pub config_specs : Disk → PathName → List Text
unfolding servers_from_config
config_specs d dir = elim (read_to_string d (join dir (ascii "config"))) [
  | ok text ↦ servers_from_config text
  | err e ↦ []
]

-- The servers that are named: by the arguments, the environment or the configuration, or else the public one.
unfoldable pub specs_of : Environment → Disk → PathName → List Text → List Text
unfolding env_specs config_specs
specs_of e d dir args =
    or_else (or_else (or_else args (env_specs e)) (config_specs d dir)) (default_server ∷ [])

unfoldable pub hex_digit : ℕ → ℕ
hex_digit n = if ltb n 10 then 48 + n else 87 + n

-- `hex_seed`
unfoldable pub hex_seed : Bytes → Text
unfolding hex_digit
hex_seed [] = []
hex_seed (b ∷ seed) = hex_digit (b / 16 % 16) ∷ hex_digit (b % 16) ∷ hex_seed seed

pub record ResolverConfig : Type 0 where
  pub servers : List ServerAddr
  pub client_key_hex : Option Text
  pub connect_timeout : ℕ
  pub cache : Bool
  pub recurse : ℕ
  pub require_dnssec : Bool

-- `Resolver::new`, with the configuration that it keeps.
unfoldable pub new : ResolverConfig → Result (ResolverConfig × Resolver)
new c =
    if is_empty c.servers
    then err Error.no_server
    else ok (c, record { caching = c.cache; recurse = c.recurse; cache = []; marks = [] })

-- `ServerArgs`
pub record ServerArgs : Type 0 where
  pub servers : List Text
  pub client_key : Option PathName
  pub timeout : ℕ
  pub no_recurse : Bool
  pub insecure_dns : Bool

module _ (enc : Encodings) where
  unfoldable pub parse_all : List Text → Result (List ServerAddr)
  parse_all [] = ok []
  parse_all (s ∷ specs) = parse_address enc s >>= λ a. parse_all specs >>= λ rest. ok (a ∷ rest)

  unfoldable pub client_key_of : Disk → Option PathName → Result (Option Text)
  unfolding hex_seed
  client_key_of d none = ok none
  client_key_of d (some p) = load_secret_file enc d p >>= λ seed. ok (some (hex_seed seed))

  unfoldable pub build_resolver :
      Environment → Disk → ServerArgs → Result (ResolverConfig × Resolver)
  unfolding sqns_dir specs_of parse_all client_key_of new
  build_resolver e d args = do
    dir ← sqns_dir e
    servers ← parse_all (specs_of e d dir args.servers)
    client_key ← client_key_of d args.client_key
    new (record {
      servers = servers;
      client_key_hex = client_key;
      connect_timeout = args.timeout;
      cache = false;
      recurse = if args.no_recurse then 0 else default_recurse;
      require_dnssec = not args.insecure_dns;
    })
