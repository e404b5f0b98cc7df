-- ===== src/Cli/Servers/Chosen.antt =====
-- Which servers a command ends up with.
use sqns.Base.{
  ◌≡◌, ◌≢◌, ◌⊎◌, inl, inr, refl, ap, ◌∙◌, false, not, Option, none, List, [], ◌∷◌, All, map, filter,
  if◌then◌else◌,
}
use sqns.Bytes.{ascii}
use sqns.Errors.{Result, ok, ◌>>=◌}
use sqns.Text.{Text}
use sqns.Key.{Encodings, IsEncodings}
use sqns.Files.{PathName, Disk, read_to_string}
use sqns.Address.{ServerAddr, show_address}
use sqns.Address.Authority.{IsAddress}
use sqns.Address.RoundTrip.{parse_address-show_address}
use sqns.Resolver.{Resolver}
use sqns.Protocol.{default_recurse}
use sqns.Cli.Servers.{
  Environment, join, sqns_dir, nonempty, or_else, env_specs, config_specs, specs_of, ResolverConfig,
  new, ServerArgs, parse_all, client_key_of, build_resolver, default_server,
}
use sqns.Cli.Servers.ConfigFile.{Line, IsLine, write_config, servers_from_config-write_config}

module _ (enc : Encodings) where
  abbrev shown : List ServerAddr → List Text
  shown addrs = map (show_address enc) addrs

  parse_all-shown :
      (addrs : List ServerAddr)
      → IsEncodings enc
      → All IsAddress addrs
      → parse_all enc (shown addrs) ≡ ok addrs
  unfolding parse_all
  parse_all-shown [] law h = refl
  parse_all-shown (a ∷ addrs) law h =
      rw (parse_all, parse_address-show_address enc a law h.0, parse_all-shown addrs law h.1) refl

  -- The servers are named by the arguments, or else by the configuration file, when neither the arguments nor the
  -- environment name any.
  abbrev pub IsNamed : Environment → Disk → PathName → List Text → List ServerAddr → Type 0
  IsNamed e d dir args addrs =
      (args ≡ map (show_address enc) addrs)
      ⊎ ((ls : List Line) × (args ≡ [])
          × (env_specs e ≡ [])
          × All IsLine ls
          × (read_to_string d (join dir (ascii "config")) ≡ ok (write_config ls))
          × (filter nonempty (map (λ (l : Line). l.server) ls) ≡ map (show_address enc) addrs))

  first_named :
      (addrs : List ServerAddr) (other : List Text)
      → addrs ≢ []
      → or_else (shown addrs) other ≡ shown addrs
  first_named [] other some_server = absurd (some_server refl)
  first_named (a ∷ addrs) other some_server = refl

  specs_of-IsNamed :
      (e : Environment) (d : Disk) (dir : PathName) (args : List Text) (addrs : List ServerAddr)
      → addrs ≢ []
      → IsNamed e d dir args addrs
      → specs_of e d dir args ≡ shown addrs
  unfolding specs_of config_specs
  specs_of-IsNamed e d dir args addrs some_server (inl given) = rw given (
      ap (λ (x : List Text). or_else (or_else x (config_specs d dir)) (default_server ∷ []))
        (first_named addrs (env_specs e) some_server)
      ∙ ap (λ (x : List Text). or_else x (default_server ∷ []))
          (first_named addrs (config_specs d dir) some_server)
      ∙ first_named addrs (default_server ∷ []) some_server)
  specs_of-IsNamed e d dir args addrs some_server (inr (ls, no_args, no_env, good, text, listed)) =
      let found : config_specs d dir ≡ shown addrs =
        rw (config_specs, text) (servers_from_config-write_config ls good ∙ listed) in
      rw (specs_of, no_args, no_env, found) (first_named addrs (default_server ∷ []) some_server)

  abbrev config_of : ServerArgs → Option Text → List ServerAddr → ResolverConfig
  config_of args key addrs = record {
    servers = addrs;
    client_key_hex = key;
    connect_timeout = args.timeout;
    cache = false;
    recurse = if args.no_recurse then 0 else default_recurse;
    require_dnssec = not args.insecure_dns;
  }

  -- What is left to do when the servers were parsed.
  abbrev with_servers :
      Disk → ServerArgs → Result (List ServerAddr) → Result (ResolverConfig × Resolver)
  with_servers d args parsed = parsed >>= λ addrs.
      client_key_of enc d args.client_key >>= λ key. new (config_of args key addrs)

  with_servers-ok :
      (d : Disk) (args : ServerArgs) (addrs : List ServerAddr)
      → addrs ≢ []
      → args.client_key ≡ none
      → (r : Resolver) × (with_servers d args (ok addrs) ≡ ok (config_of args none addrs, r))
  unfolding client_key_of new
  with_servers-ok d args [] some_server no_key = absurd (some_server refl)
  with_servers-ok d args (a ∷ addrs) some_server no_key = (
    record {
      caching = false;
      recurse = if args.no_recurse then 0 else default_recurse;
      cache = [];
      marks = [];
    },
    rw no_key refl,
  )

  -- The servers that are asked are those that were named, in their order: by the arguments, whatever the environment
  -- and the configuration file say, or by the configuration file, if neither the arguments nor the environment name
  -- any. No other server is added, and DNSSEC is required of them unless the user turned it off. The sqns directory
  -- is known, no client key is given, and the addresses are written as they are shown.
  pub build_resolver-servers :
      (e : Environment) (d : Disk) (dir : PathName) (args : ServerArgs) (addrs : List ServerAddr)
      → IsEncodings enc
      → All IsAddress addrs
      → addrs ≢ []
      → sqns_dir e ≡ ok dir
      → args.client_key ≡ none
      → IsNamed e d dir args.servers addrs
      → (c : ResolverConfig) × (r : Resolver) × (build_resolver enc e d args ≡ ok (c, r))
        × (c.servers ≡ addrs)
        × (c.require_dnssec ≡ not args.insecure_dns)
  unfolding build_resolver
  build_resolver-servers e d dir args addrs law good some_server home no_key named =
      let specs = specs_of-IsNamed e d dir args.servers addrs some_server named in
      let parsed = parse_all-shown addrs law good in
      let (r, done) = with_servers-ok d args addrs some_server no_key in
      let started : build_resolver enc e d args
          ≡ with_servers d args (parse_all enc (specs_of e d dir args.servers)) =
        ap
          (λ (x : Result PathName).
            x >>= λ dir'. with_servers d args (parse_all enc (specs_of e d dir' args.servers)))
          home in
      (
        config_of args none addrs,
        r,
        started ∙ ap (with_servers d args) (ap (parse_all enc) specs ∙ parsed) ∙ done,
        refl,
        refl,
      )
