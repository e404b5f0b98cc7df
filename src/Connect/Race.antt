-- ===== src/Connect/Race.antt =====
-- Which addresses `connect_with` of crates/sqns-client/src/conn.rs ends up at.
use sqns.Base.{
  ℕ, ◌≡◌, refl, sym, ◌∙◌, subst, ◌⊎◌, ◌↔◌, if◌then◌else◌, inl, inr, Bool, true, false, Option, some,
  List, [], ◌∷◌, In, filter, In-filter, In-filter_sound, is_empty, Bool-cases, Option-cases, arith,
}
use sqns.Errors.{connection, Result, ok, err, >>=-eq-ok}
use sqns.Address.{ServerAddr, requires_dnssec}
use sqns.Text.{Text}
use sqns.Text.Socket.{SocketAddr}
use sqns.Dns.{DnsAnswer, Network, proven, resolve, validated_resolve, is_ip_literal}
use sqns.Connect.{candidates, race, Reach, connect_with}

-- An answer that proves an address: an A or AAAA record with a DNSSEC proof.
abbrev pub IsProvenBy : SocketAddr → ℕ → DnsAnswer → Type 0
IsProvenBy a port ans =
    (ans.is_address ≡ true) × (ans.secure ≡ true) × (ans.ip ≡ some a.ip) × (a.port ≡ port)

abbrev pub IsProven : SocketAddr → ℕ → List DnsAnswer → Type 0
IsProven a port answers = (ans : DnsAnswer) × In ans answers × IsProvenBy a port ans

further :
    (a : SocketAddr) (port : ℕ) (x : DnsAnswer) (answers : List DnsAnswer)
    → IsProven a port answers
    → IsProven a port (x ∷ answers)
further a port x answers (ans, here, rest) = (ans, inr here, rest)

proven_sound :
    (port : ℕ) (answers : List DnsAnswer) (a : SocketAddr)
    → In a (proven port answers).0
    → IsProven a port answers
unfolding proven
proven_sound port [] a h = absurd h
proven_sound port (x ∷ answers) a h = elim (Bool-cases x.is_address) [
  | inr other ↦ further a port x answers (proven_sound port answers a (rw (proven, other) at h))
  | inl address ↦ elim (Bool-cases x.secure) [
    | inr unsigned ↦
        further a port x answers (proven_sound port answers a (rw (proven, address, unsigned) at h))
    | inl signed ↦ elim (Option-cases x.ip) [
      | inl e ↦
          further a port x answers
            (proven_sound port answers a (rw (proven, address, signed, e) at h))
      | inr (ip, e) ↦ elim (rw (proven, address, signed, e) at h) [
        | inl same ↦ (x, inl refl, (address, signed, rw same e, rw same refl))
        | inr rest ↦ further a port x answers (proven_sound port answers a rest)
      ]
    ]
  ]
]

validated_resolve_sound :
    (net : Network) (host : Text) (port : ℕ) (all : List SocketAddr) (a : SocketAddr)
    → validated_resolve net host port ≡ ok all
    → In a all
    → (answers : List DnsAnswer) × (net.lookup_ip host ≡ some answers) × IsProven a port answers
unfolding validated_resolve
validated_resolve_sound net host port all a e h = elim (Bool-cases net.resolver_starts) [
  | inr off ↦ absurd (ground arith)
  | inl on ↦ elim (Option-cases (net.lookup_ip host)) [
    | inl none_found ↦ absurd (ground arith)
    | inr (answers, got) ↦
        let here : all ≡ (proven port answers).0 = ground arith in
        (answers, got, proven_sound port answers a (subst (In a) here h))
  ]
]

-- An address that has to be resolved with DNSSEC.
abbrev pub IsValidated : ServerAddr → Bool → Type 0
IsValidated addr require_dnssec =
    (is_ip_literal addr ≡ false) × (requires_dnssec addr.scheme ≡ true) × (require_dnssec ≡ true)

resolve-validated :
    (net : Network) (addr : ServerAddr) (require_dnssec : Bool)
    → IsValidated addr require_dnssec
    → resolve net addr require_dnssec ≡ validated_resolve net addr.host addr.port
unfolding resolve
resolve-validated net addr require_dnssec (name, scheme, required) =
    rw (resolve, name, scheme, required) refl

In-candidates :
    (is_routable : SocketAddr → Bool) (all : List SocketAddr) (a : SocketAddr)
    → In a (candidates is_routable all)
    → In a all
unfolding candidates
In-candidates is_routable all a h = elim (Bool-cases (is_empty (filter is_routable all))) [
  | inl e ↦ rw (candidates, e) at h
  | inr e ↦ In-filter_sound is_routable all a (rw (candidates, e) at h)
]

some_left : (a : SocketAddr) (all : List SocketAddr) → In a all → is_empty all ≡ false
some_left a [] h = absurd h
some_left a (x ∷ xs) h = refl

candidates_complete :
    (is_routable : SocketAddr → Bool) (all : List SocketAddr) (a : SocketAddr)
    → In a all
    → (is_routable a ≡ true) ⊎ (filter is_routable all ≡ [])
    → In a (candidates is_routable all)
unfolding candidates
candidates_complete is_routable all a h (inl route) =
    let found = In-filter is_routable all a h route in
    rw (candidates, some_left a (filter is_routable all) found) found
candidates_complete is_routable all a h (inr no_route) = rw (candidates, no_route) h

-- The attempts end in some order, and all of them do.
abbrev pub IsRace : (List SocketAddr → List SocketAddr) → Type 0
IsRace order = (attempts : List SocketAddr) (a : SocketAddr) → In a (order attempts) ↔ In a attempts

module _ {C : Type 0} where
  race_sound :
      (dial : SocketAddr → Option C) (attempts : List SocketAddr) (conn : C)
      → race dial attempts ≡ ok conn
      → (a : SocketAddr) × In a attempts × (dial a ≡ some conn)
  unfolding race
  race_sound dial [] conn e = cc
  race_sound dial (x ∷ rest) conn e = elim (Option-cases (dial x)) [
    | inl failed ↦
        let (a, h, d) = race_sound dial rest conn (rw (race, failed) at e) in (a, inr h, d)
    | inr (got, d) ↦ (x, inl refl, ground arith)
  ]

  race_complete :
      (dial : SocketAddr → Option C) (attempts : List SocketAddr) (a : SocketAddr) (conn : C)
      → In a attempts
      → dial a ≡ some conn
      → (first : C) × (race dial attempts ≡ ok first)
  unfolding race
  race_complete dial [] a conn h d = absurd h
  race_complete dial (x ∷ rest) a conn h d = elim (Option-cases (dial x)) [
    | inl failed ↦ elim h [
      | inl same ↦ absurd (ground arith)
      | inr later ↦
          let (first, e) = race_complete dial rest a conn later d in (first, rw (race, failed) e)
    ]
    | inr (got, e) ↦ (got, rw (race, e) refl)
  ]

  abbrev after_resolve : Reach C → List SocketAddr → Result C
  after_resolve out all =
      if is_empty all
      then err connection
      else race out.dial (out.order (candidates out.is_routable all))

  connected :
      (out : Reach C) (all : List SocketAddr) (conn : C)
      → IsRace out.order
      → after_resolve out all ≡ ok conn
      → (a : SocketAddr) × In a all × (out.dial a ≡ some conn)
  connected out [] conn ends e = absurd (ground arith)
  connected out (x ∷ xs) conn ends e =
      let (a, h, d) =
        race_sound out.dial (out.order (candidates out.is_routable (x ∷ xs))) conn e in
      (
        a,
        In-candidates out.is_routable (x ∷ xs) a
            ((ends (candidates out.is_routable (x ∷ xs)) a).0 h),
        d,
      )

  -- A connection to a server whose address is to be resolved with DNSSEC is one to an address that an answer with a
  -- proof gave for the host, at the port of the address: no answer without a proof, and no address of the
  -- system's resolver, is ever dialed with success.
  pub connect_with-IsProven :
      (out : Reach C) (addr : ServerAddr) (require_dnssec : Bool) (conn : C)
      → IsRace out.order
      → IsValidated addr require_dnssec
      → connect_with out addr require_dnssec ≡ ok conn
      → (a : SocketAddr) × (answers : List DnsAnswer) × (out.dial a ≡ some conn)
        × (out.network.lookup_ip addr.host ≡ some answers)
        × IsProven a addr.port answers
  unfolding connect_with
  connect_with-IsProven out addr require_dnssec conn ends valid e =
      let (all, resolved, raced) =
        >>=-eq-ok (resolve out.network addr require_dnssec) (after_resolve out) e in
      let (a, h, dialed) = connected out all conn ends raced in
      let (answers, got, proof) =
        validated_resolve_sound out.network addr.host addr.port all a
          (sym (resolve-validated out.network addr require_dnssec valid) ∙ resolved) h in
      (a, answers, dialed, got, proof)

  -- A server that can be reached is reached: when one of the addresses that its name resolves to can be dialed, and it
  -- has a route or none of the addresses has one, then a connection comes about, whatever happens at the other
  -- addresses and in whichever order the attempts end.
  pub connect_with_reaches :
      (out : Reach C) (addr : ServerAddr) (require_dnssec : Bool) (all : List SocketAddr)
      (a : SocketAddr) (conn : C)
      → IsRace out.order
      → resolve out.network addr require_dnssec ≡ ok all
      → In a all
      → (out.is_routable a ≡ true) ⊎ (filter out.is_routable all ≡ [])
      → out.dial a ≡ some conn
      → (first : C) × (connect_with out addr require_dnssec ≡ ok first)
  unfolding connect_with
  connect_with_reaches out addr require_dnssec all a conn ends resolved h route dialed =
      let (first, e) =
        race_complete out.dial (out.order (candidates out.is_routable all)) a conn
          ((ends (candidates out.is_routable all) a).1
            (candidates_complete out.is_routable all a h route))
          dialed in
      (first, rw (connect_with, resolved, some_left a all h) e)
