-- ===== src/Publisher/Renumbered.antt =====
-- What publishing changes of a publisher: the serial number alone, however often it refreshes and whatever the
-- servers reply.
use sqns.Base.{ℕ, ◌≡◌, refl, ap, ◌∙◌, Bool-cases, inl, inr, none, some, List, [], ◌∷◌}
use sqns.Errors.{Result-cases}
use sqns.Crypto.{Ed25519}
use sqns.Record.{Endpoint}
use sqns.Resolver.{Resolver, ServerLink, lookup_record}
use sqns.Publisher.{
  Publisher, key, is_stale, raise_serial, sign_next, adopt_network_serial, publish_next,
  publish_endpoints, publish, run,
}
use sqns.Publisher.Keepalive.{numbered}

-- Only the serial number is another.
abbrev pub Renumbered : Publisher → Publisher → Type 0
Renumbered p q = q ≡ numbered p q.serial

Renumbered-trans : (p q r : Publisher) → Renumbered p q → Renumbered q r → Renumbered p r
Renumbered-trans p q r e f = f ∙ ap (λ (u : Publisher). numbered u r.serial) e

module _ (ed : Ed25519) where
  publish_next-Renumbered :
      (servers : List ServerLink) (r : Resolver) (now : ℕ) (p : Publisher) (eps : List Endpoint)
      → Renumbered p (publish_next ed servers r now p eps).1
  unfolding publish_next sign_next
  publish_next-Renumbered servers r now p eps = elim (Result-cases (sign_next ed p now eps).0) [
    | inl (x, e) ↦ rw (publish_next, e) refl
    | inr (f, e) ↦ rw (publish_next, e) refl
  ]

  adopt-Renumbered :
      (servers : List ServerLink) (r : Resolver) (now : ℕ) (p : Publisher)
      → Renumbered p (adopt_network_serial ed servers r now p).1
  unfolding adopt_network_serial raise_serial
  adopt-Renumbered servers r now p =
      elim (Result-cases (lookup_record ed servers r now (key ed p)).0) [
        | inl (none, e) ↦ rw (adopt_network_serial, e) refl
        | inl (some held, e) ↦ rw (adopt_network_serial, e) refl
        | inr (f, e) ↦ rw (adopt_network_serial, e) refl
      ]

  publish_endpoints-Renumbered :
      (servers : ℕ → List ServerLink) (r : Resolver) (now : ℕ) (p : Publisher) (eps : List Endpoint)
      → Renumbered p (publish_endpoints ed servers r now p eps).1
  unfolding publish_endpoints
  publish_endpoints-Renumbered servers r now p eps =
      let p1 = (publish_next ed (servers 0) r now p eps).1 in
      let r1 = (publish_next ed (servers 0) r now p eps).2 in
      let first = publish_next-Renumbered (servers 0) r now p eps in
      let second = Renumbered-trans p p1 _ first (adopt-Renumbered (servers 1) r1 now p1) in
      let adopted = adopt_network_serial ed (servers 1) r1 now p1 in
      elim (Bool-cases (is_stale (publish_next ed (servers 0) r now p eps).0)) [
        | inr fresh ↦ rw (publish_endpoints, fresh) first
        | inl old ↦ elim (Result-cases adopted.0) [
          | inl (u, e) ↦
              rw (publish_endpoints, old, e)
                (Renumbered-trans p adopted.1 _ second
                  (publish_next-Renumbered (servers 2) adopted.2 now adopted.1 eps))
          | inr (f, e) ↦ rw (publish_endpoints, old, e) second
        ]
      ]

  run-Renumbered :
      (ticks : List (ℕ × (ℕ → List ServerLink))) (r : Resolver) (p : Publisher)
      → Renumbered p (run ed ticks r p).0
  unfolding run publish
  run-Renumbered [] r p = refl
  run-Renumbered ((now, servers) ∷ ticks) r p =
      let (out, p', r') = publish ed servers r now p in
      Renumbered-trans p p' _ (publish_endpoints-Renumbered servers r now p p.endpoints)
        (run-Renumbered ticks r' p')
