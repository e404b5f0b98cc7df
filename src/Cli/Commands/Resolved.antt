-- ===== src/Cli/Commands/Resolved.antt =====
-- What `resolve` prints is what the records say.
use mathlib.Core.List.{Perm}
use sqns.Base.{
  ℕ, ◌<◌, length, reverse, ◌≡◌, ◌≢◌, refl, sym, subst, false, none, some, List, [], ◌∷◌, is_empty,
  Bool-cases, inl, inr, arith, if◌then◌else◌,
}
use sqns.Bytes.{bytes_eq}
use sqns.Errors.{Result, ok, err, Result-cases}
use sqns.Crypto.{Ed25519}
use sqns.Record.{PubKey, SignedRecord, Record, Endpoint, endpoints, is_terminal}
use sqns.Text.{Text}
use sqns.Key.{Encodings, parse_key}
use sqns.Cache.Verified.{IsAnswer, IsVerified}
use sqns.Select.{Rng, IsRng}
use sqns.Select.Draw.{IsOrdered}
use sqns.Select.Ordered.{order_with-IsOrdered}
use sqns.Resolver.{Resolver, ServerLink}
use sqns.Resolver.Walk.{ServiceLocation, resolve_service, order_endpoints, max_supersede_hops}
use sqns.Resolver.Rotation.{Trail, IsDistinct, IsLocation, IsLocated, resolve_service-IsLocated}
use sqns.Cli.Commands.{Printed, print_location, resolve_command}

order_endpoints-IsOrdered :
    (draw : Rng) (r : Record)
    → IsRng draw
    → Perm (order_endpoints draw r) (endpoints r) × IsOrdered (order_endpoints draw r)
order_endpoints-IsOrdered draw r law =
    let (out, same, perm, ordered) = order_with-IsOrdered draw r law in
    rw (order_endpoints, same) (perm, ordered)

module _ (ed : Ed25519) (enc : Encodings) where
  -- What is printed for a key: rotations lead from it to a last key, and the endpoints are those of its record.
  pub record IsPrint (now : ℕ) (key : PubKey) (p : Printed) : Type 0 where
    pub last : PubKey
    pub hops : List PubKey
    pub trail : Trail ed now key hops last
    pub short : length hops < max_supersede_hops
    pub distinct : IsDistinct (last ∷ reverse hops)
    pub rec : SignedRecord
    pub answer : IsAnswer ed now last rec
    pub live : is_terminal rec.rec ≡ false
    pub some_endpoint : p.endpoints ≢ []
    pub complete : Perm p.endpoints (endpoints rec.rec)
    pub ordered : IsOrdered p.endpoints
    pub rotated : p.rotated ≡ (if bytes_eq last key then none else some last)

  abbrev pub IsPrinted : ℕ → Text → Result Printed → Type 0
  IsPrinted now text (ok p) = (key : PubKey) × (parse_key enc text ≡ ok key) × IsPrint now key p
  IsPrinted now text (err e) = Unit

  some_left : (eps : List Endpoint) → is_empty eps ≡ false → eps ≢ []
  some_left [] h e = absurd (ground arith)
  some_left (x ∷ eps) h e = cc

  print_location-IsPrinted :
      (now : ℕ) (text : Text) (key : PubKey) (draw : Rng) (loc : ServiceLocation)
      → IsRng draw
      → parse_key enc text ≡ ok key
      → IsLocation ed draw now key loc
      → IsPrinted now text (print_location key loc)
  unfolding print_location
  print_location-IsPrinted now text key draw loc law parsed h =
      elim (Bool-cases (is_empty loc.endpoints)) [
        | inl e ↦ rw (print_location, e) tt
        | inr e ↦
            let (perm, ordered) = order_endpoints-IsOrdered draw h.rec.rec law in
            rw (print_location, e)
              (
                key,
                parsed,
                record {
                  last = loc.key;
                  hops = loc.superseded_from;
                  trail = h.trail;
                  short = h.short;
                  distinct = h.distinct;
                  rec = h.rec;
                  answer = h.answer;
                  live = h.live;
                  some_endpoint = some_left loc.endpoints e;
                  complete = subst (λ eps. Perm eps (endpoints h.rec.rec)) (sym h.ordered) perm;
                  ordered = subst IsOrdered (sym h.ordered) ordered;
                  rotated = rw h.asked refl;
                },
              )
      ]

  -- What `resolve` prints, from a cache whose records are verified, whatever the servers answer and the generator
  -- draws from the ranges asked for: the text is a key, verified rotations, fewer than `max_supersede_hops` of them and
  -- never twice over one key, lead from the key to one that has a live, verified and unexpired record, and the endpoints of that record are printed, all of them, each as often as the
  -- record has it and in the order to try them, and there is at least one; another key than the one asked for is told.
  pub resolve_command-IsPrinted :
      (servers : List ServerLink) (draw : Rng) (r : Resolver) (now : ℕ) (text : Text)
      → IsVerified ed r.cache
      → IsRng draw
      → IsPrinted now text (resolve_command ed enc servers draw r now text).0
  unfolding resolve_command
  resolve_command-IsPrinted servers draw r now text h law =
      elim (Result-cases (parse_key enc text)) [
        | inr (e, bad) ↦ rw (resolve_command, bad) tt
        | inl (key, parsed) ↦
            let found = resolve_service ed servers draw r now key in
            elim (Result-cases found.0) [
              | inr (e, failed) ↦ rw (resolve_command, parsed, failed) tt
              | inl (loc, there) ↦
                  let good : IsLocation ed draw now key loc =
                    subst (IsLocated ed draw now key) there
                      (resolve_service-IsLocated ed servers draw r now key h) in
                  rw (resolve_command, parsed, there)
                    (print_location-IsPrinted now text key draw loc law parsed good)
            ]
      ]
