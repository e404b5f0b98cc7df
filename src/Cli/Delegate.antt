-- ===== src/Cli/Delegate.antt =====
-- What `delegate` writes is what `publish` reads, and how long it lasts.
use sqns.Base.{
  ℕ, ◌+◌, ◌%◌, ◌^◌, ◌≤◌, ◌<◌, ◌≡◌, refl, sym, ap, subst, ◌∙◌, Bool, true, false, not, ◌||◌, some,
  List, ltb, ◌==◌, arith, Bool-cases, inl, inr,
}
use sqns.Bytes.{Bytes, IsArray, bytes_eq, bytes_eq_refl, bytes_eq_sound, bytes_eq_complete}
use sqns.Errors.{Error, ok, check, >>=-eq-ok, check-eq-ok, ok-injective}
use sqns.Crypto.{Ed25519, IsEd25519}
use sqns.Map.{get, insert}
use sqns.Map.Laws.{get-insert}
use sqns.Record.{PubKey, Endpoint, Delegation, never_expires_at}
use sqns.Record.Authority.{issue, verify_delegation}
use sqns.Record.Grant.{DelegationFile, encode_file}
use sqns.Record.Grant.RoundTrip.{IsFile, decode_file-encode_file}
use sqns.Text.{Text}
use sqns.Key.{Encodings}
use sqns.Files.{PathName, Disk, File, mode_of, read, write}
use sqns.Publisher
use sqns.Cli.{
  load_key, read_pubkey, not_after_of, issue_to, delegate, load_delegation, max_delegation_lifetime,
  saturating_mul,
}

written :
    (d d' : Disk) (p : PathName) (bytes : Bytes) (f : File)
    → ok (record d { files = insert d.files p f }) ≡ ok d'
    → f.content ≡ bytes
    → read d' p ≡ ok bytes
unfolding read
written d d' p bytes f e same =
    let there : record d { files = insert d.files p f } ≡ d' = ground arith in
    let found : get (insert d.files p f) p ≡ some f =
      get-insert d.files p p f ∙ rw (bytes_eq_refl p) refl in
    subst (λ (x : Disk). read x p ≡ ok bytes) there (rw (read, found) (ap ok same))

read-write :
    (d d' : Disk) (p : PathName) (bytes : Bytes) → write d p bytes ≡ ok d' → read d' p ≡ ok bytes
unfolding write
read-write d d' p bytes e = elim (Bool-cases (d.writable p)) [
  | inr cannot ↦ absurd (ground arith)
  | inl can ↦
      written d d' p bytes (record { content = bytes; mode = mode_of d (get d.files p) })
        (rw (write, can) at e) refl
]

other_key : (a b : Bytes) → not (bytes_eq b a) ≡ true → bytes_eq a b ≡ false
other_key a b h = elim (Bool-cases (bytes_eq a b)) [
  | inl same ↦
      let e : a ≡ b = bytes_eq_sound a b same in
      absurd (ground (arith, bytes_eq_complete b a (sym e)))
  | inr other ↦ other
]

-- The time that a delegation ends, for one that was issued at `now`.
abbrev pub IsLifetime : ℕ → Bool → ℕ → Type 0
IsLifetime now true end = end ≡ never_expires_at
IsLifetime now false end = (now < end) × (end ≤ now + max_delegation_lifetime)

lifetime_range :
    (n : ℕ)
    → ((n == 0) || ltb max_delegation_lifetime n) ≡ false
    → (1 ≤ n) × (n ≤ max_delegation_lifetime)
lifetime_range n good = (ground arith, ground arith)

not_after_of-IsLifetime :
    (now days end : ℕ) (never : Bool)
    → now < 2 ^ 63
    → not_after_of now days never ≡ ok end
    → IsLifetime now never end × (end < 2 ^ 64)
unfolding not_after_of
not_after_of-IsLifetime now days end true small e =
    let same : end ≡ never_expires_at = ground arith in (same, omega (arith, same))
not_after_of-IsLifetime now days end false small e =
    let lifetime = saturating_mul days 86_400 in
    elim (Bool-cases ((lifetime == 0) || ltb max_delegation_lifetime lifetime)) [
      | inl bad ↦ absurd (ground arith)
      | inr good ↦
          let same : (now + lifetime) % 2 ^ 64 ≡ end =
            ok-injective _ end (rw (not_after_of, good) at e) in
          let (some_time, bound) = lifetime_range lifetime good in
          (
            (omega (arith, small, some_time, bound, same), omega (arith, small, bound, same)),
            omega (arith, small, bound, same),
          )
    ]

module _ (ed : Ed25519) (enc : Encodings) where
  pub verify-issue :
      (identity : Bytes) (service : PubKey) (end : ℕ)
      → IsEd25519 ed
      → verify_delegation ed (issue ed identity service end) service ≡ ok tt
  unfolding verify_delegation issue
  verify-issue identity service end h =
      rw (h.public_key_valid identity, h.sign_verifies identity _) refl

  issue-IsFile :
      (identity : Bytes) (service : PubKey) (end : ℕ)
      → IsEd25519 ed
      → IsArray 32 service
      → end < 2 ^ 64
      → IsFile (record { service_key = service; delegation = issue ed identity service end })
  unfolding issue
  issue-IsFile identity service end h size fits = record {
    service_key = size;
    delegation = record {
      identity = h.public_key_size identity;
      not_after = fits;
      signature = h.signature_size identity _;
    };
  }

  new-covered :
      (now : ℕ) (seed : Bytes) (delegation : Delegation) (endpoints : List Endpoint) (ttl : ℕ)
      → verify_delegation ed delegation (ed.public_key seed) ≡ ok tt
      → (p : Publisher.Publisher) × (Publisher.new ed now seed delegation endpoints ttl ≡ ok p)
  unfolding Publisher.new
  new-covered now seed delegation endpoints ttl covered =
      let p : Publisher.Publisher = record {
        signing_key = seed;
        delegation = delegation;
        endpoints = endpoints;
        ttl = ttl;
        serial = now;
      } in
      (p, rw (Publisher.new, covered) refl)

  -- What was written for a service key, and when it ends.
  abbrev pub Written : Disk → ℕ → Bool → PathName → PubKey → Type 0
  Written d now never out service =
      (f : DelegationFile) × (load_delegation ed enc d out ≡ ok f)
      × (f.service_key ≡ service)
      × (verify_delegation ed f.delegation service ≡ ok tt)
      × (bytes_eq f.delegation.identity service ≡ false)
      × IsLifetime now never f.delegation.not_after
      × IsFile f

  issue_to-Written :
      (d d' : Disk) (now : ℕ) (identity : Bytes) (service : PubKey) (days : ℕ) (never : Bool)
      (out : PathName)
      → IsEd25519 ed
      → now < 2 ^ 63
      → IsArray 32 service
      → issue_to ed enc d now identity service days never out ≡ ok d'
      → Written d' now never out service
  unfolding issue_to load_delegation
  issue_to-Written d d' now identity service days never out h small size e =
      let (_, e1, r1) =
        >>=-eq-ok (check (not (bytes_eq service (ed.public_key identity))) Error.delegation) _ e in
      let (end, e2, r2) = >>=-eq-ok (not_after_of now days never) _ r1 in
      let f : DelegationFile = record {
        service_key = service;
        delegation = issue ed identity service end;
      } in
      let (life, fits) = not_after_of-IsLifetime now days end never small e2 in
      let covered = verify-issue identity service end h in
      (
        f,
        rw (load_delegation, read-write d d' out (encode_file f) r2)
            (decode_file-encode_file ed f (issue-IsFile identity service end h size fits) covered),
        refl,
        covered,
        (unfold issue in other_key (ed.public_key identity) service (check-eq-ok _ _ e1)),
        (unfold issue in life),
        issue-IsFile identity service end h size fits,
      )

  pub delegate-Written :
      (d d' : Disk) (now : ℕ) (identity_path : PathName) (service_key : Text) (days : ℕ)
      (never : Bool) (out : PathName) (service : PubKey)
      → IsEd25519 ed
      → now < 2 ^ 63
      → read_pubkey ed enc d service_key ≡ ok service
      → IsArray 32 service
      → delegate ed enc d now identity_path service_key days never out ≡ ok d'
      → Written d' now never out service
  unfolding delegate
  delegate-Written d d' now identity_path service_key days never out service h small key size e =
      let (identity, e1, r1) = >>=-eq-ok (load_key ed enc d identity_path) _ e in
      let (k, e2, r2) = >>=-eq-ok (read_pubkey ed enc d service_key) _ r1 in
      let same : k ≡ service = ok-injective k service (sym e2 ∙ key) in
      issue_to-Written d d' now identity service days never out h small size
        (subst (λ x. issue_to ed enc d now identity x days never out ≡ ok d') same r2)

  -- A delegation that `delegate` has issued to a key works for that key: `load_delegation` reads it back from its file
  -- as one for the key, and a publisher is made with the seed of the key. Keys are 32 bytes, and the clock is below
  -- 2^63.
  pub load_delegation-delegate :
      (d d' : Disk) (now : ℕ) (identity_path : PathName) (service_key : Text) (days : ℕ)
      (never : Bool) (out : PathName) (seed : Bytes) (later : ℕ) (endpoints : List Endpoint)
      (ttl : ℕ)
      → IsEd25519 ed
      → now < 2 ^ 63
      → read_pubkey ed enc d service_key ≡ ok (ed.public_key seed)
      → delegate ed enc d now identity_path service_key days never out ≡ ok d'
      → (f : DelegationFile) × (p : Publisher.Publisher) × (load_delegation ed enc d' out ≡ ok f)
        × (f.service_key ≡ ed.public_key seed)
        × (Publisher.new ed later seed f.delegation endpoints ttl ≡ ok p)
  load_delegation-delegate d d' now identity_path service_key days never out seed later endpoints
        ttl h small key e =
      let (f, loaded, same, covered, other, life, sized) =
        delegate-Written d d' now identity_path service_key days never out (ed.public_key seed) h
          small key (h.public_key_size seed) e in
      let (p, made) = new-covered later seed f.delegation endpoints ttl covered in
      (f, p, loaded, same, made)

  -- How long a delegation lasts that `delegate` has issued: with the flag for it, it never expires, and otherwise it
  -- ends after now and at most `max_delegation_lifetime` seconds from now, however many days were asked for. The
  -- service key is 32 bytes, and the clock is below 2^63.
  delegate-IsLifetime :
      (d d' : Disk) (now : ℕ) (identity_path : PathName) (service_key : Text) (days : ℕ)
      (never : Bool) (out : PathName) (service : PubKey)
      → IsEd25519 ed
      → now < 2 ^ 63
      → read_pubkey ed enc d service_key ≡ ok service
      → IsArray 32 service
      → delegate ed enc d now identity_path service_key days never out ≡ ok d'
      → (f : DelegationFile) × (load_delegation ed enc d' out ≡ ok f)
        × IsLifetime now never f.delegation.not_after
  delegate-IsLifetime d d' now identity_path service_key days never out service h small key size e =
      let (f, loaded, same, covered, other, life, sized) =
        delegate-Written d d' now identity_path service_key days never out service h small key size
          e in
      (f, loaded, life)
