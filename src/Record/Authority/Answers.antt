-- ===== src/Record/Authority/Answers.antt =====
-- What signing and verifying establish.
use sqns.Base.{
  ℕ, ◌≤◌, ◌<◌, ◌≡◌, ◌≢◌, ◌⊎◌, ◌↔◌, ◌==◌, ◌&&◌, not, refl, sym, ap, ◌∙◌, subst, inl, inr, true,
  false, arith, Bool-cases,
}
use sqns.Bytes.{Bytes, bytes_eq, bytes_eq_sound, bytes_eq_refl}
use sqns.Errors.{ok}
use sqns.Crypto.{Ed25519, IsEd25519}
use sqns.Record.{
  PubKey, Record, SignedRecord, identity, expected_signer, is_terminal, is_expired,
  delegation_expired, expires_at, never_expires_at,
}
use sqns.Record.Wire.{encode_record}
use sqns.Record.Authority.{
  delegation_message, signed_message, issue, validate, sign, verify, verify_answer,
}

module _ (ed : Ed25519) where
  -- A record that its authority signs, under a delegation that the identity issued for its key,
  -- verifies.
  pub verify-sign :
      (r : Record) (seed identity_seed : Bytes) (s : SignedRecord)
      → IsEd25519 ed
      → r.delegation ≡ issue ed identity_seed r.key r.delegation.not_after
      → sign ed r seed ≡ ok s
      → verify ed s ≡ ok tt
  unfolding sign verify issue
  verify-sign r seed identity_seed s law granted signed = ground (
    arith,
    bytes_eq_sound (ed.public_key seed) (expected_signer r),
    law.public_key_valid seed,
    law.public_key_valid identity_seed,
    law.sign_verifies seed (signed_message (encode_record r)),
    law.sign_verifies identity_seed
        (delegation_message (ed.public_key identity_seed) r.key r.delegation.not_after),
  )

  pub verify_answer_sound :
      (s : SignedRecord) (asked : PubKey) (now : ℕ)
      → verify_answer ed s asked now ≡ ok tt
      → (s.rec.key ≡ asked)
        × (identity s.rec ≢ s.rec.key)
        × (ed.verifies
              (identity s.rec)
              (delegation_message (identity s.rec) s.rec.key s.rec.delegation.not_after)
              s.rec.delegation.signature
            ≡ true)
        × (ed.verifies (expected_signer s.rec) (signed_message (encode_record s.rec)) s.signature
            ≡ true)
        × (is_expired s.rec now ≡ false)
  unfolding verify_answer verify validate
  verify_answer_sound s asked now e =
      ground (arith, bytes_eq_sound s.rec.key asked, bytes_eq_refl s.rec.key)

  -- A record speaks for its key at a time: for good if it retires the key, and otherwise as long as neither it nor its
  -- delegation has run out.
  abbrev pub IsCurrent : Record → ℕ → Type 0
  IsCurrent r now =
      (is_terminal r ≡ true)
      ⊎ ((now < expires_at r)
          × ((r.delegation.not_after ≡ never_expires_at) ⊎ (now < r.delegation.not_after)))

  not_expired-IsCurrent :
      (r : Record) (now : ℕ)
      → (delegation_expired r.delegation now && not (is_terminal r)) ≡ false
      → is_expired r now ≡ false
      → IsCurrent r now
  unfolding delegation_expired is_expired
  not_expired-IsCurrent r now d e = elim (Bool-cases (is_terminal r)) [
    | inl terminal ↦ inl terminal
    | inr alive ↦ inr (
      ground arith,
      elim (Bool-cases (r.delegation.not_after == never_expires_at)) [
        | inl never ↦ inl (ground arith)
        | inr some_day ↦ inr (ground arith)
      ],
    )
  ]

  IsCurrent-not_expired :
      (r : Record) (now : ℕ)
      → IsCurrent r now
      → ((delegation_expired r.delegation now && not (is_terminal r)) ≡ false)
        × (is_expired r now ≡ false)
  unfolding delegation_expired is_expired
  IsCurrent-not_expired r now (inl terminal) = (ground arith, ground arith)
  IsCurrent-not_expired r now (inr (fresh, inl never)) = (ground arith, ground arith)
  IsCurrent-not_expired r now (inr (fresh, inr later)) = (ground arith, ground arith)

  -- Of a valid record that its authority signed, under a delegation that the identity issued for its key, and with any
  -- signature scheme that behaves as documented: a client that asked for a key accepts it as the answer exactly if it
  -- is a record of that key and, unless it retires the key, neither the record nor the delegation has run out.
  pub sign-verify_answer :
      (r : Record) (seed identity_seed : Bytes) (s : SignedRecord) (asked : PubKey) (now : ℕ)
      → IsEd25519 ed
      → r.delegation ≡ issue ed identity_seed r.key r.delegation.not_after
      → validate ed r ≡ ok tt
      → sign ed r seed ≡ ok s
      → (verify_answer ed s asked now ≡ ok tt) ↔ ((r.key ≡ asked) × IsCurrent r now)
  unfolding verify_answer
  sign-verify_answer r seed identity_seed s asked now law granted valid signed =
      let same : s.rec ≡ r = (unfold sign in ground arith) in
      let good = verify-sign r seed identity_seed s law granted signed in
      (
        λ e.
            let key : s.rec.key ≡ asked = ground (arith, bytes_eq_sound s.rec.key asked) in
            let current : IsCurrent s.rec now =
              not_expired-IsCurrent s.rec now (ground arith) (ground arith) in
            (
              sym (ap (λ (x : Record). x.key) same) ∙ key,
              subst (λ (x : Record). IsCurrent x now) same current,
            ),
        λ (key, current).
            let mine : s.rec.key ≡ asked = ap (λ (x : Record). x.key) same ∙ key in
            let (d, e) =
              IsCurrent-not_expired s.rec now
                (subst (λ (x : Record). IsCurrent x now) (sym same) current) in
            let asked_for : bytes_eq s.rec.key asked ≡ true =
              ap (bytes_eq s.rec.key) (sym mine) ∙ bytes_eq_refl s.rec.key in
            let checked : validate ed s.rec ≡ ok tt = ap (validate ed) same ∙ valid in
            rw (asked_for, good, checked, d, e) refl,
      )

  -- An answer that is accepted is accepted at every earlier time, and at every time at all if it
  -- retires its key.
  pub verify_answer_window :
      (s : SignedRecord) (asked : PubKey) (now t : ℕ)
      → verify_answer ed s asked now ≡ ok tt
      → (t ≤ now) ⊎ (is_terminal s.rec ≡ true)
      → verify_answer ed s asked t ≡ ok tt
  unfolding verify_answer delegation_expired is_expired
  verify_answer_window s asked now t e h = ground arith
