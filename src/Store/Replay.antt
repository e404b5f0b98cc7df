-- ===== src/Store/Replay.antt =====
-- Replays: a record that is put again, and an older one that comes back after a sweep.
use sqns.Base.{ℕ, ◌≡◌, refl, sym, ap, ◌∙◌, true, false, none, some, arith}
use sqns.Bytes.{bytes_eq_refl}
use sqns.Errors.{ok}
use sqns.Crypto.{Ed25519}
use sqns.Record.{SignedRecord, identity, is_expired, supersedes}
use sqns.Map.{get}
use sqns.Store.{
  Store, PutOutcome, stored, stale, admit, put, check_retired, check_bound, outranked,
  purge_expired,
}
use sqns.Store.Invariant.{
  IsConsistent, get-records-replace, get-records-purge, put-eq-stored, put-eq-stale,
}
use sqns.Store.Merge.{after, Open, get-after-put, check_retired_of_live}

module _ (ed : Ed25519) where
  put-outranked :
      (t : Store) (now : ℕ) (r : SignedRecord)
      → outranked r (get t.records r.rec.key) ≡ true
      → after t (put ed t now r) ≡ t
  unfolding put
  put-outranked t now r h = ground arith

  stale_outranked :
      (s t : Store) (now : ℕ) (r : SignedRecord)
      → put ed s now r ≡ ok (stale, t)
      → outranked r (get s.records r.rec.key) ≡ true
  unfolding put
  stale_outranked s t now r e = ground arith

  pub outranked_self : (r : SignedRecord) → outranked r (some r) ≡ true
  unfolding outranked supersedes
  outranked_self r = ground arith

  -- Putting again a record that was stored, or was found stale, changes nothing, at any later call.
  pub put_again :
      (s t : Store) (now later : ℕ) (r : SignedRecord) (out : PutOutcome)
      → put ed s now r ≡ ok (out, t)
      → after t (put ed t later r) ≡ t
  put_again s t now later r stale e =
      let same = put-eq-stale ed s now r t e in
      put-outranked t later r (
        ap (λ (u : Store). outranked r (get u.records r.rec.key)) same
        ∙ stale_outranked s t now r e)
  put_again s t now later r stored e =
      let st = put-eq-stored ed s now r t e in
      put-outranked t later r (
        ap (λ (u : Store). outranked r (get u.records r.rec.key)) st.result
        ∙ ap (outranked r) (get-records-replace s r r.rec.key ∙ rw (bytes_eq_refl r.rec.key) refl)
        ∙ outranked_self r)

  bound_Open :
      (s : Store) (r : SignedRecord) → get s.bindings r.rec.key ≡ some (identity r.rec) → Open s r
  unfolding check_bound
  bound_Open s r b = rw (b, check_bound, bytes_eq_refl (identity r.rec)) refl

  held_stale :
      (s : Store) (now : ℕ) (r x : SignedRecord)
      → get s.records r.rec.key ≡ some x
      → is_expired x.rec now ≡ true
      → supersedes r.rec x.rec ≡ false
      → admit ed now r ≡ ok tt
      → Open s r
      → put ed s now r ≡ ok (stale, s)
  unfolding put is_expired
  held_stale s now r x held old lower a o = ground (arith, held, check_retired_of_live ed x)

  -- Sweeping an expired record forgets its version: a record that was stale against it, and passes the
  -- checks by itself, is then stored in its place.
  pub put-after_purge :
      (s : Store) (now : ℕ) (r x : SignedRecord)
      → IsConsistent ed s
      → get s.records r.rec.key ≡ some x
      → is_expired x.rec now ≡ true
      → supersedes r.rec x.rec ≡ false
      → admit ed now r ≡ ok tt
      → identity r.rec ≡ identity x.rec
      → (put ed s now r ≡ ok (stale, s))
        × (get
              (after (purge_expired s now).0 (put ed (purge_expired s now).0 now r)).records
              r.rec.key
            ≡ some r)
  put-after_purge s now r x h held old lower a id =
      let bound : get s.bindings r.rec.key ≡ some (identity r.rec) =
        (h.held r.rec.key x held).bound ∙ ap some (sym id) in
      let open_s : Open s r = bound_Open s r bound in
      let t = (purge_expired s now).0 in
      let gone : get t.records r.rec.key ≡ none =
        ground (arith, get-records-purge ed s now r.rec.key h.one_record) in
      let open_t : Open t r = unfold purge_expired in open_s in
      (
        held_stale s now r x held old lower a open_s,
        get-after-put ed t now r r.rec.key a (rw gone (unfold check_retired in refl)) open_t
            ∙ rw (bytes_eq_refl r.rec.key, gone) refl,
      )
