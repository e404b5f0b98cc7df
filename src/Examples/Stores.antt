-- ===== src/Examples/Stores.antt =====
-- Stores that hold the example records, and the laws of the store at them.
use mathlib.Core.Bool.{false≢true}
use sqns.Base.{◌≡◌, ◌≢◌, refl, ap, some, none, [], ◌∷◌}
use sqns.Bytes.{Bytes, ascii, bytes_eq}
use sqns.Errors.{Error, ok, err}
use sqns.Record.{PubKey, identity}
use sqns.Map.{get}
use sqns.Store.{Store, stored, stale, put, put_locked, put_unlocked, keep, new_store, purge_expired}
use sqns.Store.Invariant.{IsConsistent, new_store-IsConsistent}
use sqns.Store.History.{put_ok, purge, Reach, here, next, Reach-IsConsistent, Reach-retired}
use sqns.Store.Overlap.{Moves, still, move, begin, finish, IsSettling, IsUnder}
use sqns.Store.Overlap.Kept.{Moves-invariant}
use sqns.Store.Merge.{after, put_both, put_both_comm, put_both_retirements}
use sqns.Store.Replay.{put-after_purge}
use sqns.Store.Race.{put_race}
use sqns.Examples.Data.{
  program, toy, service_key, first, second, stolen, killed, rotated, one, dead,
}

-- A newer record, an older one, one of another identity, and one for a dead key.
outcomes :
    (put toy one 1010 second ≡ ok (stored, after one (put toy one 1010 second)))
    × (put toy (after one (put toy one 1010 second)) 1010 first
        ≡ ok (stale, after one (put toy one 1010 second)))
    × (put toy one 1010 stolen ≡ err Error.delegation)
    × (put toy dead 1020 second ≡ err (Error.revoked service_key none (ascii "stolen")))
unfolding program
outcomes = (refl, refl, refl, refl)

Reach-one : Reach toy new_store one
unfolding program
Reach-one = next here (put_ok new_store 1000 first stored one refl)

Reach-dead : Reach toy one dead
unfolding program
Reach-dead = next here (put_ok one 1020 killed stored dead refl)

pub one-IsConsistent : IsConsistent toy one
one-IsConsistent = Reach-IsConsistent toy new_store one (new_store-IsConsistent toy) Reach-one

pub dead-IsConsistent : IsConsistent toy dead
dead-IsConsistent = Reach-IsConsistent toy one dead one-IsConsistent Reach-dead

abbrev during : Store
during = keep (keep new_store first) stolen

abbrev raced : Store
raced = put_unlocked (put_unlocked during first) stolen

-- The second call stores before the first one has bound the key.
Moves-raced : Moves toy new_store raced []
unfolding program put_locked
Moves-raced =
    move
      (move
        (move (move still (begin new_store 1010 first (keep new_store first) [] refl))
          (begin (keep new_store first) 1010 stolen during (first ∷ []) refl))
        (finish during first (stolen ∷ []) []))
      (finish (put_unlocked during first) stolen [] [])

Moves-invariant_example :
    IsSettling toy raced []
    × ((k i : PubKey) → get new_store.bindings k ≡ some i → IsUnder raced k i)
Moves-invariant_example =
    Moves-invariant toy new_store raced [] (new_store-IsConsistent toy) Moves-raced

-- After the sweep of a million seconds later.
Reach-retired_example : get (purge_expired dead 1000000).0.records service_key ≡ some killed
unfolding program
Reach-retired_example =
    Reach-retired toy dead (purge_expired dead 1000000).0 service_key killed dead-IsConsistent refl
      refl (next here (purge dead 1000000))

put_both_comm_example :
    get (put_both toy new_store 1010 second first).records service_key
    ≡ get (put_both toy new_store 1010 first second).records service_key
unfolding program
put_both_comm_example =
    put_both_comm toy new_store 1010 second first service_key refl refl refl refl refl refl refl
      refl refl

killed-ne-rotated : killed ≢ rotated
unfolding program
killed-ne-rotated e = cc

put_both_retirements_example :
    get (put_both toy one 1020 killed rotated).records service_key
    ≢ get (put_both toy one 1020 rotated killed).records service_key
unfolding program
put_both_retirements_example =
    put_both_retirements toy one 1020 killed rotated refl refl refl refl refl refl refl refl
      killed-ne-rotated

two-Reach : Reach toy one (after one (put toy one 1010 second))
unfolding program
two-Reach = next here (put_ok one 1010 second stored (after one (put toy one 1010 second)) refl)

-- `second` lives for thirty seconds, `first` for three hundred.
put-after_purge_example :
    let two = after one (put toy one 1010 second) in
    (put toy two 1100 first ≡ ok (stale, two))
    × (get
          (after (purge_expired two 1100).0 (put toy (purge_expired two 1100).0 1100 first)).records
          service_key
        ≡ some first)
unfolding program
put-after_purge_example =
    put-after_purge toy (after one (put toy one 1010 second)) 1100 first second
      (Reach-IsConsistent toy one (after one (put toy one 1010 second)) one-IsConsistent two-Reach)
      refl refl refl refl refl

stolen-ne-first : identity stolen.rec ≢ identity first.rec
unfolding program
stolen-ne-first e = false≢true (ap (λ (i : Bytes). bytes_eq i (identity first.rec)) e)

put_race_example :
    (t u : Store) × (put_locked toy new_store 1010 first ≡ ok (stored, t))
    × (put_locked toy t 1010 stolen ≡ ok (stored, u))
    × (get (put_unlocked (put_unlocked u first) stolen).records service_key ≡ some stolen)
    × (get (put_unlocked (put_unlocked u first) stolen).bindings service_key
        ≡ some (identity first.rec))
    × (¬ (IsConsistent toy (put_unlocked (put_unlocked u first) stolen)))
unfolding program
put_race_example =
    put_race toy new_store 1010 first stolen refl refl refl stolen-ne-first refl refl refl refl
