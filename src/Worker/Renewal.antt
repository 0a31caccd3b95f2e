-- ===== src/Worker/Renewal.antt =====
-- worker.go: claimAndProcess and renewLease, on the in-process store.
use go_stripenav.Base.{
  ◌+◌, ◌≤◌, ◌≡◌, refl, Bool, true, false, not, none, some, List, [], ◌∷◌, arith, if◌then◌else◌,
  Bytes, str_eq, str_eq_iff,
}
use go_stripenav.Submission.{Submission, Time, Error, canceled, Result}
use go_stripenav.Store.{Store, Context, claim_batch, renew_claim}
use go_stripenav.Store.Table.{lookup-insert_self}
use go_stripenav.Store.Lease.{Held}
use go_stripenav.Worker.{Worker}

-- claimAndProcess: the store, and the rows for which a lifecycle is started, or the error.
unfoldable pub claim_and_process :
    Worker → Context → Time → Store → Store × Result (List Submission)
claim_and_process w ctx now s = claim_batch ctx now w.claimer_id w.batch_limit w.lease_duration s

-- A turn of renewLease's loop: whether the context is done, else when the ticker fires, with what
-- context, and what others have done to the store by then.
pub record Tick : Type 0 where
  pub is_done : Bool
  pub renew_ctx : Context
  pub fires_at : Time
  pub others : Store → Store

-- How renewLease ends: with the store, and whether it called `onLost`.
pub record Renewed : Type 0 where
  pub state : Store
  pub lost : Bool

abbrev pub is_canceled : Error → Bool
is_canceled canceled = true
is_canceled _ = false

-- The loop, as far as the list of ticks goes.
unfoldable pub renew_lease : Worker → Bytes → List Tick → Store → Renewed
renew_lease w id [] s = record { state = s; lost = false }
renew_lease w id (t ∷ ts) s =
    let r = renew_claim t.renew_ctx t.fires_at id w.claimer_id w.lease_duration (t.others s) in
    let rest = renew_lease w id ts r.0 in
    if t.is_done
    then record { state = t.others s; lost = false }
    else elim r.1 [ none ↦ rest | some e ↦ record { state = r.0; lost = not (is_canceled e) } ]

-- Ticks that come before the lease runs out, whose renewals meet no failure of the context, and
-- peers that leave the claim alone while its lease runs.
abbrev pub OnTime : Worker → Bytes → Time → List Tick → Type 0
OnTime w id until [] = Unit {0}
OnTime w id until (t ∷ ts) =
    (t.is_done ≡ false)
    × (t.renew_ctx ≡ none)
    × (t.fires_at ≤ until)
    × ((s : Store) → Held id w.claimer_id until s → Held id w.claimer_id until (t.others s))
    × OnTime w id (t.fires_at + w.lease_duration) ts

-- When the lease runs out after the ticks.
abbrev pub lease_end : Worker → Time → List Tick → Time
lease_end w until [] = until
lease_end w until (t ∷ ts) = lease_end w (t.fires_at + w.lease_duration) ts

renewed-Held :
    (w : Worker) (id : Bytes) (ctx : Context) (until now : Time) (s : Store)
    → str_eq w.claimer_id [] ≡ false
    → ctx ≡ none
    → Held id w.claimer_id until s
    → ((renew_claim ctx now id w.claimer_id w.lease_duration s).1 ≡ none)
      × Held id w.claimer_id
          (now + w.lease_duration)
          (renew_claim ctx now id w.claimer_id w.lease_duration s).0
unfolding renew_claim
renewed-Held w id ctx until now s named live (r, at, mine, _) =
    let same : str_eq r.claimed_by w.claimer_id ≡ true =
      ground (arith, str_eq_iff r.claimed_by w.claimer_id, mine) in
    let r' : Submission = record r { claimed_until = now + w.lease_duration; updated_at = now } in
    (
      ground (arith, named, live, at, same),
      (
        r',
        ground (arith, named, live, at, same, lookup-insert_self id r' s.rows),
        mine,
        omega arith,
      ),
    )

-- A named worker that holds a row keeps holding it. After any turns of renewLease in which the
-- context is not done, each at a tick that comes before the lease then granted runs out, with
-- renewals under a live context and peers that leave the claim alone, the worker holds the row
-- until a lease after the last tick, and the lifecycle was not told that the claim is lost.
pub renew_lease-Held :
    (w : Worker) (id : Bytes) (until : Time) (ts : List Tick) (s : Store)
    → str_eq w.claimer_id [] ≡ false
    → Held id w.claimer_id until s
    → OnTime w id until ts
    → Held id w.claimer_id (lease_end w until ts) (renew_lease w id ts s).state
      × ((renew_lease w id ts s).lost ≡ false)
unfolding renew_lease
renew_lease-Held w id until [] s named held timely = (held, refl)
renew_lease-Held w id until (t ∷ ts) s named held (going, live, soon, peers, timely) =
    let (fine, held') =
      renewed-Held w id t.renew_ctx until t.fires_at (t.others s) named live (peers s held) in
    rw (renew_lease, going, fine)
      (renew_lease-Held w id (t.fires_at + w.lease_duration) ts _ named held' timely)
