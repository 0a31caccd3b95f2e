-- ===== src/Fleet/Renewals.antt =====
-- What RenewClaim and ReleaseClaim of internal/storeinmem/store.go leave a lifecycle of a fleet.
use go_stripenav.Base.{◌+◌, ◌≡◌, sym, ap, ◌∙◌, subst, ◌≢◌, Option, none, some, [], arith, Bytes}
use go_stripenav.Submission.{Submission, Time}
use go_stripenav.Store.{Store, renew_claim, release_claim}
use go_stripenav.Store.Table.{lookup, Keyed, insert-Keyed, lookup_id, lookup-insert_self}
use go_stripenav.Store.Calls.{exec, exec-Keyed, releases}
use go_stripenav.Fleet.{Lifecycle}
use go_stripenav.Fleet.Rows.{Reads, Backed, Live, renew_claim-written}

Reads-status :
    (id : Bytes) (o : Option Submission) (r r' : Submission)
    → r'.status ≡ r.status
    → Reads id o r
    → Reads id o r'
Reads-status id none r r' e h = tt
Reads-status id (some sub) r r' e (same, status) = (same, e ∙ status)

pub release_claim-Keyed :
    (now : Time) (id claimer : Bytes) (s : Store)
    → Keyed s.rows
    → Keyed (release_claim none now id claimer s).0.rows
unfolding exec release_claim
release_claim-Keyed now id claimer s k = exec-Keyed now (releases id claimer) s tt k

pub renew_claim-Keyed :
    (now : Time) (id claimer : Bytes) (lease : Time) (s : Store) {s' : Store}
    → Keyed s.rows
    → renew_claim none now id claimer lease s ≡ (s', none)
    → Keyed s'.rows
renew_claim-Keyed now id claimer lease s k h =
    let (r, at, _, e) = renew_claim-written now id claimer lease s h in
    subst (λ (z : Store). Keyed z.rows) (sym e)
      (insert-Keyed id _ s.rows (lookup_id s.rows id k at) k)

pub renewed-Live :
    (now : Time) (l : Lifecycle) (s s' : Store)
    → renew_claim none now l.event_id l.worker.claimer_id l.worker.lease_duration s ≡ (s', none)
    → l.worker.claimer_id ≢ []
    → Backed s l
    → Live now s' (record l { until = now + l.worker.lease_duration })
renewed-Live now l s s' h named (r, at, by, le, reads) = (
  named,
  λ _.
      let (q, at', _, e) =
        renew_claim-written now l.event_id l.worker.claimer_id l.worker.lease_duration s h in
      let again : q ≡ r = ground (arith, at, at') in
      let kept = record q { claimed_until = now + l.worker.lease_duration; updated_at = now } in
      (
        kept,
        ap (λ (z : Store). lookup l.event_id z.rows) e ∙ lookup-insert_self l.event_id kept s.rows,
        ap (λ (u : Submission). u.claimed_by) again ∙ by,
        omega arith,
        Reads-status l.event_id l.next r kept (ap (λ (u : Submission). u.status) again) reads,
      ),
)
