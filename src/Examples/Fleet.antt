-- ===== src/Examples/Fleet.antt =====
-- A concrete run of a fleet: a delivery, a claim by a worker, and a turn of the lifecycle it starts.
use go_stripenav.Base.{◌≤◌, ◌≡◌, refl, none, some, [], ◌∷◌, ◌++◌, map, arith, All, str, str_eq}
use go_stripenav.Submission.{Submission, pending, ok, is_terminal}
use go_stripenav.Store.{put, claim, claim_batch, chosen, candidates, is_claimable, write_claims}
use go_stripenav.Store.Table.{lookup, insert}
use go_stripenav.Store.Sort.{insert_by_created, sort_by_created}
use go_stripenav.Worker.Renewal.{claim_and_process}
use go_stripenav.Fleet.{
  System, launch, logged, turned, delivers, passes, claims, turns, Reach, at_start, after,
}
use go_stripenav.Worker.Document.{xml_looks_like}
use go_stripenav.Worker.Actions.{
  check_deadline, overdue, act, act_on, parent_ready, attempt_submit, derive_for_retry,
  submit_request, after_submit, update_status,
}
use go_stripenav.Fleet.Rows.{Live, Apart}
use go_stripenav.Fleet.Lists.{Pairwise}
use go_stripenav.Fleet.Ledger.{filed}
use go_stripenav.Fleet.Filing.{filed_once, reach-Leased}
use go_stripenav.Examples.Data.{first, worker, whole, tag_only, calm_round}

abbrev idle : System
idle = record { clock = 0; store = record { rows = [] }; running = []; log = [] }

abbrev arrived : System
arrived = record idle { store = (put none first idle.store).0 }

abbrev later : System
later = record arrived { clock = 100 }

abbrev claimed : Submission
claimed = claim worker.claimer_id 400 100 first

abbrev busy : System
busy = record later {
  store = record { rows = (str "evt_1", claimed) ∷ [] };
  running = map (launch worker 100) (claimed ∷ []) ++ [];
}

abbrev reported : System
reported =
    let done =
      turned whole tag_only none (launch worker 100 claimed) claimed calm_round busy.store in
    record busy {
      store = done.state;
      running = [] ++ done.lifecycle ∷ [];
      log = busy.log ++ logged (str "evt_1") done.sent;
    }

claimed_first : claim_and_process worker none 100 later.store ≡ (busy.store, ok (claimed ∷ []))
unfolding claim_and_process claim_batch put lookup insert str_eq chosen candidates is_claimable
    is_terminal sort_by_created insert_by_created write_claims
claimed_first = refl

reaches : Reach whole tag_only none idle reported
reaches =
    after
      (after (after (after at_start (delivers first refl)) (passes 100 (omega arith) refl))
        (claims worker busy.store (claimed ∷ []) claimed_first refl))
      (turns [] (launch worker 100 claimed) [] claimed calm_round refl refl (omega arith)
        (λ _. refl) refl)

filed_once_example :
    (filed (str "evt_1") reported.log ≤ 1)
    × ((r : Submission)
        → lookup (str "evt_1") reported.store.rows ≡ some r
        → r.status ≡ pending
        → filed (str "evt_1") reported.log ≡ 0)
filed_once_example = filed_once whole tag_only none idle reported tt refl refl reaches (str "evt_1")

reach-Leased_example :
    All (Live reported.clock reported.store) reported.running
    × Pairwise (Apart reported.clock) reported.running
reach-Leased_example = reach-Leased whole tag_only none idle reported tt refl refl reaches

reported_once : filed (str "evt_1") reported.log ≡ 1
unfolding filed turned check_deadline overdue act act_on parent_ready attempt_submit
    derive_for_retry submit_request xml_looks_like after_submit update_status str_eq
reported_once = refl
