-- ===== src/Examples/Queue.antt =====
-- Concrete runs of the theorems about the store and the state machine.
use go_stripenav.Base.{
  ◌+◌, ◌≤◌, ◌≡◌, refl, sym, ◌≢◌, ◌↔◌, ◌⊎◌, true, none, some, List, [], ◌∷◌, arith, if◌then◌else◌,
  length, In, here, Bytes, str, str_eq,
}
use go_stripenav.Submission.{
  Submission, Time, ok, err, not_found, already_exists, pending, submitted, transition, is_terminal,
}
use go_stripenav.Submission.Machine.{Move, transition-Move}
use go_stripenav.Store.{
  Store, claim_batch, candidates, chosen, write_claims, is_claimable, claim, release_claim,
  find_by_invoice_number, with_invoice_number, get, put,
}
use go_stripenav.Store.Table.{Keyed, lookup, insert}
use go_stripenav.Store.Sort.{IsSorted, sort_by_created, insert_by_created}
use go_stripenav.Store.Batch.{claim_batch_sound}
use go_stripenav.Store.Fairness.{claim_batch_oldest}
use go_stripenav.Store.Lease.{Held}
use go_stripenav.Store.Calls.{exec, exec_all, Call, puts, releases}
use go_stripenav.Store.Exclusive.{History, claims_disjoint}
use go_stripenav.Store.Access.{get-put}
use go_stripenav.Examples.Data.{differ_ne, first, second, closed, three_rows}

three_rows-Keyed : Keyed three_rows.rows
unfolding lookup str_eq
three_rows-Keyed = (refl, refl, (refl, refl, (refl, refl, tt)))

abbrev claimed : Submission → Submission
claimed = claim (str "w1") 150 100

abbrev after_claim : Store
after_claim = (claim_batch none 100 (str "w1") 1 50 three_rows).0

-- One row is asked for: the older of the two that are due, and not the finished one.
claim_one : claim_batch none 100 (str "w1") 1 50 three_rows ≡ (after_claim, ok (claimed first ∷ []))
unfolding claim_batch chosen candidates is_claimable is_terminal sort_by_created insert_by_created
    str_eq
claim_one = refl

-- What others do under the lease, and a second batch.
abbrev calls : List (Time × Call)
calls = (120, puts second) ∷ (130, releases (str "evt_1") (str "w2")) ∷ []

abbrev after_second : Store
after_second = (claim_batch none 140 (str "w2") 10 50 (exec_all calls after_claim)).0

claim_rest :
    claim_batch none 140 (str "w2") 10 50 (exec_all calls after_claim)
    ≡ (after_second, ok (claim (str "w2") 190 140 second ∷ []))
unfolding claim_batch chosen candidates is_claimable is_terminal sort_by_created insert_by_created
    str_eq exec_all exec put release_claim lookup insert write_claims
claim_rest = refl

calls-History : History (str "evt_1") (str "w1") 150 calls
calls-History = (omega arith, tt, tt, (omega arith, tt, (λ e f. absurd (other_worker (sym f))), tt))
  where
    other_worker : ¬ (str "w1" ≡ str "w2")
    other_worker = differ_ne (str "w1") (str "w2") (unfold str_eq in refl)

claims_disjoint_example : (claim (str "w2") 190 140 second).event_id ≢ (claimed first).event_id
claims_disjoint_example =
    claims_disjoint 100 (str "w1") 1 50 three_rows three_rows-Keyed claim_one (claimed first) here
      calls calls-History 140 (str "w2") 10 50 (omega arith) claim_rest
      (claim (str "w2") 190 140 second) here

claim_batch_sound_example :
    (r : Submission) × (lookup (str "evt_1") three_rows.rows ≡ some r)
    × (is_claimable 100 r ≡ true)
    × (claimed first ≡ claim (str "w1") (100 + 50) 100 r)
    × (lookup (str "evt_1") after_claim.rows ≡ some (claimed first))
claim_batch_sound_example =
    claim_batch_sound 100 (str "w1") 1 50 three_rows three_rows-Keyed claim_one (claimed first) here

claim_batch_oldest_example :
    IsSorted (claimed first ∷ [])
    × (length (claimed first ∷ []) ≤ 1)
    × ((id : Bytes) (r : Submission)
        → lookup id three_rows.rows ≡ some r
        → is_claimable 100 r ≡ true
        → In (claim (str "w1") (100 + 50) 100 r) (claimed first ∷ [])
          ⊎ ((length (claimed first ∷ []) ≡ 1)
              × ((v : Submission) → In v (claimed first ∷ []) → v.created_at ≤ r.created_at)))
claim_batch_oldest_example = claim_batch_oldest 100 (str "w1") 1 50 three_rows claim_one

-- The row held by the first worker is refused to itself.
after_claim-Held : Held (str "evt_1") (str "w1") 150 after_claim
unfolding claim_batch chosen candidates is_claimable is_terminal sort_by_created insert_by_created
    str_eq lookup insert write_claims
after_claim-Held = (claimed first, refl, refl, omega arith)

after_claim-Keyed : Keyed after_claim.rows
unfolding claim_batch chosen candidates is_claimable is_terminal sort_by_created insert_by_created
    str_eq lookup insert write_claims
after_claim-Keyed = (refl, refl, (refl, refl, (refl, refl, tt)))

abbrev after_own : Store
after_own = (claim_batch none 149 (str "w1") 10 50 after_claim).0

claim_own :
    claim_batch none 149 (str "w1") 10 50 after_claim
    ≡ (after_own, ok (claim (str "w1") 199 149 second ∷ []))
unfolding claim_batch chosen candidates is_claimable is_terminal sort_by_created insert_by_created
    str_eq lookup insert write_claims
claim_own = refl

get-put_example :
    ((get none (str "evt_1") three_rows ≡ err not_found)
      × ((put none first three_rows).1 ≡ none)
      × ((id : Bytes)
          → get none id (put none first three_rows).0
            ≡ (if str_eq (str "evt_1") id then ok first else get none id three_rows)))
    ⊎ ((old : Submission) × (get none (str "evt_1") three_rows ≡ ok old)
        × (put none first three_rows ≡ (three_rows, some already_exists)))
get-put_example = get-put first three_rows

all_three : find_by_invoice_number none (str "A-1") three_rows ≡ ok (closed ∷ first ∷ second ∷ [])
unfolding find_by_invoice_number with_invoice_number sort_by_created insert_by_created str_eq
all_three = refl

transition-Move_example :
    (Move pending submitted
      ↔ (transition submitted first ≡ ok (record first { status = submitted })))
    × ((t : Submission)
        → transition submitted first ≡ ok t
        → t ≡ record first { status = submitted })
transition-Move_example = transition-Move submitted first
