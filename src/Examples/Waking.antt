-- ===== src/Examples/Waking.antt =====
-- Concrete runs of the theorems about Run's waiting.
use go_stripenav.Base.{◌≡◌, refl, true, false, str_eq, none, some, List, [], ◌∷◌}
use go_stripenav.Worker.Waking.{
  running, fired, draining, claiming, Waiting, Action, ring, expire, take_wakeup, go_on, begin,
  wakeup, perform, perform_all,
}
use go_stripenav.Worker.Waking.Claims.{Claims, is_timely, is_prompt, run-Claims}
use go_stripenav.Worker.Waking.Returns.{Returns}
use go_stripenav.Worker.Waking.Kept.{IsKept, wakeup-IsKept}
use go_stripenav.Submission.{canceled}
use go_stripenav.Store.{new, claim_batch}
use go_stripenav.Worker.Renewal.{claim_and_process}
use go_stripenav.Worker.Run.{tick}
use go_stripenav.Examples.Data.{worker, three_rows}

-- A wakeup while Run waits, and the end of the timer before Run stops it.
abbrev race : List Action
race = ring ∷ take_wakeup ∷ expire ∷ go_on ∷ []

abbrev raced : Waiting
raced = record { place = draining; timer = fired; pending = false; claims = 0 }

race-raced : perform_all false race begin ≡ some raced
unfolding perform_all perform wakeup
race-raced = refl

run-Claims_example :
    Claims false is_timely raced × Claims false is_prompt (wakeup raced) × Returns false raced
run-Claims_example = run-Claims false race raced race-raced (λ e. cc)

-- A second wakeup in the middle of the first's claim.
abbrev busy : Waiting
busy = record { place = claiming; timer = running; pending = false; claims = 3 }

abbrev served : Waiting
served = record { place = claiming; timer = running; pending = false; claims = 4 }

busy-served :
    perform_all true (go_on ∷ take_wakeup ∷ go_on ∷ go_on ∷ []) (wakeup busy) ≡ some served
unfolding perform_all perform wakeup
busy-served = refl

wakeup-IsKept_example : IsKept 3 served
wakeup-IsKept_example =
    wakeup-IsKept true busy (go_on ∷ take_wakeup ∷ go_on ∷ go_on ∷ []) served busy-served

-- A Tick whose lifecycles leave the store, and one whose ClaimBatch fails.
ticked : (tick worker none 100 (λ out s. new) three_rows) ≡ (new, none)
unfolding tick claim_and_process claim_batch str_eq
ticked = refl

unclaimed :
    (tick worker (some canceled) 100 (λ out s. new) three_rows) ≡ (three_rows, some canceled)
unfolding tick claim_and_process claim_batch str_eq
unclaimed = refl
