-- ===== src/Worker/Run.antt =====
-- worker.go: the loop of Run, on the in-process store, as a list of turns, and Tick.
use go_stripenav.Base.{
  ◌+◌, ◌≤◌, ◌≡◌, refl, sym, subst, ◌≢◌, ◌⊎◌, inl, inr, Bool, true, false, Option, none, some, List,
  [], ◌∷◌, ◌++◌, map, ◌==◌, length, In, here, there, Bytes, str_eq,
}
use go_stripenav.Submission.{Submission, Time, Error, Result, ok, err}
use go_stripenav.Store.{Store, Context, chosen, write_claims, claim, is_claimable, claim_batch}
use go_stripenav.Store.Table.{lookup, Keyed}
use go_stripenav.Store.Distinct.{IsDistinct, claim_batch-IsDistinct}
use go_stripenav.Store.Batch.{map-In}
use go_stripenav.Store.Fairness.{claim_batch_oldest}
use go_stripenav.Worker.{Worker}
use go_stripenav.Worker.Renewal.{claim_and_process}

-- The case of `select` that is taken.
pub data Signal : Type 0 where
  stop : Signal
  wakeup : Signal
  timer : Signal

-- A turn of the loop: what wakes it, the context and the clock of its ClaimBatch, and what others,
-- the lifecycles that it started among them, have done to the store by then.
pub record Turn : Type 0 where
  pub signal : Signal
  pub claim_ctx : Context
  pub now : Time
  pub others : Store → Store

-- The store, the lifecycles that were started with their times, and whether Run has returned.
pub record Running : Type 0 where
  pub state : Store
  pub started : List (Time × Submission)
  pub returned : Bool

abbrev pub started_at : Time → Submission → Time × Submission
started_at now v = (now, v)

-- A claim that fails is logged, and starts nothing.
abbrev pub launched : Time → Result (List Submission) → List (Time × Submission)
launched now (ok out) = map (started_at now) out
launched now (err e) = []

unfoldable pub run : Worker → List Turn → Store → Running
run w [] s = record { state = s; started = []; returned = false }
run w (t ∷ ts) s =
    let r = claim_and_process w t.claim_ctx t.now (t.others s) in
    let rest = run w ts r.0 in
    let next = record rest { started = launched t.now r.1 ++ rest.started } in
    elim t.signal [
      | stop ↦ record { state = t.others s; started = []; returned = true }
      | wakeup ↦ next
      | timer ↦ next
    ]

-- Tick: `settle` is what the lifecycles that it starts, and others, do to the store until all of
-- those lifecycles have ended.
unfoldable pub tick :
    Worker → Context → Time → (List Submission → Store → Store) → Store → Store × Option Error
unfolding claim_and_process
tick w ctx now settle s =
    let r = claim_and_process w ctx now s in
    elim r.1 [ ok started ↦ (settle started r.0, none) | err e ↦ (r.0, some e) ]

abbrev pub Unstopped : List Turn → Type 0
Unstopped [] = Unit {0}
Unstopped (t ∷ ts) = (t.signal ≢ stop) × Unstopped ts

module _ {A : Type 0} where
  In-right : (xs : List A) {ys : List A} {v : A} → In v ys → In v (xs ++ ys)
  In-right [] i = i
  In-right (x ∷ xs) i = there (In-right xs i)

  In-left : {v : A} {xs : List A} (ys : List A) → In v xs → In v (xs ++ ys)
  In-left ys here = here
  In-left ys (there i) = there (In-left ys i)

Signal-cases : (g : Signal) → g ≢ stop → (g ≡ wakeup) ⊎ (g ≡ timer)
Signal-cases stop h = absurd (h refl)
Signal-cases wakeup h = inl refl
Signal-cases timer h = inr refl

run-next :
    (w : Worker) (t : Turn) (ts : List Turn) (s : Store)
    → t.signal ≢ stop
    → let r = claim_and_process w t.claim_ctx t.now (t.others s) in
      ((run w (t ∷ ts) s).state ≡ (run w ts r.0).state)
      × ((run w (t ∷ ts) s).started ≡ launched t.now r.1 ++ (run w ts r.0).started)
unfolding run
run-next w t ts s h = elim (Signal-cases t.signal h) [
  | inl e ↦ rw e (refl, refl)
  | inr e ↦ rw e (refl, refl)
]

-- What the turns after some start, the whole run starts.
run-later :
    (w : Worker) (ts us : List Turn) (s : Store)
    → Unstopped ts
    → (x : Time × Submission) → In x (run w us (run w ts s).state).started
    → In x (run w (ts ++ us) s).started
unfolding run
run-later w [] us s h x i = i
run-later w (t ∷ ts) us s (h, hs) x i =
    let r = claim_and_process w t.claim_ctx t.now (t.others s) in
    subst (In x) (sym (run-next w t (ts ++ us) s h).1) (
      In-right (launched t.now r.1) (
        run-later w ts us r.0 hs x
          (subst (λ (z : Store). In x (run w us z).started) (run-next w t ts s h).0 i)))

-- The rows that a turn claims, as it starts their lifecycles.
pub data Launches (w : Worker) (t : Turn) (s : Store) (xs : List (Time × Submission)) : Type 0 where
  launches :
      (out : List Submission) (s' : Store)
      → claim_and_process w t.claim_ctx t.now s ≡ (s', ok out)
      → ((v : Submission) → In v out → In (started_at t.now v) xs)
      → Launches w t s xs

claim_live :
    (w : Worker) (ctx : Context) (now : Time) (s : Store)
    → ctx ≡ none
    → (w.batch_limit == 0) ≡ false
    → str_eq w.claimer_id [] ≡ false
    → (s' : Store) × (out : List Submission) × (claim_and_process w ctx now s ≡ (s', ok out))
unfolding claim_and_process claim_batch
claim_live w ctx now s e limited named =
    let cs = chosen now w.batch_limit s.rows in
    (
      record { rows = write_claims w.claimer_id (now + w.lease_duration) now cs s.rows },
      map (claim w.claimer_id (now + w.lease_duration) now) cs,
      rw (e, limited, named) refl,
    )

-- A turn whose context is live starts the lifecycle of each row that it claims.
run-Launches :
    (w : Worker) (ts us : List Turn) (t : Turn) (s : Store)
    → Unstopped ts
    → t.signal ≢ stop
    → t.claim_ctx ≡ none
    → (w.batch_limit == 0) ≡ false
    → str_eq w.claimer_id [] ≡ false
    → Launches w t (t.others (run w ts s).state) (run w (ts ++ t ∷ us) s).started
run-Launches w ts us t s hs h live limited named =
    let s1 = t.others (run w ts s).state in
    let (s', out, e) = claim_live w t.claim_ctx t.now s1 live limited named in
    launches out s' e λ v i. run-later w ts (t ∷ us) s hs (started_at t.now v) (
      subst (In (started_at t.now v)) (sym (run-next w t us (run w ts s).state h).1) (
        In-left _ (
          subst
            (λ (r : Store × Result (List Submission)). In (started_at t.now v) (launched t.now r.1))
            (sym e) (map-In (started_at t.now) out i))))

-- Run starts what is due. After any turns that do not stop it, whether their claims succeed or
-- fail, a turn that does not stop it, of a named worker with a positive limit and under a live
-- context, on a store that keeps every row under its own id, starts the lifecycle of each row that
-- is then claimable, as claimed by the worker for a lease from that time, or else it starts as many
-- lifecycles as the limit allows, of as many different rows, all of them no younger.
pub run_starts_due :
    (w : Worker) (ts us : List Turn) (t : Turn) (s : Store)
    → Unstopped ts
    → t.signal ≢ stop
    → t.claim_ctx ≡ none
    → (w.batch_limit == 0) ≡ false
    → str_eq w.claimer_id [] ≡ false
    → Keyed (t.others (run w ts s).state).rows
    → (id : Bytes) (r : Submission) → lookup id (t.others (run w ts s).state).rows ≡ some r
    → is_claimable t.now r ≡ true
    → let xs = (run w (ts ++ t ∷ us) s).started in
      In (t.now, claim w.claimer_id (t.now + w.lease_duration) t.now r) xs
      ⊎ ((out : List Submission) × (length out ≡ w.batch_limit)
          × IsDistinct out
          × ((v : Submission) → In v out → In (t.now, v) xs × (v.created_at ≤ r.created_at)))
unfolding claim_and_process
run_starts_due w ts us t s hs h live limited named keyed id r e c =
    elim (run-Launches w ts us t s hs h live limited named) [
      | launches out s' run_claim started ↦
          let batch : claim_batch none t.now w.claimer_id w.batch_limit w.lease_duration
                (t.others (run w ts s).state)
              ≡ (s', ok out) =
            subst
              (λ (x : Context).
                claim_batch x t.now w.claimer_id w.batch_limit w.lease_duration
                  (t.others (run w ts s).state)
                ≡ (s', ok out))
              live run_claim in
          let (_, _, left) =
            claim_batch_oldest t.now w.claimer_id w.batch_limit w.lease_duration _ batch in
          let distinct =
            claim_batch-IsDistinct t.now w.claimer_id w.batch_limit w.lease_duration _ keyed
              batch in
          elim (left id r e c) [
            | inl i ↦ inl (started _ i)
            | inr (full, older) ↦ inr (out, full, distinct, λ v i. (started v i, older v i))
          ]
    ]
