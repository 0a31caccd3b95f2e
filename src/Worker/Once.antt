-- ===== src/Worker/Once.antt =====
-- What a whole lifecycle of worker.go sends to NAV.
use go_stripenav.Base.{
  ◌≡◌, refl, sym, ap, ◌∙◌, subst, ◌≢◌, inl, inr, Bool, true, false, some, List, [], ◌∷◌, ◌++◌,
  append_assoc, arith, Bool-cases, Bytes,
}
use mathlib.Core.Option.{some-injective}
use go_stripenav.Submission.{Submission, Status, Time, pending, submitted, processing, ok}
use go_stripenav.Submission.Machine.{is_past, Moves-is_past}
use go_stripenav.Store.{Context}
use go_stripenav.Worker.{Worker}
use go_stripenav.Worker.World.{Outside, World, Round, IsRecorded, Sent}
use go_stripenav.Worker.Actions.{
  parent_ready, check_deadline, act_on, act, lifecycle_loop, run_lifecycle,
}
use go_stripenav.Worker.Steps.{check_deadline-state}
use go_stripenav.Worker.Lifecycle.{turn, acted, act-Evolves_turn}
use go_stripenav.Worker.Sending.{
  Quiet, Once, Once-taken, Once-refused, Quiet-Once, Quiet-append, Extends, Extends-none,
}
use go_stripenav.Worker.Requests.{
  poll_status-Quiet, parent_ready-sent, Attempt, attempt_submit-Attempt,
}

Extends-append :
    (xs ys zs : List Sent) → Extends Quiet xs ys → Extends Quiet ys zs → Extends Quiet xs zs
Extends-append xs ys zs (ts, e, q) (us, f, r) =
    (ts ++ us, f ∙ ap (λ l. l ++ us) e ∙ append_assoc xs ts us, Quiet-append ts us q r)

true≢false : true ≢ false
true≢false e = cc

submitted-past :
    (r fresh : Submission) → r.status ≡ submitted → r ≡ fresh → is_past fresh.status ≡ true
submitted-past r fresh e same = ground arith

module _ (out : Outside) (w : Worker) where
  act_on-Quiet :
      (a : Status) (rd : Round out) (sub : Submission) (wd : World out)
      → is_past a ≡ true
      → Extends Quiet wd.sent (act_on out w a rd sub wd).1.sent
  unfolding act_on
  act_on-Quiet pending rd sub wd h = cc
  act_on-Quiet submitted rd sub wd h = poll_status-Quiet out w rd sub wd
  act_on-Quiet processing rd sub wd h = poll_status-Quiet out w rd sub wd
  act_on-Quiet _ rd sub wd h = Extends-none Quiet wd.sent _ tt refl

  act_on-Attempt :
      (a : Status) (rd : Round out) (sub r : Submission) (wd : World out)
      → is_past a ≡ false
      → IsRecorded out rd
      → out.store.row sub.event_id wd.state ≡ some r
      → r.status ≡ a
      → Attempt out w sub wd.sent (act_on out w a rd sub wd).1
  unfolding act_on
  act_on-Attempt pending rd sub r wd h live at e =
      elim (Bool-cases (parent_ready out w rd sub wd).0) [
        | inr q ↦ rw (q, act_on) (inl (parent_ready-sent out w rd sub wd).0)
        | inl q ↦
            let same = (parent_ready-sent out w rd sub wd).1 q in
            rw (q, same, act_on) (attempt_submit-Attempt out w rd sub r wd live at e)
      ]
  act_on-Attempt _ rd sub r wd h live at e = cc

  pub acted-Quiet :
      (warned : Bool) (sub : Submission) (rd : Round out) (wd : World out)
      → is_past sub.status ≡ true
      → Extends Quiet wd.sent (acted out w warned sub rd wd).sent
  unfolding act
  acted-Quiet warned sub rd wd h =
      subst (λ s. Extends Quiet s (acted out w warned sub rd wd).sent)
        (check_deadline-state out w warned rd sub wd).1
        (act_on-Quiet sub.status rd sub (check_deadline out w warned rd sub wd).1 h)

  pub acted-Attempt :
      (warned : Bool) (sub r : Submission) (rd : Round out) (wd : World out)
      → is_past sub.status ≡ false
      → IsRecorded out rd
      → out.store.row sub.event_id wd.state ≡ some r
      → r.status ≡ sub.status
      → Attempt out w sub wd.sent (acted out w warned sub rd wd)
  unfolding act
  acted-Attempt warned sub r rd wd h live at same =
      let (state, sent) = check_deadline-state out w warned rd sub wd in
      subst (λ xs. Attempt out w sub xs (acted out w warned sub rd wd)) sent
        (act_on-Attempt sub.status rd sub r (check_deadline out w warned rd sub wd).1 h live
          (ap (out.store.row sub.event_id) state ∙ at) same)

  -- The peers leave the row of this submission alone, and the store takes the write that records a
  -- answered submission.
  abbrev pub Undisturbed : Bytes → List (Round out) → Type 0
  Undisturbed id [] = Unit {0}
  Undisturbed id (rd ∷ rds) =
      IsRecorded out rd
      × ((s : out.store.State) → out.store.row id (rd.others s) ≡ out.store.row id s)
      × Undisturbed id rds

  -- What a turn leaves for the next one: the row that was read again is the row that is stored.
  reread :
      (warned : Bool) (sub fresh : Submission) (rd : Round out) (wd : World out)
      → out.store.row sub.event_id wd.state ≡ some sub
      → ((s : out.store.State)
          → out.store.row sub.event_id (rd.others s) ≡ out.store.row sub.event_id s)
      → out.store.get rd.read_ctx sub.event_id (acted out w warned sub rd wd).state ≡ ok fresh
      → (out.store.row fresh.event_id (rd.others (acted out w warned sub rd wd).state) ≡ some fresh)
        × (fresh.event_id ≡ sub.event_id)
        × (out.store.row sub.event_id (acted out w warned sub rd wd).state ≡ some fresh)
        × (is_past sub.status ≡ true → is_past fresh.status ≡ true)
  reread warned sub fresh rd wd at peers q =
      let stored =
        out.store.get_row rd.read_ctx sub.event_id (acted out w warned sub rd wd).state fresh q in
      let (r', e, m, i) = act-Evolves_turn out w warned sub rd wd sub.event_id sub at in
      let same : r' ≡ fresh = ground (arith, e, stored) in
      let id : fresh.event_id ≡ sub.event_id = ap (λ (u : Submission). u.event_id) (sym same) ∙ i in
      (
        ap (λ k. out.store.row k (rd.others (acted out w warned sub rd wd).state)) id
            ∙ peers _
            ∙ stored,
        id,
        stored,
        λ h. subst (λ (u : Submission). is_past u.status ≡ true) same (Moves-is_past m h),
      )

  loop-Quiet :
      (warned : Bool) (sub : Submission) (rds : List (Round out)) (wd : World out)
      → Undisturbed sub.event_id rds
      → out.store.row sub.event_id wd.state ≡ some sub
      → is_past sub.status ≡ true
      → Extends Quiet wd.sent (lifecycle_loop out w warned sub rds wd).sent
  loop-Quiet warned sub [] wd calm at h =
      unfold lifecycle_loop in Extends-none Quiet wd.sent _ tt refl
  loop-Quiet warned sub (rd ∷ rds) wd (live, peers, calm) at h =
      turn out w (λ wd'. Extends Quiet wd.sent wd'.sent) warned sub rd rds wd
        (Extends-none Quiet wd.sent wd.sent tt refl) (acted-Quiet warned sub rd wd h)
        λ fresh q.
          let (at', id, _, past) = reread warned sub fresh rd wd at peers q in
          Extends-append wd.sent (acted out w warned sub rd wd).sent _
            (acted-Quiet warned sub rd wd h)
            (loop-Quiet (check_deadline out w warned rd sub wd).0 fresh rds
              (record (acted out w warned sub rd wd) {
                state = rd.others (acted out w warned sub rd wd).state;
              })
              (subst (λ k. Undisturbed k rds) (sym id) calm) at' (past h))

  -- A turn on a row that was not yet submitted, put before what the later turns send.
  Attempt-then :
      (sub : Submission) (xs : List Sent) (wd' : World out) (zs : List Sent) (past : Bool)
      → Attempt out w sub xs wd'
      → ((r' : Submission)
          → out.store.row sub.event_id wd'.state ≡ some r'
          → r'.status ≡ submitted
          → past ≡ true)
      → (past ≡ true → Extends Quiet wd'.sent zs)
      → (past ≡ false → Extends Once wd'.sent zs)
      → Extends Once xs zs
  Attempt-then sub xs wd' zs past did recorded quiet once = elim did [
    | inl e ↦ elim (Bool-cases past) [
      | inl p ↦ let (ts, f, q) = quiet p in (ts, f ∙ ap (λ l. l ++ ts) e, Quiet-Once ts q)
      | inr p ↦ let (ts, f, q) = once p in (ts, f ∙ ap (λ l. l ++ ts) e, q)
    ]
    | inr (t, no_query, e, took) ↦ elim (Bool-cases t.is_answered) [
      | inl a ↦
          let (r', at, sub') = took a in
          let (ts, f, q) = quiet (recorded r' at sub') in
          (t ∷ ts, f ∙ shift t ts e, Once-taken t ts no_query a q)
      | inr a ↦ elim (Bool-cases past) [
        | inl p ↦
            let (ts, f, q) = quiet p in
            (t ∷ ts, f ∙ shift t ts e, Once-refused t ts no_query a (Quiet-Once ts q))
        | inr p ↦
            let (ts, f, q) = once p in (t ∷ ts, f ∙ shift t ts e, Once-refused t ts no_query a q)
      ]
    ]
  ]
    where
      shift : (t : Sent) (ts : List Sent) → wd'.sent ≡ xs ++ t ∷ [] → wd'.sent ++ ts ≡ xs ++ t ∷ ts
      shift t ts e = ap (λ l. l ++ ts) e ∙ append_assoc xs (t ∷ []) ts

  loop-Once :
      (warned : Bool) (sub : Submission) (rds : List (Round out)) (wd : World out)
      → Undisturbed sub.event_id rds
      → out.store.row sub.event_id wd.state ≡ some sub
      → Extends Once wd.sent (lifecycle_loop out w warned sub rds wd).sent
  loop-Once warned sub [] wd calm at = unfold lifecycle_loop in Extends-none Once wd.sent _ tt refl
  loop-Once warned sub (rd ∷ rds) wd (live, peers, calm) at =
      elim (Bool-cases (is_past sub.status)) [
        | inl h ↦
            let (ts, e, q) = loop-Quiet warned sub (rd ∷ rds) wd (live, peers, calm) at h in
            (ts, e, Quiet-Once ts q)
        | inr h ↦
            let did = acted-Attempt warned sub sub rd wd h live at refl in
            turn out w (λ wd'. Extends Once wd.sent wd'.sent) warned sub rd rds wd
              (Extends-none Once wd.sent wd.sent tt refl)
              (Attempt-then sub wd.sent (acted out w warned sub rd wd) _ true did (λ _ _ _. refl)
                (λ _. Extends-none Quiet _ _ tt refl) (λ f. absurd (true≢false f)))
              λ fresh q.
                let (at', id, stored, _) = reread warned sub fresh rd wd at peers q in
                let calm' = subst (λ k. Undisturbed k rds) (sym id) calm in
                let warned' = (check_deadline out w warned rd sub wd).0 in
                let next = record (acted out w warned sub rd wd) {
                  state = rd.others (acted out w warned sub rd wd).state;
                } in
                Attempt-then sub wd.sent (acted out w warned sub rd wd) _ (is_past fresh.status) did
                  (λ r' e f. submitted-past r' fresh f (some-injective _ _ (sym e ∙ stored)))
                  (loop-Quiet warned' fresh rds next calm' at')
                  (λ _. loop-Once warned' fresh rds next calm' at')
      ]

  -- However long the lifecycle of a claimed submission runs, whatever the NAV client returns and
  -- whatever the clocks are, at most one submission that it sends is answered with a result, and it
  -- sends only status queries after that one. A submission whose reply is lost counts as
  -- unanswered, though NAV may have taken it, and may be followed by another. The row stands in the
  -- store as it was claimed, the write that records an answered submission meets neither a
  -- cancelled context nor a failure of the store, and the peers leave the row alone, as its claim
  -- makes them.
  pub run_lifecycle-Once :
      (ctx : Context) (now : Time) (initial : Submission) (rds : List (Round out)) (wd : World out)
      → Undisturbed initial.event_id rds
      → out.store.row initial.event_id wd.state ≡ some initial
      → (ts : List Sent) × ((run_lifecycle out w ctx now initial rds wd).sent ≡ wd.sent ++ ts)
        × Once ts
  unfolding run_lifecycle
  run_lifecycle-Once ctx now initial rds wd calm at = loop-Once false initial rds wd calm at
