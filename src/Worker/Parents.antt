-- ===== src/Worker/Parents.antt =====
-- worker.go: when an action of the lifecycle submits a document that depends on another one.
use go_stripenav.Base.{◌≡◌, refl, ◌⊎◌, inl, inr, true, some, [], arith, Bool-cases, str_eq}
use go_stripenav.Submission.{
  Submission, Status, pending, submitted, processing, accepted, Result-cases,
}
use go_stripenav.Worker.{Worker}
use go_stripenav.Worker.World.{Outside, World, Round}
use go_stripenav.Worker.Actions.{act, act_on, parent_ready, by_parent}
use go_stripenav.Worker.Sending.{Quiet, Extends, Extends-none}
use go_stripenav.Worker.Requests.{poll_status-Quiet, parent_ready-sent}

module _ (out : Outside) (w : Worker) where
  -- The submission depends on no other, or that one stands accepted in the store.
  abbrev pub Gate : Submission → out.store.State → Type 0
  Gate sub s =
      (str_eq sub.parent_event_id [] ≡ true)
      ⊎ ((p : Submission) × (out.store.row sub.parent_event_id s ≡ some p) × (p.status ≡ accepted))

  by_parent-accepted :
      (a : Status) (rd : Round out) (sub parent : Submission) (wd : World out)
      → (by_parent out w a rd sub parent wd).0 ≡ true
      → a ≡ accepted
  unfolding by_parent
  by_parent-accepted accepted rd sub parent wd e = refl
  by_parent-accepted _ rd sub parent wd e = cc

  parent_ready-Gate :
      (rd : Round out) (sub : Submission) (wd : World out)
      → (parent_ready out w rd sub wd).0 ≡ true
      → Gate sub wd.state
  unfolding parent_ready
  parent_ready-Gate rd sub wd e = elim (Bool-cases (str_eq sub.parent_event_id [])) [
    | inl n ↦ inl n
    | inr n ↦ elim (Result-cases (out.store.get rd.parent_ctx sub.parent_event_id wd.state)) [
      | inr (x, q) ↦ absurd (ground (arith, n, q, e))
      | inl (p, q) ↦ inr (
        p,
        out.store.get_row rd.parent_ctx sub.parent_event_id wd.state p q,
        by_parent-accepted p.status rd sub p wd (ground (arith, n, q, e)),
      )
    ]
  ]

  gated :
      (st : Status) (rd : Round out) (sub : Submission) (wd : World out)
      → sub.status ≡ st
      → Extends Quiet wd.sent (act_on out w st rd sub wd).1.sent
        ⊎ ((sub.status ≡ pending) × Gate sub wd.state)
  unfolding act_on
  gated pending rd sub wd e = elim (Bool-cases (parent_ready out w rd sub wd).0) [
    | inl r ↦ inr (e, parent_ready-Gate rd sub wd r)
    | inr r ↦
        inl (rw (act_on, r) (Extends-none Quiet wd.sent _ tt (parent_ready-sent out w rd sub wd).0))
  ]
  gated submitted rd sub wd e = inl (poll_status-Quiet out w rd sub wd)
  gated processing rd sub wd e = inl (poll_status-Quiet out w rd sub wd)
  gated _ rd sub wd e = inl (Extends-none Quiet wd.sent _ tt refl)

  -- An action of a lifecycle sends NAV nothing but status queries, unless the submission is pending
  -- and names no parent, or names one that stands accepted in the store.
  pub act-Gate :
      (rd : Round out) (sub : Submission) (wd : World out)
      → Extends Quiet wd.sent (act out w rd sub wd).1.sent
        ⊎ ((sub.status ≡ pending) × Gate sub wd.state)
  unfolding act
  act-Gate rd sub wd = gated sub.status rd sub wd refl
