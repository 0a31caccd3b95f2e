-- ===== src/Fleet/Turns.antt =====
-- What a turn of a lifecycle in a fleet does to the store and sends to NAV (worker.go).
use go_stripenav.Base.{
  ◌+◌, ◌-◌, ◌≤◌, ◌≡◌, refl, sym, ap, ◌∙◌, subst, inl, inr, Bool, true, false, Option, none, some,
  List, ◌∷◌, arith, ltb, if◌then◌else◌, Bool-cases, Bytes, str_eq, str_eq_iff,
}
use go_stripenav.Submission.{Submission, Result, ok, err, is_terminal}
use go_stripenav.Submission.Machine.{is_past, Moves-is_past}
use go_stripenav.Store.{Store, get}
use go_stripenav.Store.Table.{lookup, Keyed, lookup_id}
use go_stripenav.Worker.{Worker}
use go_stripenav.Worker.Document.{XmlToken}
use go_stripenav.Worker.Backoff.{Float64}
use go_stripenav.Worker.Effects.{in_memory-get}
use go_stripenav.Worker.World.{IsRecorded, Derived, Outside, World, Round, Sent}
use go_stripenav.Worker.Actions.{check_deadline, act, after_act, lifecycle_loop}
use go_stripenav.Worker.Acts.{Acts}
use go_stripenav.Worker.Steps.{act-Acts, check_deadline-state}
use go_stripenav.Worker.Lifecycle.{acted}
use go_stripenav.Worker.Once.{acted-Quiet, acted-Attempt}
use go_stripenav.Fleet.{Lifecycle, outside, begun, next_of, turned, logged}
use go_stripenav.Fleet.Rows.{Kept, Reads, Backed}
use go_stripenav.Fleet.Ledger.{
  filed, room, room-past, room-fresh, filed-other, filed-Quiet, filed_one, room-Kept,
}

module _ (f64 : Float64) (xml_tokens : Bytes → List XmlToken)
    (derive : Option (Bytes → Bytes → Derived)) where
  abbrev out : Outside
  out = outside f64 xml_tokens derive

  after_act-next :
      (w : Worker) (went : Bool) (read : Result Submission) (rd : Round out) (wd : World out)
      (loop : Submission → World out)
      → after_act out w went read rd wd loop ≡ elim (next_of f64 xml_tokens derive w went read rd) [
        | none ↦ wd
        | some fresh ↦ loop fresh
      ]
  unfolding after_act next_of
  after_act-next w false read rd wd loop = refl
  after_act-next w true (err e) rd wd loop = refl
  after_act-next w true (ok fresh) rd wd loop = elim (Bool-cases (is_terminal fresh)) [
    | inl e ↦ rw e refl
    | inr e ↦ elim (Bool-cases (ltb w.poll_interval (fresh.next_attempt_at - rd.waited_at))) [
      | inl q ↦ rw (e, q) refl
      | inr q ↦ rw (e, q) refl
    ]
  ]

  if_false : (b : Bool) (x y : World out) → b ≡ false → (if b then x else y) ≡ y
  if_false b x y e = rw e refl

  -- The loop of runLifecycle is its turns, one after the other.
  pub lifecycle_loop-turned :
      (w : Worker) (warned : Bool) (sub : Submission) (rd : Round out) (rds : List (Round out))
      (wd : World out)
      → rd.lease_done ≡ false
      → let wd' = acted out w warned sub rd wd in
        lifecycle_loop out w warned sub (rd ∷ rds) wd
        ≡ elim (next_of f64 xml_tokens derive w
            (act out w rd sub (check_deadline out w warned rd sub wd).1).0
            (get rd.read_ctx sub.event_id wd'.state)
            rd) [
              | none ↦ wd'
              | some fresh ↦
                  lifecycle_loop out w
                    (check_deadline out w warned rd sub wd).0
                    fresh
                    rds
                    (record wd' { state = rd.others wd'.state })
            ]
  unfolding lifecycle_loop
  lifecycle_loop-turned w warned sub rd rds wd going =
      if_false _ _ _ going ∙ after_act-next w _ _ rd _ _

  next_of-read :
      (w : Worker) (went : Bool) (read : Result Submission) (rd : Round out) (fresh : Submission)
      → next_of f64 xml_tokens derive w went read rd ≡ some fresh
      → read ≡ ok fresh
  unfolding next_of
  next_of-read w false read rd fresh e = cc
  next_of-read w true (err x) rd fresh e = cc
  next_of-read w true (ok r) rd fresh e = ground arith

  module _ (l : Lifecycle) (sub : Submission) (rd : Round out) (s : Store) where
    abbrev pub turn_of : Store
    turn_of = (turned f64 xml_tokens derive l sub rd s).state

    turned-Acts : Acts out sub.event_id s turn_of
    unfolding turned
    turned-Acts =
        subst (λ (z : Store). Acts out sub.event_id z turn_of)
          (check_deadline-state out l.worker l.warned rd sub (begun f64 xml_tokens derive s)).0
          (act-Acts out l.worker rd sub
            (check_deadline out l.worker l.warned rd sub (begun f64 xml_tokens derive s)).1)

    pub turned-Keyed : Keyed s.rows → Keyed turn_of.rows
    turned-Keyed k = turned-Acts.0 k

    pub turned-Kept : sub.event_id ≡ l.event_id → Kept (λ id. l.event_id ≡ id) s turn_of
    turned-Kept same id r e =
        let (r', e', m, _, _, _, own) = turned-Acts.1 id r e in
        (
          r',
          e',
          λ h. Moves-is_past m h,
          elim own [ inl mine ↦ inl (sym same ∙ mine) | inr unchanged ↦ inr unchanged ],
        )

    -- The row is still the lifecycle's, under the same claim, and is the one that the loop goes on
    -- with.
    pub turned-Backed :
        Keyed s.rows
        → l.next ≡ some sub
        → Backed s l
        → Backed turn_of (turned f64 xml_tokens derive l sub rd s).lifecycle
    unfolding turned
    turned-Backed k goes (r, at, by, le, reads) =
        let (same, status) = subst (λ o. Reads l.event_id o r) goes reads in
        let (r', at', m, id, by', until', _) = turned-Acts.1 l.event_id r at in
        (r', at', by' ∙ by, omega (arith, until', le), read r' _ at' same refl)
      where
        went : Bool
        went =
            (act out l.worker rd sub
              (check_deadline out l.worker l.warned rd sub (begun f64 xml_tokens derive s)).1).0

        read :
            (r' : Submission) (o : Option Submission)
            → lookup l.event_id turn_of.rows ≡ some r'
            → sub.event_id ≡ l.event_id
            → next_of f64 xml_tokens derive l.worker went (get rd.read_ctx sub.event_id turn_of) rd
              ≡ o
            → Reads l.event_id o r'
        read r' none at same e = tt
        read r' (some fresh) at same e =
            let stored =
              in_memory-get rd.read_ctx sub.event_id turn_of fresh
                (next_of-read l.worker went _ rd fresh e) in
            let again : r' ≡ fresh =
              ground (arith, at, stored, ap (λ (i : Bytes). lookup i turn_of.rows) same) in
            (
              ap (λ (u : Submission). u.event_id) (sym again)
                  ∙ lookup_id turn_of.rows l.event_id (turned-Keyed k) at,
              ap (λ (u : Submission). u.status) again,
            )

    abbrev pub sent_by : List Sent
    sent_by = (turned f64 xml_tokens derive l sub rd s).sent

    -- A row past submission is only asked about; another is submitted at most once, and then it is
    -- past submission.
    spends_own :
        (r : Submission)
        → lookup l.event_id s.rows ≡ some r
        → sub.event_id ≡ l.event_id
        → r.status ≡ sub.status
        → IsRecorded out rd
        → filed l.event_id (logged l.event_id sent_by) + room (lookup l.event_id turn_of.rows)
          ≤ room (lookup l.event_id s.rows)
    unfolding turned
    spends_own r at same status live = elim (Bool-cases (is_past sub.status)) [
      | inl past ↦
          let (ts, e, quiet) =
            acted-Quiet out l.worker l.warned sub rd (begun f64 xml_tokens derive s) past in
          let none_filed : filed l.event_id (logged l.event_id sent_by) ≡ 0 =
            ap (λ xs. filed l.event_id (logged l.event_id xs)) e
            ∙ filed-Quiet l.event_id l.event_id ts quiet in
          omega (arith, none_filed, less)
      | inr fresh ↦
          elim (acted-Attempt out l.worker l.warned sub r rd (begun f64 xml_tokens derive s) fresh
            live (ap (λ (i : Bytes). lookup i s.rows) same ∙ at) status) [
              | inl e ↦
                  let none_filed : filed l.event_id (logged l.event_id sent_by) ≡ 0 =
                    ap (λ xs. filed l.event_id (logged l.event_id xs)) e ∙ unfold filed in refl in
                  omega (arith, none_filed, less)
              | inr (t, _, e, took) ↦
                  let (most, refused) = filed_one l.event_id l.event_id t in
                  let counted = ap (λ xs. filed l.event_id (logged l.event_id xs)) e in
                  elim (Bool-cases t.is_answered) [
                    | inr not_taken ↦ omega (arith, counted, refused not_taken, less)
                    | inl taken ↦
                        let (r', at', submitted') = took taken in
                        let spent = room-past r' submitted' in
                        let left = room-fresh r (ap is_past status ∙ fresh) in
                        let now_at =
                          ap room (ap (λ (i : Bytes). lookup i turn_of.rows) (sym same) ∙ at') in
                        let before = ap room at in
                        omega (arith, counted, most, spent, left, now_at, before)
                  ]
            ]
    ]
      where
        less : room (lookup l.event_id turn_of.rows) ≤ room (lookup l.event_id s.rows)
        less = room-Kept (λ id. l.event_id ≡ id) s turn_of l.event_id (turned-Kept same)

    pub turned-spends :
        (k : Bytes)
        → Backed s l
        → l.next ≡ some sub
        → IsRecorded out rd
        → filed k (logged l.event_id sent_by) + room (lookup k turn_of.rows)
          ≤ room (lookup k s.rows)
    turned-spends k (r, at, by, le, reads) goes live =
        let (same, status) = subst (λ o. Reads l.event_id o r) goes reads in
        elim (Bool-cases (str_eq l.event_id k)) [
          | inl hit ↦
              subst
                (λ i.
                  filed i (logged l.event_id sent_by) + room (lookup i turn_of.rows)
                  ≤ room (lookup i s.rows))
                ((str_eq_iff _ _).0 hit) (spends_own r at same status live)
          | inr miss ↦ omega (
            arith,
            filed-other k l.event_id sent_by miss,
            room-Kept (λ id. l.event_id ≡ id) s turn_of k (turned-Kept same),
          )
        ]
