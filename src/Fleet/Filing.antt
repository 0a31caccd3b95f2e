-- ===== src/Fleet/Filing.antt =====
-- Reporting to NAV at most once, over any run of a fleet.
use go_stripenav.Base.{
  ◌+◌, ◌≤◌, ◌<◌, ◌≡◌, refl, sym, ap, ◌∙◌, subst, Option, none, some, List, [], ◌∷◌, ◌++◌, arith,
  All, Bytes,
}
use go_stripenav.Submission.{Submission, Time, pending, ok}
use go_stripenav.Store.{Store, claim_batch}
use go_stripenav.Store.Table.{lookup, Keyed}
use go_stripenav.Worker.{Worker}
use go_stripenav.Worker.Document.{XmlToken}
use go_stripenav.Worker.Backoff.{Float64}
use go_stripenav.Worker.World.{IsRecorded, Derived, Round, Sent}
use go_stripenav.Worker.Renewal.{claim_and_process}
use go_stripenav.Fleet.{
  Lifecycle, System, outside, turned, logged, Step, delivers, passes, claims, turns, renews,
  cancels, releases as lets_go, dies, Reach, at_start, after,
}
use go_stripenav.Submission.Machine.{is_past}
use go_stripenav.Fleet.Lists.{Pairwise}
use go_stripenav.Fleet.Rows.{
  Apart, Kept, Reads, Live, put-Kept, claim_batch-Kept, renew_claim-Kept, release_claim-Kept, Among,
}
use go_stripenav.Fleet.Renewals.{release_claim-Keyed, renew_claim-Keyed, renewed-Live}
use go_stripenav.Fleet.Leases.{
  Leased, held, Leased-drop, Leased-replace, Leased-quit, Leased-die, Leased-passes,
  Leased-delivers, Leased-claims,
}
use go_stripenav.Fleet.Ledger.{
  filed, room, filed_none, room-le, room-fresh, filed-append, room-Kept,
}
use go_stripenav.Fleet.Turns.{turned-Keyed, turned-Kept, turned-Backed, turned-spends}

-- No row has been submitted and may be submitted again.
abbrev pub Balanced : Store → List (Bytes × Sent) → Type 0
Balanced s log = (k : Bytes) → filed k log + room (lookup k s.rows) ≤ 1

pub record Sound (y : System) : Type 0 where
  pub leased : Leased y.clock y.store y.running
  pub balanced : Balanced y.store y.log

Balanced-Kept :
    (Own : Bytes → Type 0) (s s' : Store) (log : List (Bytes × Sent))
    → Kept Own s s'
    → Balanced s log
    → Balanced s' log
Balanced-Kept Own s s' log kept b k = omega (arith, b k, room-Kept Own s s' k kept)

claim_and_process-batch :
    (w : Worker) (now : Time) (s s' : Store) (out : List Submission)
    → claim_and_process w none now s ≡ (s', ok out)
    → claim_batch none now w.claimer_id w.batch_limit w.lease_duration s ≡ (s', ok out)
unfolding claim_and_process
claim_and_process-batch w now s s' out h = h

module _ (f64 : Float64) (xml_tokens : Bytes → List XmlToken)
    (derive : Option (Bytes → Bytes → Derived)) where
  turn-Sound :
      (y : System) (xs ys : List Lifecycle) (l : Lifecycle) (sub : Submission)
      (rd : Round (outside f64 xml_tokens derive))
      → Leased y.clock y.store (xs ++ l ∷ ys)
      → Balanced y.store y.log
      → l.next ≡ some sub
      → y.clock < l.until
      → IsRecorded (outside f64 xml_tokens derive) rd
      → let done = turned f64 xml_tokens derive l sub rd y.store in
        Leased y.clock done.state (xs ++ done.lifecycle ∷ ys)
        × Balanced done.state (y.log ++ logged l.event_id done.sent)
  turn-Sound y xs ys l sub rd h b goes lt live =
      let done = turned f64 xml_tokens derive l sub rd y.store in
      let (named, backed) = held y.clock y.store done.state xs ys l h lt in
      let (r, at, by, le, reads) = backed in
      let (same, _) = subst (λ o. Reads l.event_id o r) goes reads in
      (
        Leased-replace y.clock y.store done.state xs ys l h lt
            (turned-Kept f64 xml_tokens derive l sub rd y.store same)
            (turned-Keyed f64 xml_tokens derive l sub rd y.store h.keyed) done.lifecycle
            (unfold turned in refl)
            (
              unfold turned in named,
              λ _. turned-Backed f64 xml_tokens derive l sub rd y.store h.keyed goes backed,
            ),
        λ k. omega (
          arith,
          filed-append k y.log (logged l.event_id done.sent),
          turned-spends f64 xml_tokens derive l sub rd y.store k backed goes live,
          b k,
        ),
      )

  Step-Sound : (y z : System) → Step f64 xml_tokens derive y z → Sound y → Sound z
  Step-Sound y z (delivers sub e) h = subst Sound (sym e) (record {
    leased = Leased-delivers y.clock sub y.store y.running h.leased;
    balanced = Balanced-Kept (λ id. id ≡ id) y.store _ y.log (put-Kept sub y.store _) h.balanced;
  })
  Step-Sound y z (passes now le e) h = subst Sound (sym e) (record {
    leased = Leased-passes y.clock now y.store y.running le h.leased;
    balanced = h.balanced;
  })
  Step-Sound y z (claims w s' out run e) h =
      let run' = claim_and_process-batch w y.clock y.store s' out run in
      subst Sound (sym e) (record {
        leased = Leased-claims y.clock w y.store s' out y.running run' h.leased;
        balanced =
            Balanced-Kept (Among out) y.store s' y.log
              (claim_batch-Kept y.clock w.claimer_id w.batch_limit w.lease_duration y.store
                h.leased.keyed run')
              h.balanced;
      })
  Step-Sound y z (turns xs l ys sub rd at goes lt live e) h =
      let (leased, balanced) =
        turn-Sound y xs ys l sub rd (subst (Leased y.clock y.store) at h.leased) h.balanced goes lt
          live in
      subst Sound (sym e) (record { leased = leased; balanced = balanced })
  Step-Sound y z (renews xs l ys s' at lt run e) h =
      let leased = subst (Leased y.clock y.store) at h.leased in
      let (named, backed) = held y.clock y.store s' xs ys l leased lt in
      let kept =
        renew_claim-Kept y.clock l.event_id l.worker.claimer_id l.worker.lease_duration y.store
          run in
      subst Sound (sym e) (record {
        leased =
            Leased-replace y.clock y.store s' xs ys l leased lt kept
              (renew_claim-Keyed y.clock l.event_id l.worker.claimer_id l.worker.lease_duration
                y.store leased.keyed run)
              _ refl (renewed-Live y.clock l y.store s' run named backed);
        balanced = Balanced-Kept _ y.store s' y.log kept h.balanced;
      })
  Step-Sound y z (cancels xs l ys at e) h = subst Sound (sym e) (record {
    leased = Leased-quit y.clock y.store xs ys l (subst (Leased y.clock y.store) at h.leased);
    balanced = h.balanced;
  })
  Step-Sound y z (lets_go xs l ys at ended lt e) h =
      let leased = subst (Leased y.clock y.store) at h.leased in
      let kept = release_claim-Kept y.clock l.event_id l.worker.claimer_id y.store in
      subst Sound (sym e) (record {
        leased =
            Leased-drop y.clock y.store _ xs ys l leased lt kept
              (release_claim-Keyed y.clock l.event_id l.worker.claimer_id y.store leased.keyed);
        balanced = Balanced-Kept _ y.store _ y.log kept h.balanced;
      })
  Step-Sound y z (dies xs l ys at e) h = subst Sound (sym e) (record {
    leased = Leased-die y.clock y.store xs ys l (subst (Leased y.clock y.store) at h.leased);
    balanced = h.balanced;
  })

  pub reach-Sound : {y z : System} → Reach f64 xml_tokens derive y z → Sound y → Sound z
  reach-Sound at_start h = h
  reach-Sound (after {z} {u} r st) h = Step-Sound z u st (reach-Sound r h)

  idle-Sound : (y : System) → Keyed y.store.rows → y.running ≡ [] → y.log ≡ [] → Sound y
  idle-Sound y keyed idle silent = record {
    leased = record {
      keyed = keyed;
      live = subst (All (Live y.clock y.store)) (sym idle) tt;
      apart = subst (Pairwise (Apart y.clock)) (sym idle) tt;
    };
    balanced =
        λ k. omega (arith, ap (filed k) silent, filed_none k, room-le (lookup k y.store.rows));
  }

  -- However many workers and webhook handlers share the store, in whatever order they act, whatever
  -- the NAV client returns, whichever processes are killed between two turns and whatever leases
  -- run out: at most one submission of a row is answered with a result, and none of a row that is
  -- still pending. A submission whose reply is lost counts as unanswered, though NAV may have taken
  -- it, and may be followed by another. The run starts with a store that keeps every row under its
  -- own id, with no lifecycle under way; turns, renewals and releases of a lifecycle come before
  -- its lease runs out, and the write that records an answered submission meets no failure of the
  -- context.
  pub filed_once :
      (y z : System)
      → Keyed y.store.rows
      → y.running ≡ []
      → y.log ≡ []
      → Reach f64 xml_tokens derive y z
      → (id : Bytes)
      → (filed id z.log ≤ 1)
        × ((r : Submission)
            → lookup id z.store.rows ≡ some r
            → r.status ≡ pending
            → filed id z.log ≡ 0)
  filed_once y z keyed idle silent run id =
      let sound = reach-Sound run (idle-Sound y keyed idle silent) in
      (
        omega (arith, sound.balanced id),
        λ r at is_pending.
            let whole = ap room at ∙ room-fresh r (ap is_past is_pending) in
            omega (arith, sound.balanced id, whole),
      )

  -- Over any run of a fleet in which the turns, renewals and releases of a lifecycle come before
  -- its lease runs out, and the write that records an answered submission meets no failure of the
  -- context, from a store that keeps every row under its own id, with no lifecycle under way: each
  -- lifecycle whose lease runs has its row in the store under its worker's claim until then, with
  -- the status that its loop goes on with, and of two lifecycles of one row the lease of one has
  -- run out.
  pub reach-Leased :
      (y z : System)
      → Keyed y.store.rows
      → y.running ≡ []
      → y.log ≡ []
      → Reach f64 xml_tokens derive y z
      → All (Live z.clock z.store) z.running × Pairwise (Apart z.clock) z.running
  reach-Leased y z keyed idle silent run =
      let sound = reach-Sound run (idle-Sound y keyed idle silent) in
      (sound.leased.live, sound.leased.apart)
