-- ===== src/Fleet/Leases.antt =====
-- The leases of a fleet: each step keeps a running lease its holder's, and no row has two.
use go_stripenav.Base.{
  ◌≤◌, ◌<◌, ◌≡◌, refl, sym, ap, ◌∙◌, ◌≢◌, inl, inr, none, List, [], ◌∷◌, ◌++◌, map, arith, ltb,
  Bool-cases, Option-cases, In, here, there, All,
}
use go_stripenav.Submission.{Submission, Time, ok}
use go_stripenav.Store.{Store, put, claim_batch}
use go_stripenav.Store.Table.{lookup, Keyed, insert-Keyed}
use go_stripenav.Store.Batch.{claim_batch-Claimed, claim_batch-Keyed, claim_batch_sound}
use go_stripenav.Store.Lease.{Held-excludes}
use go_stripenav.Store.Distinct.{Lacks, IsDistinct, claim_batch-IsDistinct}
use go_stripenav.Worker.{Worker}
use go_stripenav.Fleet.{Lifecycle, launch}
use go_stripenav.Fleet.Lists.{
  All-remove, All-restore, All-append, All-both, Pairwise, Pairwise-remove, Pairwise-restore,
  Pairwise-append,
}
use go_stripenav.Fleet.Rows.{
  Kept, Backed, Live, Apart, Apart-flip, Live-kept, Apart-not_own, put-Kept, claim_batch-Kept,
  Among,
}

pub record Leased (now : Time) (s : Store) (ls : List Lifecycle) : Type 0 where
  pub keyed : Keyed s.rows
  pub live : All (Live now s) ls
  pub apart : Pairwise (Apart now) ls

-- A step of the lifecycle `l` under its lease, which becomes `l'`, or ends.
module _ (now : Time) (s s' : Store) (xs ys : List Lifecycle) (l : Lifecycle)
    (h : Leased now s (xs ++ l ∷ ys)) where
  pub held : now < l.until → (l.worker.claimer_id ≢ []) × Backed s l
  held lt = let (named, backed) = (All-remove (Live now s) xs ys l h.live).0 in (named, backed lt)

  module _ (lt : now < l.until) (kept : Kept (λ id. l.event_id ≡ id) s s')
      (keyed : Keyed s'.rows) where
    others : All (Live now s') (xs ++ ys)
    others =
        All-both (Apart now l) (Live now s) (Live now s') (xs ++ ys)
          (λ m a live.
            Live-kept (λ id. l.event_id ≡ id) now s s' m kept
              (λ lt'. Apart-not_own now l m a lt lt') live)
          (Pairwise-remove (Apart now) (Apart-flip now) xs ys l h.apart).0
          (All-remove (Live now s) xs ys l h.live).1

    pub Leased-drop : Leased now s' (xs ++ ys)
    Leased-drop = record {
      keyed = keyed;
      live = others;
      apart = (Pairwise-remove (Apart now) (Apart-flip now) xs ys l h.apart).1;
    }

    pub Leased-replace :
        (l' : Lifecycle) → l'.event_id ≡ l.event_id → Live now s' l' → Leased now s' (xs ++ l' ∷ ys)
    Leased-replace l' same live = record {
      keyed = keyed;
      live = All-restore (Live now s') xs ys l' live others;
      apart =
          let (a, p) = Pairwise-remove (Apart now) (Apart-flip now) xs ys l h.apart in
          Pairwise-restore (Apart now) (Apart-flip now) xs ys l'
            (All-both (Apart now l) (Apart now l) (Apart now l') (xs ++ ys) (λ m b _. still m b) a
              a)
            p;
    }
      where
        still : (m : Lifecycle) → Apart now l m → Apart now l' m
        still m (inl ne) = inl (λ e. ne (sym same ∙ e))
        still m (inr (inl le)) = absurd (omega arith)
        still m (inr (inr le)) = inr (inr le)

-- A lifecycle that does nothing any more, or is killed.
pub Leased-quit :
    (now : Time) (s : Store) (xs ys : List Lifecycle) (l : Lifecycle)
    → Leased now s (xs ++ l ∷ ys)
    → Leased now s (xs ++ record l { next = none } ∷ ys)
Leased-quit now s xs ys l h =
    let (live, rest) = All-remove (Live now s) xs ys l h.live in
    let (a, p) = Pairwise-remove (Apart now) (Apart-flip now) xs ys l h.apart in
    record {
      keyed = h.keyed;
      live =
          All-restore (Live now s) xs ys _
            (live.0, λ lt. let (r, at, by, le, _) = live.1 lt in (r, at, by, le, tt)) rest;
      apart = Pairwise-restore (Apart now) (Apart-flip now) xs ys _ a p;
    }

pub Leased-die :
    (now : Time) (s : Store) (xs ys : List Lifecycle) (l : Lifecycle)
    → Leased now s (xs ++ l ∷ ys)
    → Leased now s (xs ++ ys)
Leased-die now s xs ys l h = record {
  keyed = h.keyed;
  live = (All-remove (Live now s) xs ys l h.live).1;
  apart = (Pairwise-remove (Apart now) (Apart-flip now) xs ys l h.apart).1;
}

pub Leased-passes :
    (now later : Time) (s : Store) (ls : List Lifecycle)
    → now ≤ later
    → Leased now s ls
    → Leased later s ls
Leased-passes now later s ls le h = record {
  keyed = h.keyed;
  live = older ls h.live;
  apart = apart ls h.apart;
}
  where
    older : (ls : List Lifecycle) → All (Live now s) ls → All (Live later s) ls
    older [] h = tt
    older (l ∷ ls) ((named, backed), h) = ((named, λ lt. backed (omega arith)), older ls h)

    still : (l m : Lifecycle) → Apart now l m → Apart later l m
    still l m (inl ne) = inl ne
    still l m (inr (inl p)) = inr (inl (omega arith))
    still l m (inr (inr p)) = inr (inr (omega arith))

    all_still :
        (l : Lifecycle) (ms : List Lifecycle) → All (Apart now l) ms → All (Apart later l) ms
    all_still l [] h = tt
    all_still l (m ∷ ms) h = (still l m h.0, all_still l ms h.1)

    apart : (ls : List Lifecycle) → Pairwise (Apart now) ls → Pairwise (Apart later) ls
    apart [] h = tt
    apart (l ∷ ls) h = (all_still l ls h.0, apart ls h.1)

pub Leased-delivers :
    (now : Time) (sub : Submission) (s : Store) (ls : List Lifecycle)
    → Leased now s ls
    → Leased now (put none sub s).0 ls
unfolding put
Leased-delivers now sub s ls h = record { keyed = keyed; live = live ls h.live; apart = h.apart }
  where
    keyed : Keyed (put none sub s).0.rows
    keyed = elim (Option-cases (lookup sub.event_id s.rows)) [
      | inl e ↦ rw (e, put) (insert-Keyed sub.event_id sub s.rows refl h.keyed)
      | inr (old, e) ↦ rw (e, put) h.keyed
    ]

    live : (ms : List Lifecycle) → All (Live now s) ms → All (Live now (put none sub s).0) ms
    live [] k = tt
    live (m ∷ ms) k = (
      Live-kept (λ id. ¬ (id ≡ id)) now s (put none sub s).0 m (put-Kept sub s (λ id. ¬ (id ≡ id)))
          (λ _ own. own refl) k.0,
      live ms k.1,
    )

-- A claim starts lifecycles of rows that no lease held.
module _ (now : Time) (w : Worker) (s s' : Store) (out : List Submission) (ls : List Lifecycle)
    (run : claim_batch none now w.claimer_id w.batch_limit w.lease_duration s ≡ (s', ok out))
    (h : Leased now s ls) where
  started-Live :
      (vs : List Submission)
      → ((v : Submission) → In v vs → In v out)
      → All (Live now s') (map (launch w now) vs)
  started-Live [] f = tt
  started-Live (v ∷ vs) f = (
    (
      (claim_batch-Claimed now w.claimer_id w.batch_limit w.lease_duration s run).some_claimer,
      λ _.
          let (r, _, _, e, stored) =
            claim_batch_sound now w.claimer_id w.batch_limit w.lease_duration s h.keyed run v
              (f v here) in
          (
            v,
            stored,
            ap (λ (u : Submission). u.claimed_by) e,
            let until = ap (λ (u : Submission). u.claimed_until) e in omega (arith, until),
            (refl, refl),
          ),
    ),
    started-Live vs (λ u i. f u (there i)),
  )

  not-Among : (m : Lifecycle) → Live now s m → now < m.until → ¬ Among out m.event_id
  not-Among m (named, backed) lt (v, i, same) =
      let (r, at, by, le, _) = backed lt in
      Held-excludes m.event_id m.worker.claimer_id m.until now w.claimer_id w.batch_limit
        w.lease_duration s h.keyed named (r, at, by, le) lt run v i same

  running-Live : (ms : List Lifecycle) → All (Live now s) ms → All (Live now s') ms
  running-Live [] k = tt
  running-Live (m ∷ ms) k = (
    Live-kept (Among out) now s s' m
        (claim_batch-Kept now w.claimer_id w.batch_limit w.lease_duration s h.keyed run)
        (not-Among m k.0) k.0,
    running-Live ms k.1,
  )

  started-Apart :
      (vs : List Submission) → IsDistinct vs → Pairwise (Apart now) (map (launch w now) vs)
  started-Apart [] d = tt
  started-Apart (v ∷ vs) (lacks, d) = (first vs lacks, started-Apart vs d)
    where
      first :
          (us : List Submission)
          → Lacks v.event_id us
          → All (Apart now (launch w now v)) (map (launch w now) us)
      first [] k = tt
      first (u ∷ us) k = (inl (λ e. k.0 (sym e)), first us k.1)

  between :
      (vs : List Submission)
      → ((v : Submission) → In v vs → In v out)
      → All (λ l. All (Apart now l) ls) (map (launch w now) vs)
  between [] f = tt
  between (v ∷ vs) f = (one ls h.live, between vs (λ u i. f u (there i)))
    where
      one : (ms : List Lifecycle) → All (Live now s) ms → All (Apart now (launch w now v)) ms
      one [] k = tt
      one (m ∷ ms) k = (
        elim (Bool-cases (ltb now m.until)) [
          | inr late ↦ inr (inr (ground arith))
          | inl soon ↦ inl (λ e. not-Among m k.0 (ground arith) (v, f v here, e))
        ],
        one ms k.1,
      )

  pub Leased-claims : Leased now s' (map (launch w now) out ++ ls)
  Leased-claims = record {
    keyed = claim_batch-Keyed now w.claimer_id w.batch_limit w.lease_duration s h.keyed run;
    live =
        All-append (Live now s') (map (launch w now) out) ls (started-Live out (λ v i. i))
          (running-Live ls h.live);
    apart =
        Pairwise-append (Apart now) (map (launch w now) out) ls
          (started-Apart out
            (claim_batch-IsDistinct now w.claimer_id w.batch_limit w.lease_duration s h.keyed run))
          (between out (λ v i. i)) h.apart;
  }
