-- ===== src/Store/Lease.antt =====
-- The lease of internal/storeinmem/store.go: which rows are held, and by whom.
use go_stripenav.Base.{
  ℕ, ◌+◌, ◌≤◌, ◌<◌, ◌≡◌, ap, ◌≢◌, false, none, some, List, [], arith, In, Bytes, str_eq_iff,
}
use go_stripenav.Submission.{Submission, Time, ok}
use go_stripenav.Store.{Store, is_claimable, claim_batch}
use go_stripenav.Store.Table.{lookup, Keyed}
use go_stripenav.Store.Batch.{claim_batch_sound}

-- `Row id s r`: the store holds `r` under `id`.
abbrev pub Row : Bytes → Store → Submission → Type 0
Row id s r = lookup id s.rows ≡ some r

-- `id` is held by `claimer` until at least `until`.
abbrev pub Held : Bytes → Bytes → Time → Store → Type 0
Held id claimer until s =
    (r : Submission) × Row id s r × (r.claimed_by ≡ claimer) × (until ≤ r.claimed_until)

pub held-not_claimable :
    (now : Time) (r : Submission) (claimer : Bytes) (until : Time)
    → claimer ≢ []
    → r.claimed_by ≡ claimer
    → until ≤ r.claimed_until
    → now < until
    → is_claimable now r ≡ false
unfolding is_claimable
held-not_claimable now r claimer until some_claimer by le lt =
    ground (arith, str_eq_iff r.claimed_by [])

-- In a store that keeps every row under its own id, while a lease of a named claimer runs, no
-- ClaimBatch returns its row, to another worker or to the holder itself.
pub Held-excludes :
    (id claimer : Bytes) (until now : Time) (other : Bytes) (limit : ℕ) (lease : Time) (s : Store)
    {s' : Store} {out : List Submission}
    → Keyed s.rows
    → claimer ≢ []
    → Held id claimer until s
    → now < until
    → claim_batch none now other limit lease s ≡ (s', ok out)
    → (v : Submission) → In v out
    → v.event_id ≢ id
Held-excludes id claimer until now other limit lease s k some_claimer (r, e, by, le) lt run v i
      same =
    let (q, at_id, claimable, _, _) = claim_batch_sound now other limit lease s k run v i in
    let held = held-not_claimable now r claimer until some_claimer by le lt in
    ground (arith, held, claimable, at_id, e, ap (λ (j : Bytes). lookup j s.rows) same)

-- A row that ClaimBatch returned is held by the claimer for the whole lease.
pub claimed-Held :
    (now : Time) (claimer : Bytes) (limit : ℕ) (lease : Time) (s : Store) {s' : Store}
    {out : List Submission}
    → Keyed s.rows
    → claim_batch none now claimer limit lease s ≡ (s', ok out)
    → (v : Submission) → In v out
    → Held v.event_id claimer (now + lease) s'
claimed-Held now claimer limit lease s k run v i =
    let (r, _, _, e, stored) = claim_batch_sound now claimer limit lease s k run v i in
    (
      v,
      stored,
      ap (λ (u : Submission). u.claimed_by) e,
      let until = ap (λ (u : Submission). u.claimed_until) e in omega (arith, until),
    )
