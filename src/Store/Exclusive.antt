-- ===== src/Store/Exclusive.antt =====
-- The lease of internal/storeinmem/store.go over any interleaving of calls.
use go_stripenav.Base.{
  ℕ, ◌+◌, ◌≤◌, ◌<◌, ◌≡◌, sym, ap, ◌∙◌, subst, ◌≢◌, inl, inr, Option, none, some, List, [], ◌∷◌,
  arith, Bool-cases, In, Bytes, str_eq, str_eq_iff,
}
use go_stripenav.Submission.{Submission, Time, ok}
use go_stripenav.Store.{Store, claim_batch}
use go_stripenav.Store.Table.{lookup, insert, lookup-insert, Keyed}
use go_stripenav.Store.Batch.{claim_batch-Claimed, claim_batch-Keyed, claim_batch_frame}
use go_stripenav.Store.Lease.{Held, Held-excludes, claimed-Held}
use go_stripenav.Store.Calls.{
  Call, puts, updates, claims, renews, releases, exec, exec_all, Lawful, Written, same, put_row,
  updated, batch, renewed, released, exec-Written, exec-Keyed,
}

none≢some : {A : Type 0} {a : A} → ◌≢◌ {A = Option A} none (some a)
none≢some e = cc

-- A call that does not end the claim of `claimer` on `id` before `until`: the holder does not
-- release it, and renews it to no earlier time.
abbrev pub Respects : Bytes → Bytes → Time → Time → Call → Type 0
Respects id claimer until now (renews j c lease) = j ≡ id → c ≡ claimer → until ≤ now + lease
Respects id claimer until now (releases j c) = j ≡ id → c ≢ claimer
Respects id claimer until now (puts sub) = Unit {0}
Respects id claimer until now (updates j mut) = Unit {0}
Respects id claimer until now (claims c limit lease) = Unit {0}

module _ (id claimer : Bytes) (until : Time) (some_claimer : claimer ≢ []) where
  -- A write to another row, or of a row that keeps the claim, keeps it.
  write-Held :
      (j : Bytes) (t : Submission) (s s' : Store)
      → s' ≡ record { rows = insert j t s.rows }
      → Held id claimer until s
      → (j ≡ id → (t.claimed_by ≡ claimer) × (until ≤ t.claimed_until))
      → Held id claimer until s'
  write-Held j t s s' e (r, p, by, le) keep = elim (Bool-cases (str_eq j id)) [
    | inl hit ↦
        let (by', le') = keep ((str_eq_iff j id).0 hit) in
        (t, ground (arith, lookup-insert j id t s.rows), by', le')
    | inr miss ↦ (r, ground (arith, lookup-insert j id t s.rows), by, le)
  ]

  Written-Held :
      (now : Time) (c : Call) (s s' : Store)
      → Written now s s' c
      → Lawful c
      → Respects id claimer until now c
      → now < until
      → Keyed s.rows
      → Held id claimer until s
      → Held id claimer until s'
  Written-Held now c s s' (same e) law resp lt k h = subst (Held id claimer until) (sym e) h
  Written-Held now _ s s' (put_row sub p e) law resp lt k (r, q, by, le) =
      write-Held sub.event_id sub s s' e (r, q, by, le)
        λ same_id. absurd (none≢some (sym p ∙ ap (λ j. lookup j s.rows) same_id ∙ q))
  Written-Held now _ s s' (updated j mut t u p q e) law resp lt k (r, p', by, le) =
      write-Held j (record u { updated_at = now }) s s' e (r, p', by, le)
        λ same_id.
          let (_, by', until') = law t u q in
          let stored = ap (λ i. lookup i s.rows) same_id in
          (ground (arith, p, p', stored, by'), ground (arith, p, p', stored, until'))
  Written-Held now _ s s' (batch c limit lease out e) law resp lt k (r, p, by, le) = (
    r,
    claim_batch_frame now c limit lease s k e id
          (Held-excludes id claimer until now c limit lease s k some_claimer (r, p, by, le) lt e)
        ∙ p,
    by,
    le,
  )
  Written-Held now _ s s' (renewed j c lease t p q e) law resp lt k (r, p', by, le) =
      write-Held j _ s s' e (r, p', by, le)
        λ same_id.
          let stored = ap (λ i. lookup i s.rows) same_id in
          let by' : t.claimed_by ≡ claimer = ground (arith, p, p', stored) in
          (by', resp same_id (sym q ∙ by'))
  Written-Held now _ s s' (released j c t p q e) law resp lt k (r, p', by, le) =
      write-Held j _ s s' e (r, p', by, le)
        λ same_id.
          let stored = ap (λ i. lookup i s.rows) same_id in
          let by' : t.claimed_by ≡ claimer = ground (arith, p, p', stored) in
          absurd (resp same_id (sym q ∙ by'))

-- A history of calls, all of them made before `until`.
abbrev pub History : Bytes → Bytes → Time → List (Time × Call) → Type 0
History id claimer until [] = Unit {0}
History id claimer until ((now, c) ∷ cs) =
    (now < until) × Lawful c × Respects id claimer until now c × History id claimer until cs

exec_all-Held :
    (id claimer : Bytes) (until : Time) (cs : List (Time × Call)) (s : Store)
    → claimer ≢ []
    → History id claimer until cs
    → Keyed s.rows
    → Held id claimer until s
    → Keyed (exec_all cs s).rows × Held id claimer until (exec_all cs s)
unfolding exec_all
exec_all-Held id claimer until [] s some_claimer hs k h = (k, h)
exec_all-Held id claimer until ((now, c) ∷ cs) s some_claimer (lt, law, resp, hs) k h =
    exec_all-Held id claimer until cs (exec now c s) some_claimer hs (exec-Keyed now c s law k) (
      Written-Held id claimer until some_claimer now c s (exec now c s) (exec-Written now c s) law
        resp lt k h)

-- Two claims never overlap. In a store that keeps every row under its own id, after a ClaimBatch
-- and any calls of anybody before its lease runs out (mutators that keep the event id and the
-- claim, no release of the row by the claimer, and no renewal by it for less), a further ClaimBatch
-- within the lease, by whomever, does not return a row of the first.
pub claims_disjoint :
    (now : Time) (claimer : Bytes) (limit : ℕ) (lease : Time) (s : Store) {s' : Store}
    {out : List Submission}
    → Keyed s.rows
    → claim_batch none now claimer limit lease s ≡ (s', ok out)
    → (v : Submission) → In v out
    → (cs : List (Time × Call)) → History v.event_id claimer (now + lease) cs
    → (later : Time) (other : Bytes) (limit' : ℕ) (lease' : Time) {s'' : Store}
      {out' : List Submission}
    → later < now + lease
    → claim_batch none later other limit' lease' (exec_all cs s') ≡ (s'', ok out')
    → (w : Submission) → In w out'
    → w.event_id ≢ v.event_id
claims_disjoint now claimer limit lease s {s'} k run v i cs hs later other limit' lease' lt again w
      j =
    let done = claim_batch-Claimed now claimer limit lease s run in
    let (k', h') =
      exec_all-Held v.event_id claimer (now + lease) cs s' done.some_claimer hs
        (claim_batch-Keyed now claimer limit lease s k run)
        (claimed-Held now claimer limit lease s k run v i) in
    Held-excludes v.event_id claimer (now + lease) later other limit' lease' (exec_all cs s') k'
      done.some_claimer h' lt again w j
