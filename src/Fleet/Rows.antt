-- ===== src/Fleet/Rows.antt =====
-- What a step leaves of the rows that lifecycles hold (internal/storeinmem/store.go).
use go_stripenav.Base.{
  ℕ, ◌+◌, ◌≤◌, ◌<◌, ◌≡◌, refl, sym, ap, ◌∙◌, subst, ◌≢◌, ◌⊎◌, inl, inr, true, Option, none, some,
  List, [], ◌∷◌, arith, Bool-cases, Option-cases, In, here, there, Bytes, str_eq, str_eq_iff,
  In-cons,
}
use go_stripenav.Submission.{Submission, Time, ok}
use go_stripenav.Submission.Machine.{is_past}
use go_stripenav.Store.{Store, put, claim_batch, renew_claim, release_claim}
use go_stripenav.Store.Table.{lookup, insert, lookup-insert, Keyed}
use go_stripenav.Store.Batch.{claim_batch_sound, claim_batch_frame}
use go_stripenav.Fleet.{Lifecycle}

-- Rows stay, past submission stays so, and only rows that are `Own` change.
abbrev pub Kept : (Bytes → Type 0) → Store → Store → Type 0
Kept Own s s' =
    (id : Bytes) (r : Submission)
    → lookup id s.rows ≡ some r
    → (r' : Submission) × (lookup id s'.rows ≡ some r')
      × (is_past r.status ≡ true → is_past r'.status ≡ true)
      × (Own id ⊎ (r' ≡ r))

-- The row that the loop goes on with has the id and the status of the stored one.
abbrev pub Reads : Bytes → Option Submission → Submission → Type 0
Reads id none r = Unit {0}
Reads id (some sub) r = (sub.event_id ≡ id) × (r.status ≡ sub.status)

-- The lifecycle's row stands in the store, under its worker's claim.
abbrev pub Backed : Store → Lifecycle → Type 0
Backed s l =
    (r : Submission) × (lookup l.event_id s.rows ≡ some r)
    × (r.claimed_by ≡ l.worker.claimer_id)
    × (l.until ≤ r.claimed_until)
    × Reads l.event_id l.next r

abbrev pub Live : Time → Store → Lifecycle → Type 0
Live now s l = (l.worker.claimer_id ≢ []) × (now < l.until → Backed s l)

-- Of two lifecycles of one row the lease of one has run out.
abbrev pub Apart : Time → Lifecycle → Lifecycle → Type 0
Apart now l m = (l.event_id ≢ m.event_id) ⊎ ((l.until ≤ now) ⊎ (m.until ≤ now))

pub Apart-flip : (now : Time) (l m : Lifecycle) → Apart now l m → Apart now m l
Apart-flip now l m (inl ne) = inl (λ e. ne (sym e))
Apart-flip now l m (inr (inl le)) = inr (inr le)
Apart-flip now l m (inr (inr le)) = inr (inl le)

pub Live-kept :
    (Own : Bytes → Type 0) (now : Time) (s s' : Store) (m : Lifecycle)
    → Kept Own s s'
    → (now < m.until → ¬ Own m.event_id)
    → Live now s m
    → Live now s' m
Live-kept Own now s s' m kept other (named, backed) = (
  named,
  λ lt.
      let (r, at, by, le, reads) = backed lt in
      let (r', at', _, own) = kept m.event_id r at in
      elim own [
        | inl mine ↦ absurd (other lt mine)
        | inr same ↦
            subst (λ (z : Submission). (lookup m.event_id s'.rows ≡ some z) → Backed s' m)
              (sym same) (λ e. (r, e, by, le, reads)) at'
      ],
)

-- A lifecycle with a lease that runs is the only one of its row.
pub Apart-not_own :
    (now : Time) (l m : Lifecycle)
    → Apart now l m
    → now < l.until
    → now < m.until
    → ¬ (l.event_id ≡ m.event_id)
Apart-not_own now l m (inl ne) lt lt' e = ne e
Apart-not_own now l m (inr (inl le)) lt lt' e = absurd (omega arith)
Apart-not_own now l m (inr (inr le)) lt lt' e = absurd (omega arith)

-- A write of one row.
write-Kept :
    (k : Bytes) (r t : Submission) (s : Store)
    → lookup k s.rows ≡ some r
    → t.status ≡ r.status
    → Kept (λ id. k ≡ id) s (record { rows = insert k t s.rows })
write-Kept k r t s at same id u e = elim (Bool-cases (str_eq k id)) [
  | inl hit ↦
      let own : k ≡ id = (str_eq_iff k id).0 hit in
      let again : r ≡ u = ground (arith, at, e, ap (λ (i : Bytes). lookup i s.rows) own) in
      (
        t,
        ground (arith, lookup-insert k id t s.rows),
        λ h.
            subst (λ a. is_past a ≡ true) (ap (λ (v : Submission). v.status) (sym again) ∙ sym same)
              h,
        inl own,
      )
  | inr miss ↦ (u, ground (arith, lookup-insert k id t s.rows), λ h. h, inr refl)
]

pub put-Kept :
    (sub : Submission) (s : Store) → (Own : Bytes → Type 0) → Kept Own s (put none sub s).0
unfolding put
put-Kept sub s Own id r e = elim (Option-cases (lookup sub.event_id s.rows)) [
  | inr (old, q) ↦ (r, ground arith, λ h. h, inr refl)
  | inl q ↦ (
    r,
    ground (
      arith,
      lookup-insert sub.event_id id sub s.rows,
      str_eq_iff sub.event_id id,
      ap (λ (i : Bytes). lookup i s.rows),
    ),
    λ h. h,
    inr refl,
  )
]

-- What a successful RenewClaim writes.
pub renew_claim-written :
    (now : Time) (id claimer : Bytes) (lease : Time) (s : Store) {s' : Store}
    → renew_claim none now id claimer lease s ≡ (s', none)
    → (r : Submission) × (lookup id s.rows ≡ some r)
      × (r.claimed_by ≡ claimer)
      × (s' ≡ record {
        rows = insert id (record r { claimed_until = now + lease; updated_at = now }) s.rows;
      })
unfolding renew_claim
renew_claim-written now id claimer lease s {s'} h = elim (Option-cases (lookup id s.rows)) [
  | inl e ↦ absurd (ground arith)
  | inr (r, e) ↦ (r, e, ground (arith, str_eq_iff r.claimed_by claimer), ground arith)
]

pub renew_claim-Kept :
    (now : Time) (id claimer : Bytes) (lease : Time) (s : Store) {s' : Store}
    → renew_claim none now id claimer lease s ≡ (s', none)
    → Kept (λ j. id ≡ j) s s'
renew_claim-Kept now id claimer lease s h =
    let (r, at, _, e) = renew_claim-written now id claimer lease s h in
    subst (Kept (λ j. id ≡ j) s) (sym e) (write-Kept id r _ s at refl)

pub release_claim-Kept :
    (now : Time) (id claimer : Bytes) (s : Store)
    → Kept (λ j. id ≡ j) s (release_claim none now id claimer s).0
unfolding release_claim
release_claim-Kept now id claimer s = elim (Option-cases (lookup id s.rows)) [
  | inl e ↦ rw (e, release_claim) (λ j r q. (r, q, λ h. h, inr refl))
  | inr (r, e) ↦ elim (Bool-cases (str_eq r.claimed_by claimer)) [
    | inl q ↦ rw (e, q, release_claim) (write-Kept id r _ s e refl)
    | inr q ↦ rw (e, q, release_claim) (λ j r q. (r, q, λ h. h, inr refl))
  ]
]

-- The ids of a batch.
abbrev pub Among : List Submission → Bytes → Type 0
Among out id = (v : Submission) × In v out × (v.event_id ≡ id)

find_id :
    (id : Bytes) (out : List Submission)
    → Among out id ⊎ ((v : Submission) → In v out → v.event_id ≢ id)
find_id id [] = inr (λ v i. elim i [ ])
find_id id (x ∷ xs) = elim (Bool-cases (str_eq x.event_id id)) [
  | inl hit ↦ inl (x, here, (str_eq_iff _ _).0 hit)
  | inr miss ↦ elim (find_id id xs) [
    | inl (v, i, e) ↦ inl (v, there i, e)
    | inr none_of ↦ inr λ v i. elim (In-cons i) [
      | inl same ↦ λ e. ground (arith, str_eq_iff x.event_id id, same, e)
      | inr j ↦ none_of v j
    ]
  ]
]

pub claim_batch-Kept :
    (now : Time) (claimer : Bytes) (limit : ℕ) (lease : Time) (s : Store) {s' : Store}
    {out : List Submission}
    → Keyed s.rows
    → claim_batch none now claimer limit lease s ≡ (s', ok out)
    → Kept (Among out) s s'
claim_batch-Kept now claimer limit lease s {s'} {out} k run id r e = elim (find_id id out) [
  | inr none_of ↦
      (r, claim_batch_frame now claimer limit lease s k run id none_of ∙ e, λ h. h, inr refl)
  | inl (v, i, same) ↦
      let (q, at, _, claimed, stored) = claim_batch_sound now claimer limit lease s k run v i in
      let again : q ≡ r = ground (arith, at, e, ap (λ (j : Bytes). lookup j s.rows) same) in
      let status : v.status ≡ r.status =
        ap (λ (u : Submission). u.status) claimed ∙ ap (λ (u : Submission). u.status) again in
      (
        v,
        ap (λ (j : Bytes). lookup j s'.rows) (sym same) ∙ stored,
        λ h. subst (λ a. is_past a ≡ true) (sym status) h,
        inl (v, i, same),
      )
]
