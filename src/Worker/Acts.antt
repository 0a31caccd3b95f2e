-- ===== src/Worker/Acts.antt =====
-- What a turn of a lifecycle of worker.go may do to the rows of the store: the relation, and that a
-- call of UpdateStatus keeps to it.
use go_stripenav.Base.{
  ◌≡◌, refl, ap, ◌∙◌, subst, ◌⊎◌, inl, inr, some, arith, Bool-cases, Bytes, str_eq, str_eq_iff,
}
use go_stripenav.Submission.{Submission, Status}
use go_stripenav.Submission.Machine.{Moves, stop, move}
use go_stripenav.Worker.Effects.{Mutator, Update, wrote, failed}
use go_stripenav.Worker.Mutators.{Lawful}
use go_stripenav.Worker.World.{Outside, World, Round}
use go_stripenav.Worker.Actions.{update_status}

Moves-append : {a b c : Status} → Moves a b → Moves b c → Moves a c
Moves-append stop q = q
Moves-append (move m p) q = move m (Moves-append p q)

module _ (out : Outside) where
  open out.store use {State, row, IsSound}

  -- Every row that is there stays, under its event id, and its status goes along the machine.
  abbrev pub Evolves : State → State → Type 0
  Evolves s s' =
      (id : Bytes) (r : Submission)
      → row id s ≡ some r
      → (r' : Submission) × (row id s' ≡ some r')
        × Moves r.status r'.status
        × (r'.event_id ≡ r.event_id)

  pub Evolves-refl : (s : State) → Evolves s s
  Evolves-refl s id r e = (r, e, stop, refl)

  pub Evolves-trans : {s t u : State} → Evolves s t → Evolves t u → Evolves s u
  Evolves-trans f g id r e =
      let (r', e', m, i) = f id r e in
      let (r'', e'', m', i') = g id r' e' in (r'', e'', Moves-append m m', i' ∙ i)

  -- What a turn of the lifecycle of `k` does: it writes at most the row of `k`, and keeps its event
  -- id and its claim.
  abbrev pub Acts : Bytes → State → State → Type 0
  Acts k s s' =
      (IsSound s → IsSound s')
      × ((id : Bytes) (r : Submission)
          → row id s ≡ some r
          → (r' : Submission) × (row id s' ≡ some r')
            × Moves r.status r'.status
            × (r'.event_id ≡ r.event_id)
            × (r'.claimed_by ≡ r.claimed_by)
            × (r'.claimed_until ≡ r.claimed_until)
            × ((k ≡ id) ⊎ (r' ≡ r)))

  pub Acts-refl : (k : Bytes) (s : State) → Acts k s s
  Acts-refl k s = (λ h. h, λ id r e. (r, e, stop, refl, refl, refl, inr refl))

  pub Acts-trans : {s t u : State} (k : Bytes) → Acts k s t → Acts k t u → Acts k s u
  Acts-trans k (kept, f) (kept', g) = (
    λ h. kept' (kept h),
    λ id r e.
        let (r', e', m, i, by, until, own) = f id r e in
        let (r'', e'', m', i', by', until', own') = g id r' e' in
        (
          r'',
          e'',
          Moves-append m m',
          i' ∙ i,
          by' ∙ by,
          until' ∙ until,
          elim own [
            | inl mine ↦ inl mine
            | inr same ↦ elim own' [ inl mine ↦ inl mine | inr same' ↦ inr (same' ∙ same) ]
          ],
        ),
  )

  pub Acts-Evolves : (k : Bytes) (s s' : State) → Acts k s s' → Evolves s s'
  Acts-Evolves k s s' (_, f) id r e = let (r', e', m, i, _, _, _) = f id r e in (r', e', m, i)

  pub update-Acts :
      (rd : Round out) (id : Bytes) (mut : Mutator) (wd : World out)
      → Lawful mut
      → Acts id wd.state (update_status out rd id mut wd).state
  unfolding update_status
  update-Acts rd id mut wd law = (
    out.store.update-IsSound rd.write_ctx rd.stamped_at id mut wd.state λ s t h. (law s t h).1,
    λ j r e. go j r e (out.store.update_lem rd.write_ctx rd.stamped_at id mut wd.state),
  )
    where
      Goal : Bytes → Submission → Type 0
      Goal j r =
          (r' : Submission) × (row j (out.store.update rd.write_ctx rd.stamped_at id mut wd.state).0
            ≡ some r')
          × Moves r.status r'.status
          × (r'.event_id ≡ r.event_id)
          × (r'.claimed_by ≡ r.claimed_by)
          × (r'.claimed_until ≡ r.claimed_until)
          × ((id ≡ j) ⊎ (r' ≡ r))

      go :
          (j : Bytes) (r : Submission)
          → row j wd.state ≡ some r
          → Update row rd.stamped_at id mut wd.state
              (out.store.update rd.write_ctx rd.stamped_at id mut wd.state)
          → Goal j r
      go j r e (failed x _ same) = (r, same j ∙ e, stop, refl, refl, refl, inr refl)
      go j r e (wrote sub t p q _ _ rows) = elim (Bool-cases (str_eq id j)) [
        | inr miss ↦ (r, ground (arith, rows j), stop, refl, refl, refl, inr refl)
        | inl hit ↦
            let own : id ≡ j = (str_eq_iff id j).0 hit in
            let same : sub ≡ r = ground (arith, p, e, ap (λ (i : Bytes). row i wd.state) own) in
            let (m, i, by, until) = law sub t q in
            (
              record t { updated_at = rd.stamped_at },
              ground (arith, rows j),
              subst (λ u. Moves u.status t.status) same
                  (elim m [ inl mv ↦ move mv stop | inr k ↦ subst (λ a. Moves a t.status) k stop ]),
              i ∙ ap (λ (u : Submission). u.event_id) same,
              by ∙ ap (λ (u : Submission). u.claimed_by) same,
              until ∙ ap (λ (u : Submission). u.claimed_until) same,
              inl own,
            )
      ]
