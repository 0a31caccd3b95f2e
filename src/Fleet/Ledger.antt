-- ===== src/Fleet/Ledger.antt =====
-- How many submissions of a row were answered, and whether the row may still be submitted.
use go_stripenav.Base.{
  ℕ, suc, ◌+◌, ◌≤◌, ◌≡◌, refl, inl, inr, Bool, false, not, ◌&&◌, Option, none, some, List, [], ◌∷◌,
  ◌++◌, arith, if◌then◌else◌, Bool-cases, Option-cases, Bytes, str_eq,
}
use go_stripenav.Submission.{Submission, submitted}
use go_stripenav.Submission.Machine.{is_past}
use go_stripenav.Store.{Store}
use go_stripenav.Store.Table.{lookup}
use go_stripenav.Worker.World.{Sent}
use go_stripenav.Worker.Sending.{is_query, Quiet}
use go_stripenav.Fleet.{logged}
use go_stripenav.Fleet.Rows.{Kept}

abbrev pub is_filing : Sent → Bool
is_filing t = not (is_query t.request) && t.is_answered

-- The answered submissions of the row.
unfoldable pub filed : Bytes → List (Bytes × Sent) → ℕ
filed k [] = 0
filed k ((id, t) ∷ log) = if str_eq id k && is_filing t then suc (filed k log) else filed k log

-- 1 while the row is pending, or is not there yet.
unfoldable pub room : Option Submission → ℕ
room none = 1
room (some r) = if is_past r.status then 0 else 1

pub filed_none : (k : Bytes) → filed k [] ≡ 0
unfolding filed
filed_none k = refl

pub room-le : (o : Option Submission) → room o ≤ 1
unfolding room
room-le none = omega arith
room-le (some r) = ground arith

pub room-past : (r : Submission) → r.status ≡ submitted → room (some r) ≡ 0
unfolding room
room-past r e = ground arith

pub room-fresh : (r : Submission) → is_past r.status ≡ false → room (some r) ≡ 1
unfolding room
room-fresh r e = rw e refl

pub filed-append :
    (k : Bytes) (xs ys : List (Bytes × Sent)) → filed k (xs ++ ys) ≡ filed k xs + filed k ys
unfolding filed
filed-append k [] ys = omega arith
filed-append k ((id, t) ∷ xs) ys = ground (arith, filed-append k xs ys)

pub filed-other : (k id : Bytes) (ts : List Sent) → str_eq id k ≡ false → filed k (logged id ts) ≡ 0
unfolding filed
filed-other k id [] e = refl
filed-other k id (t ∷ ts) e = rw e (filed-other k id ts e)

pub filed-Quiet : (k id : Bytes) (ts : List Sent) → Quiet ts → filed k (logged id ts) ≡ 0
unfolding filed
filed-Quiet k id [] q = refl
filed-Quiet k id (t ∷ ts) q = ground (arith, q.0, filed-Quiet k id ts q.1)

-- One submission counts at most once, and not at all if NAV refused it.
pub filed_one :
    (k id : Bytes) (t : Sent)
    → (filed k (logged id (t ∷ [])) ≤ 1)
      × (t.is_answered ≡ false → filed k (logged id (t ∷ [])) ≡ 0)
unfolding filed
filed_one k id t = (ground arith, λ e. ground arith)

pub room-Kept :
    (Own : Bytes → Type 0) (s s' : Store) (k : Bytes)
    → Kept Own s s'
    → room (lookup k s'.rows) ≤ room (lookup k s.rows)
unfolding room
room-Kept Own s s' k kept = elim (Option-cases (lookup k s.rows)) [
  | inl e ↦ rw e (room-le (lookup k s'.rows))
  | inr (r, e) ↦
      let (r', e', past, _) = kept k r e in
      rw (e, e')
        (elim (Bool-cases (is_past r.status)) [
          | inl p ↦ rw (p, past p) (omega arith)
          | inr p ↦ rw p (room-le (some r'))
        ])
]
