-- ===== src/Store.antt =====
-- internal/storeinmem/store.go: the in-process store. Each method holds the mutex from its first
-- look at the rows to its last, so it is one step; `now` is the `time.Now()` that it reads, and
-- `ctx` the error of its context, if that is done. The order of `rows` is the order in which the
-- Go map is ranged over, which is any. A lease is a positive duration.
pub mod Table
pub mod Sort
pub mod Claims
pub mod Batch
pub mod Distinct
pub mod Fairness
pub mod Access
pub mod Lease
pub mod Calls
pub mod Exclusive
use go_stripenav.Base.{
  ℕ, zero, suc, ◌+◌, ◌-◌, ◌*◌, ◌/◌, ◌%◌, ◌^◌, ◌≤◌, ◌<◌, ◌≡◌, refl, sym, ap, ◌∙◌, subst, ◌≢◌, ◌↔◌,
  ◌⊎◌, inl, inr, Bool, true, false, not, ◌&&◌, ◌||◌, Option, none, some, List, [], ◌∷◌, ◌++◌, map,
  append-nil, append_assoc, arith, ltb, leb, ◌==◌, if◌then◌else◌, ==_iff, leb_iff, &&_split,
  Bool-cases, Option-cases, length, take, drop, replicate, head?, all, any, In, here, there, All,
  length-append, take-append, drop-append, take-append-drop, length-take, length-drop,
  length-replicate, Bytes, str, str_eq, str_eq_iff, str_eq_refl,
}
use go_stripenav.Submission.{
  Submission, Time, zero_time, Error, not_found, already_exists, claim_lost, limit_not_positive,
  claimer_required, Result, ok, err, is_terminal,
}
use Table.{Rows, lookup, insert, values}
use Sort.{sort_by_created}

pub record Store : Type 0 where
  pub rows : Rows

abbrev pub Context : Type 0
Context = Option Error

unfoldable pub new : Store
new = record { rows = [] }

-- A method returns the store and its error, or the store and its result.
unfoldable pub put : Context → Submission → Store → Store × Option Error
put (some e) sub s = (s, some e)
put none sub s = elim (lookup sub.event_id s.rows) [
  | some old ↦ (s, some already_exists)
  | none ↦ (record { rows = insert sub.event_id sub s.rows }, none)
]

unfoldable pub get : Context → Bytes → Store → Result Submission
get (some e) id s = err e
get none id s = elim (lookup id s.rows) [ none ↦ err not_found | some sub ↦ ok sub ]

-- `mut` runs under the lock, on a copy; what it logs is kept also when it fails, and there is
-- nothing to log when it does not run.
unfoldable pub update_status {ℓ} :
    {L : Type ℓ}
    → Context
    → Time
    → Bytes
    → (Submission → Result Submission × List L)
    → Store
    → Store × Option Error × List L
update_status (some e) now id mut s = (s, some e, [])
update_status none now id mut s = elim (lookup id s.rows) [
  | none ↦ (s, some not_found, [])
  | some sub ↦ elim (mut sub).0 [
    | err e ↦ (s, some e, (mut sub).1)
    | ok sub' ↦
        (record { rows = insert id (record sub' { updated_at = now }) s.rows }, none, (mut sub).1)
  ]
]

-- The three `continue`s of ClaimBatch's loop.
unfoldable pub is_claimable : Time → Submission → Bool
is_claimable now sub =
    if is_terminal sub
    then false
    else if ltb now sub.next_attempt_at
    then false
    else if not (str_eq sub.claimed_by []) && ltb now sub.claimed_until
    then false
    else true

unfoldable pub candidates : Time → List Submission → List Submission
candidates now [] = []
candidates now (sub ∷ rest) =
    if is_claimable now sub then sub ∷ candidates now rest else candidates now rest

abbrev pub claim : Bytes → Time → Time → Submission → Submission
claim claimer until now sub = record sub {
  claimed_by = claimer;
  claimed_until = until;
  updated_at = now;
}

-- The last loop: write each chosen row back with its claim.
unfoldable pub write_claims : Bytes → Time → Time → List Submission → Rows → Rows
write_claims claimer until now [] rows = rows
write_claims claimer until now (sub ∷ rest) rows =
    write_claims claimer until now rest (insert sub.event_id (claim claimer until now sub) rows)

unfoldable pub chosen : Time → ℕ → Rows → List Submission
chosen now limit rows =
    let sorted = sort_by_created (candidates now (values rows)) in
    if ltb limit (length sorted) then take limit sorted else sorted

unfoldable pub claim_batch :
    Context → Time → Bytes → ℕ → Time → Store → Store × Result (List Submission)
claim_batch (some e) now claimer limit lease s = (s, err e)
claim_batch none now claimer limit lease s =
    if limit == 0
    then (s, err limit_not_positive)
    else if str_eq claimer []
    then (s, err claimer_required)
    else (
      record { rows = write_claims claimer (now + lease) now (chosen now limit s.rows) s.rows },
      ok (map (claim claimer (now + lease) now) (chosen now limit s.rows)),
    )

unfoldable pub renew_claim : Context → Time → Bytes → Bytes → Time → Store → Store × Option Error
renew_claim (some e) now id claimer lease s = (s, some e)
renew_claim none now id claimer lease s =
    if str_eq claimer [] then (s, some claimer_required) else elim (lookup id s.rows) [
      | none ↦ (s, some not_found)
      | some sub ↦
          if str_eq sub.claimed_by claimer
          then (
            record {
              rows =
                  insert id (record sub { claimed_until = now + lease; updated_at = now }) s.rows;
            },
            none,
          )
          else (s, some claim_lost)
    ]

unfoldable pub release_claim : Context → Time → Bytes → Bytes → Store → Store × Option Error
release_claim (some e) now id claimer s = (s, some e)
release_claim none now id claimer s = elim (lookup id s.rows) [
  | none ↦ (s, some not_found)
  | some sub ↦
      if str_eq sub.claimed_by claimer
      then (
        record {
          rows =
              insert id
                (record sub { claimed_by = []; claimed_until = zero_time; updated_at = now })
                s.rows;
        },
        none,
      )
      else (s, some claim_lost)
]

unfoldable pub with_invoice_number : Bytes → List Submission → List Submission
with_invoice_number number [] = []
with_invoice_number number (sub ∷ rest) =
    if str_eq sub.invoice_number number
    then sub ∷ with_invoice_number number rest
    else with_invoice_number number rest

unfoldable pub find_by_invoice_number : Context → Bytes → Store → Result (List Submission)
find_by_invoice_number (some e) number s = err e
find_by_invoice_number none number s =
    ok (sort_by_created (with_invoice_number number (values s.rows)))
