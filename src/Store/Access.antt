-- ===== src/Store/Access.antt =====
-- Put, Get, UpdateStatus and FindByInvoiceNumber of internal/storeinmem/store.go.
use go_stripenav.Base.{
  ◌≡◌, sym, subst, ◌↔◌, ◌⊎◌, inl, inr, none, some, List, [], ◌∷◌, arith, if◌then◌else◌, Bool-cases,
  Option-cases, In, here, there, Bytes, str_eq, str_eq_iff, In-cons,
}
use go_stripenav.Submission.{
  Submission, Time, Error, not_found, already_exists, Result, Result-cases, ok, err,
}
use go_stripenav.Store.{Store, put, get, update_status, find_by_invoice_number, with_invoice_number}
use go_stripenav.Store.Table.{lookup, values, lookup-insert, Keyed, lookup-In, In-lookup}
use go_stripenav.Store.Sort.{IsSorted, sort-IsSorted, sort-In, In-sort, sort_by_created}

-- A Put of a new event id stores the submission, so that Get returns it, and leaves every other
-- row; a Put of an id that is present returns ErrAlreadyExists and leaves the store.
pub get-put :
    (sub : Submission) (s : Store)
    → ((get none sub.event_id s ≡ err not_found)
        × ((put none sub s).1 ≡ none)
        × ((id : Bytes)
            → get none id (put none sub s).0
              ≡ (if str_eq sub.event_id id then ok sub else get none id s)))
      ⊎ ((old : Submission) × (get none sub.event_id s ≡ ok old)
          × (put none sub s ≡ (s, some already_exists)))
unfolding get put
get-put sub s = elim (Option-cases (lookup sub.event_id s.rows)) [
  | inl e ↦
      inl
        (ground arith, ground arith, λ id. ground (arith, lookup-insert sub.event_id id sub s.rows))
  | inr (old, e) ↦ inr (old, ground arith, ground arith)
]

-- UpdateStatus is all or nothing: a mutator that succeeds has its row written, stamped with the
-- time, and every other row left; any failure, of the lookup or of the mutator, leaves the store.
pub update_status_atomic {ℓ} :
    {L : Type ℓ} (now : Time) (id : Bytes) (mut : Submission → Result Submission × List L)
    (s : Store)
    → ((r t : Submission) × (get none id s ≡ ok r)
        × ((mut r).0 ≡ ok t)
        × ((update_status none now id mut s).1 ≡ none)
        × ((j : Bytes)
            → get none j (update_status none now id mut s).0
              ≡ (if str_eq id j then ok (record t { updated_at = now }) else get none j s)))
      ⊎ ((e : Error) × ((update_status none now id mut s).1 ≡ some e)
          × ((update_status none now id mut s).0 ≡ s))
unfolding get update_status
update_status_atomic now id mut s = elim (Option-cases (lookup id s.rows)) [
  | inl e ↦ inr (not_found, ground arith, ground arith)
  | inr (r, e) ↦ elim (Result-cases (mut r).0) [
    | inl (t, q) ↦ inl (
      r,
      t,
      ground arith,
      q,
      ground arith,
      λ j. ground (arith, lookup-insert id j (record t { updated_at = now }) s.rows),
    )
    | inr (x, q) ↦ inr (x, ground arith, ground arith)
  ]
]

In-with_invoice_number :
    (number : Bytes) (xs : List Submission) {v : Submission}
    → In v (with_invoice_number number xs)
    → In v xs × (v.invoice_number ≡ number)
unfolding with_invoice_number
In-with_invoice_number number [] i = elim i [ ]
In-with_invoice_number number (x ∷ xs) {v} i = elim (Bool-cases (str_eq x.invoice_number number)) [
  | inl e ↦ elim (In-cons (rw (e, with_invoice_number) at i)) [
    | inl same ↦ (subst (λ u. In u (x ∷ xs)) (sym same) here, rw same ((str_eq_iff _ _).0 e))
    | inr j ↦ let (k, c) = In-with_invoice_number number xs j in (there k, c)
  ]
  | inr e ↦
      let (j, c) = In-with_invoice_number number xs (rw (e, with_invoice_number) at i) in
      (there j, c)
]

with_invoice_number-In :
    (number : Bytes) (xs : List Submission) {v : Submission}
    → In v xs
    → v.invoice_number ≡ number
    → In v (with_invoice_number number xs)
unfolding with_invoice_number
with_invoice_number-In number [] i e = elim i [ ]
with_invoice_number-In number (x ∷ xs) here e = rw ((str_eq_iff _ _).1 e) here
with_invoice_number-In number (x ∷ xs) (there i) e =
    elim (Bool-cases (str_eq x.invoice_number number)) [
      | inl q ↦ rw q (there (with_invoice_number-In number xs i e))
      | inr q ↦ rw q (with_invoice_number-In number xs i e)
    ]

-- In a store that keeps every row under its own id, FindByInvoiceNumber returns exactly the stored
-- submissions of that invoice number, each as it is stored under its id, in the order of their
-- creation.
pub find_by_invoice_number_lem :
    (number : Bytes) (s : Store) {out : List Submission}
    → Keyed s.rows
    → find_by_invoice_number none number s ≡ ok out
    → IsSorted out
      × ((v : Submission)
          → In v out ↔ ((lookup v.event_id s.rows ≡ some v) × (v.invoice_number ≡ number)))
unfolding find_by_invoice_number
find_by_invoice_number_lem number s {out} k run =
    let e : out ≡ sort_by_created (with_invoice_number number (values s.rows)) = ground arith in
    rw e (
      sort-IsSorted _,
      λ v. (
        λ i.
            let (j, c) = In-with_invoice_number number (values s.rows) (In-sort _ i) in
            (In-lookup s.rows k j, c),
        λ p. sort-In _ (with_invoice_number-In number _ (lookup-In s.rows v.event_id p.0) p.1),
      ),
    )
