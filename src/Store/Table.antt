-- ===== src/Store/Table.antt =====
-- The Go map of internal/storeinmem/store.go as a list of entries, and the laws of its operations.
use go_stripenav.Base.{
  ◌≡◌, refl, subst, ◌≢◌, inl, inr, Option, none, some, List, [], ◌∷◌, arith, if◌then◌else◌,
  Bool-cases, In, here, there, Bytes, str_eq, str_eq_iff, str_eq_refl,
}
use go_stripenav.Submission.{Submission}

abbrev pub Rows : Type 0
Rows = List (Bytes × Submission)

unfoldable pub lookup : Bytes → Rows → Option Submission
lookup k [] = none
lookup k ((j, v) ∷ m) = if str_eq j k then some v else lookup k m

unfoldable pub insert : Bytes → Submission → Rows → Rows
insert k v [] = (k, v) ∷ []
insert k v ((j, w) ∷ m) = if str_eq j k then (k, v) ∷ m else (j, w) ∷ insert k v m

abbrev pub values : Rows → List Submission
values [] = []
values ((k, v) ∷ m) = v ∷ values m

pub lookup-insert :
    (k j : Bytes) (v : Submission) (m : Rows)
    → lookup j (insert k v m) ≡ (if str_eq k j then some v else lookup j m)
unfolding lookup insert
lookup-insert k j v [] = refl
lookup-insert k j v ((i, w) ∷ m) =
    ground
      (arith, str_eq_iff k j, str_eq_iff i k, str_eq_iff i j, lookup-insert k j v m, str_eq_refl k)

pub lookup-insert_self : (k : Bytes) (v : Submission) (m : Rows) → lookup k (insert k v m) ≡ some v
lookup-insert_self k v m = rw (lookup-insert k k v m, str_eq_refl k)

pub lookup-insert_ne :
    (k j : Bytes) (v : Submission) (m : Rows) → k ≢ j → lookup j (insert k v m) ≡ lookup j m
lookup-insert_ne k j v m h = ground (arith, lookup-insert k j v m, str_eq_iff k j)

-- Every row stands under its own event id, and no two rows share an id.
abbrev pub Keyed : Rows → Type 0
Keyed [] = Unit {0}
Keyed ((k, v) ∷ m) = (v.event_id ≡ k) × (lookup k m ≡ none) × Keyed m

pub insert-Keyed :
    (k : Bytes) (v : Submission) (m : Rows) → v.event_id ≡ k → Keyed m → Keyed (insert k v m)
unfolding insert lookup
insert-Keyed k v [] e h = (e, refl, tt)
insert-Keyed k v ((j, w) ∷ m) e h =
    ground (arith, insert-Keyed k v m e h.2, lookup-insert k j v m, str_eq_iff j k, str_eq_iff k j)

-- What a keyed map ranges over is exactly what it looks up.
pub In-lookup :
    (m : Rows) → Keyed m → {v : Submission} → In v (values m) → lookup v.event_id m ≡ some v
unfolding lookup
In-lookup [] h i = elim i [ ]
In-lookup ((k, v) ∷ m) h here = ground (arith, str_eq_iff k v.event_id)
In-lookup ((k, w) ∷ m) h {v} (there i) = ground (arith, In-lookup m h.2 i, str_eq_iff k v.event_id)

pub lookup-In : (m : Rows) (k : Bytes) {v : Submission} → lookup k m ≡ some v → In v (values m)
unfolding lookup
lookup-In [] k h = cc
lookup-In ((j, w) ∷ m) k {v} h = elim (Bool-cases (str_eq j k)) [
  | inl e ↦ subst (λ u. In u (w ∷ values m)) (ground arith) here
  | inr e ↦ there (lookup-In m k (ground arith))
]

pub lookup_id :
    (m : Rows) (k : Bytes) {v : Submission} → Keyed m → lookup k m ≡ some v → v.event_id ≡ k
unfolding lookup
lookup_id [] k h e = cc
lookup_id ((j, w) ∷ m) k {v} h e = ground (arith, str_eq_iff j k, lookup_id m k {v = v} h.2)
