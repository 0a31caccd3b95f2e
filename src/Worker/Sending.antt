-- ===== src/Worker/Sending.antt =====
-- The order of what a worker sends to NAV.
use go_stripenav.Base.{
  ◌≡◌, sym, ◌∙◌, subst, Bool, true, false, not, ◌&&◌, List, [], ◌∷◌, ◌++◌, append-nil, All,
}
use go_stripenav.Worker.World.{Request, queries_status, Sent}

abbrev pub is_query : Request → Bool
is_query (queries_status t) = true
is_query _ = false

-- Nothing but status queries.
abbrev pub Quiet : List Sent → Type 0
Quiet ts = All (λ (t : Sent). is_query t.request ≡ true) ts

-- An answered submission is the last one: only status queries follow it.
abbrev pub Pick : Bool → Type 0 → Type 0 → Type 0
Pick true P Q = P
Pick false P Q = Q

abbrev pub Once : List Sent → Type 0
Once [] = Unit {0}
Once (t ∷ ts) = Pick (not (is_query t.request) && t.is_answered) (Quiet ts) (Once ts)

pub is_submission :
    (t : Sent)
    → is_query t.request ≡ false
    → (not (is_query t.request) && t.is_answered) ≡ t.is_answered
is_submission t h = rw h

-- A submission in front, by NAV's answer.
pub Once-taken :
    (t : Sent) (ts : List Sent)
    → is_query t.request ≡ false
    → t.is_answered ≡ true
    → Quiet ts
    → Once (t ∷ ts)
Once-taken t ts h a q = subst (λ b. Pick b (Quiet ts) (Once ts)) (sym (is_submission t h ∙ a)) q

pub Once-refused :
    (t : Sent) (ts : List Sent)
    → is_query t.request ≡ false
    → t.is_answered ≡ false
    → Once ts
    → Once (t ∷ ts)
Once-refused t ts h a q = subst (λ b. Pick b (Quiet ts) (Once ts)) (sym (is_submission t h ∙ a)) q

pub Quiet-Once : (ts : List Sent) → Quiet ts → Once ts
Quiet-Once [] h = tt
Quiet-Once (t ∷ ts) h =
    subst (λ b. Pick (not b && t.is_answered) (Quiet ts) (Once ts)) (sym h.0) (Quiet-Once ts h.1)

pub Quiet-append : (xs ys : List Sent) → Quiet xs → Quiet ys → Quiet (xs ++ ys)
Quiet-append [] ys h k = k
Quiet-append (x ∷ xs) ys h k = (h.0, Quiet-append xs ys h.1 k)

-- What was sent grows by a list with the property.
abbrev pub Extends : (List Sent → Type 0) → List Sent → List Sent → Type 0
Extends P xs ys = (ts : List Sent) × (ys ≡ xs ++ ts) × P ts

pub Extends-none : (P : List Sent → Type 0) (xs ys : List Sent) → P [] → ys ≡ xs → Extends P xs ys
Extends-none P xs ys p e = ([], e ∙ sym (append-nil xs), p)
