-- ===== src/Bridge/Answers.antt =====
-- stripenav.go: what Stripe may conclude from the answer to a delivery, and redeliveries.
use go_stripenav.Base.{
  ℕ, ◌≡◌, ap, ◌∙◌, subst, ◌⊎◌, inl, inr, Bool, false, not, ◌&&◌, Option, none, some, [], arith, ltb,
  if◌then◌else◌, Bool-cases, Option-cases, length, Bytes, str, str_eq,
}
use go_stripenav.Submission.{Submission}
use go_stripenav.Store.{Store, get}
use go_stripenav.Store.Table.{lookup, lookup-insert_self}
use go_stripenav.Bridge.{
  HandlerConfig, Event, eligible_event_types, Cause, Failure, permanent, transient, Packages,
  Delivery,
}
use go_stripenav.Bridge.Deliver.{
  Outcome, ended, process_event, HttpRequest, max_body, Served, serve_http, serve_signed, status_of,
}
use go_stripenav.Bridge.Effect.{
  IsPlain, seen, with_payload, Effect, ignored, known, unread, refused, raced, stored,
  process_event-Effect,
}

-- The store that a delivery leaves when it stores nothing.
abbrev pub Unstored : Delivery → Store → Store → Type 0
Unstored dl s t = (t ≡ s) ⊎ (t ≡ seen dl s)

abbrev pub IsStored : Bytes → Store → Type 0
IsStored id t = (sub : Submission) × (lookup id t.rows ≡ some sub)

-- How an event may have been settled.
pub data Settled (dl : Delivery) (event : Event) (s : Store) (o : Outcome) : Type 0 where
  not_reported : eligible_event_types event.type ≡ none → o ≡ ended none s → Settled dl event s o
  in_store : o.failure ≡ none → IsStored event.id o.state → Settled dl event s o
  failed : (f : Failure) → o.failure ≡ some f → Unstored dl s o.state → Settled dl event s o

module _ (lib : Packages) (cfg : HandlerConfig) (has_worker : Bool) where
  settled :
      (dl : Delivery) (event : Event) (body : Bytes) (s : Store) (o : Outcome)
      → Effect lib cfg has_worker dl event body s o
      → Settled dl event s o
  settled dl event body s o (ignored e q) = not_reported e q
  settled dl event body s o (known sub l q) =
      in_store (ap (λ x. x.failure) q) (sub, ap (λ x. lookup event.id x.state.rows) q ∙ l)
  settled dl event body s o (unread x q) =
      failed _ (ap (λ x. x.failure) q) (inl (ap (λ x. x.state) q))
  settled dl event body s o (refused f q) =
      failed f (ap (λ x. x.failure) q) (inr (ap (λ x. x.state) q))
  settled dl event body s o (raced sub l q) =
      in_store (ap (λ x. x.failure) q) (sub, ap (λ x. lookup event.id x.state.rows) q ∙ l)
  settled dl event body s o (stored kind m payload el free d w q) =
      in_store (ap (λ x. x.failure) q) (
        with_payload m payload,
        ap (λ x. lookup event.id x.state.rows) q
            ∙ lookup-insert_self event.id (with_payload m payload) (seen dl s).rows,
      )

  pub process_event-Settled :
      (dl : Delivery) (event : Event) (body : Bytes) (s : Store)
      → IsPlain dl.put_ctx
      → Settled dl event s (process_event lib cfg has_worker dl event body s)
  process_event-Settled dl event body s plain =
      settled dl event body s _ (process_event-Effect lib cfg has_worker dl event body s plain)

  -- A redelivery.
  stored-again :
      (dl : Delivery) (event : Event) (body : Bytes) (s : Store)
      → dl.get_ctx ≡ none
      → (eligible_event_types event.type ≡ none) ⊎ IsStored event.id s
      → process_event lib cfg has_worker dl event body s ≡ ended none s
  unfolding process_event get
  stored-again dl event body s live (inl e) = ground (arith, e)
  stored-again dl event body s live (inr (sub, l)) =
      elim (Option-cases (eligible_event_types event.type)) [
        | inl e ↦ ground (arith, e)
        | inr (kind, e) ↦ ground (arith, e, live, l)
      ]

  -- A delivery that fails stores nothing; after one that does not, another does nothing.
  abbrev pub AtMostOnce : Delivery → Delivery → Event → Bytes → Store → Outcome → Type 0
  AtMostOnce dl later event again s o =
      ((f : Failure) × (o.failure ≡ some f) × Unstored dl s o.state)
      ⊎ ((o.failure ≡ none)
          × (process_event lib cfg has_worker later event again o.state ≡ ended none o.state))

  settled-again :
      (dl later : Delivery) (event : Event) (again : Bytes) (s : Store) (o : Outcome)
      → later.get_ctx ≡ none
      → Settled dl event s o
      → AtMostOnce dl later event again s o
  settled-again dl later event again s o live (not_reported e q) =
      inr (ap (λ x. x.failure) q, stored-again later event again o.state live (inl e))
  settled-again dl later event again s o live (in_store q i) =
      inr (q, stored-again later event again o.state live (inr i))
  settled-again dl later event again s o live (failed f q u) = inl (f, q, u)

  -- A delivery fails and stores nothing, or a later delivery of the same event, with whatever body,
  -- whose Get works changes nothing and succeeds. The Put of the first does not meet a context
  -- whose error says that the row exists.
  pub process_event_once :
      (dl later : Delivery) (event : Event) (body again : Bytes) (s : Store)
      → IsPlain dl.put_ctx
      → later.get_ctx ≡ none
      → AtMostOnce dl later event again s (process_event lib cfg has_worker dl event body s)
  process_event_once dl later event body again s plain live =
      settled-again dl later event again s _ live (process_event-Settled dl event body s plain)

  -- The event of a request, if the request has one: a POST, within the limit, signed.
  abbrev pub signed_event : HttpRequest → Option (Bytes × Event)
  signed_event r = elim r.body [
    | none ↦ none
    | some body ↦
        if str_eq r.method (str "POST")
          && (not (ltb max_body (length body)) && not (str_eq r.stripe_signature []))
        then elim (lib.construct_event body r.stripe_signature cfg.stripe_webhook_secret) [
          | none ↦ none
          | some event ↦ some (body, event)
        ]
        else none
  ]

  -- What the status of a signed event tells: it is settled, it will never succeed, or it is to be
  -- delivered again.
  pub data Answer (dl : Delivery) (event : Event) (body : Bytes) (s : Store) (r : Served)
      : Type 0 where
    acknowledged :
        r.status ≡ 200
        → (eligible_event_types event.type ≡ none) ⊎ IsStored event.id r.state
        → Answer dl event body s r
    given_up :
        (c : Cause)
        → (process_event lib cfg has_worker dl event body s).failure ≡ some (permanent c)
        → r.status ≡ 200
        → Unstored dl s r.state
        → Answer dl event body s r
    try_again :
        (c : Cause)
        → (process_event lib cfg has_worker dl event body s).failure ≡ some (transient c)
        → r.status ≡ 503
        → Unstored dl s r.state
        → Answer dl event body s r

  abbrev served : Outcome → Served
  served o = record {
    status = status_of lib cfg has_worker o.failure;
    state = o.state;
    woken = o.woken;
  }

  answer :
      (dl : Delivery) (event : Event) (body : Bytes) (s : Store)
      → Settled dl event s (process_event lib cfg has_worker dl event body s)
      → Answer dl event body s (served (process_event lib cfg has_worker dl event body s))
  answer dl event body s (not_reported e q) = acknowledged (ap (λ x. (served x).status) q) (inl e)
  answer dl event body s (in_store q i) = acknowledged (ap (status_of lib cfg has_worker) q) (inr i)
  answer dl event body s (failed (permanent c) q u) =
      given_up c q (ap (status_of lib cfg has_worker) q) u
  answer dl event body s (failed (transient c) q u) =
      try_again c q (ap (status_of lib cfg has_worker) q) u

  abbrev pub refusal : ℕ → Store → Served
  refusal status s = record { status = status; state = s; woken = false }

  abbrev pub Unsigned : HttpRequest → Store → Served → Type 0
  Unsigned r s v = (signed_event r ≡ none) × ((v ≡ refusal 400 s) ⊎ (v ≡ refusal 405 s))

  abbrev pub Signed : Delivery → HttpRequest → Store → Served → Type 0
  Signed dl r s v =
      (body : Bytes) × (event : Event) × (signed_event r ≡ some (body, event))
      × Answer dl event body s v

  -- What Stripe may conclude from an answer. A request without a signed event (a POST within the
  -- limit, with a signature that verifies) is answered with 400 or 405 and changes nothing. Of a
  -- signed event, 200 means that it is not of a reported type, or that its row stands in the store,
  -- or that its failure is permanent, and 503 that its failure is transient; a failed delivery
  -- stores nothing. Others may change the store during the delivery; its Put does not meet a
  -- context whose error says that the row exists.
  pub serve_http-Answer :
      (dl : Delivery) (r : HttpRequest) (s : Store)
      → IsPlain dl.put_ctx
      → Unsigned r s (serve_http lib cfg has_worker dl r s)
        ⊎ Signed dl r s (serve_http lib cfg has_worker dl r s)
  unfolding serve_http serve_signed
  serve_http-Answer dl r s plain = elim (Bool-cases (str_eq r.method (str "POST"))) [
    | inr m ↦ inl (other_method m, inr (ground (arith, m)))
    | inl m ↦ elim (Option-cases r.body) [
      | inl b ↦ inl (ground (arith, b), inl (ground (arith, m, b)))
      | inr (body, b) ↦ elim (Bool-cases (fits body)) [
        | inr g ↦ inl (ground (arith, b, m, g), inl (ground (arith, m, b, g)))
        | inl g ↦
            elim (Option-cases
              (lib.construct_event body r.stripe_signature cfg.stripe_webhook_secret)) [
                | inl c ↦ inl (ground (arith, b, m, g, c), inl (ground (arith, m, b, g, c)))
                | inr (event, c) ↦ inr (
                  body,
                  event,
                  ground (arith, b, m, g, c),
                  subst (Answer dl event body s) (ground (arith, m, b, g, c))
                      (answer dl event body s (process_event-Settled dl event body s plain)),
                )
              ]
      ]
    ]
  ]
    where
      fits : Bytes → Bool
      fits body = not (ltb max_body (length body)) && not (str_eq r.stripe_signature [])

      other_method : str_eq r.method (str "POST") ≡ false → signed_event r ≡ none
      other_method m = elim (Option-cases r.body) [
        | inl b ↦ ground (arith, b)
        | inr (body, b) ↦ ground (arith, b, m)
      ]
