-- ===== src/Worker/Verdict.antt =====
-- overallStatus and formatValidationMessages of worker.go, over the response types of
-- nav/schemas/api.go that they read.
use go_stripenav.Base.{
  ℕ, ◌≡◌, refl, subst, inl, inr, Bool, true, false, not, ◌&&◌, ◌||◌, Option, none, some, List, [],
  ◌∷◌, ◌++◌, arith, ltb, if◌then◌else◌, Bool-cases, length, all, any, Bytes, str, str_eq,
  str_eq_iff,
}
use go_stripenav.Base.Decimal.{utoa}
use go_stripenav.Schemas.Api.{
  ValidationPointer, TechnicalValidationMessage, BusinessValidationMessage, ProcessingResult,
}

abbrev pub is_aborted : Bytes → Bool
is_aborted s = str_eq s (str "ABORTED")

abbrev pub is_finished : Bytes → Bool
is_finished s = str_eq s (str "FINISHED") || str_eq s (str "DONE")

-- The loop, with its variables `allFinal` and `pending`.
unfoldable pub overall_loop : Bool → Bytes → List ProcessingResult → Bytes
overall_loop all_final pending [] = if all_final then str "FINISHED" else pending
overall_loop all_final pending (p ∷ ps) =
    let finished = is_finished p.invoice_status in
    let rest =
      overall_loop (all_final && finished)
        (if finished then pending else if str_eq pending [] then p.invoice_status else pending)
        ps in
    if is_aborted p.invoice_status then str "ABORTED" else rest

unfoldable pub overall_status : List ProcessingResult → Bytes
unfolding overall_loop
overall_status [] = []
overall_status (p ∷ ps) = overall_loop true [] (p ∷ ps)

abbrev is_error : Bytes → Bool
is_error code = str_eq code (str "ERROR") || str_eq code (str "CRITICAL")

-- `fmt.Sprintf("[tech idx=%d %s] %s: %s", …)`.
tech_part : ℕ → TechnicalValidationMessage → Bytes
tech_part index m =
    str "[tech idx="
    ++ utoa index
    ++ str " "
    ++ m.validation_result_code
    ++ str "] "
    ++ m.validation_error_code
    ++ str ": "
    ++ m.message

tag_part : Option ValidationPointer → Bytes
tag_part none = []
tag_part (some p) = if str_eq p.tag [] then [] else str " tag=" ++ p.tag

biz_part : ℕ → BusinessValidationMessage → Bytes
unfolding tag_part
biz_part index m =
    str "[biz idx="
    ++ utoa index
    ++ str " "
    ++ m.validation_result_code
    ++ tag_part m.pointer
    ++ str "] "
    ++ m.validation_error_code
    ++ str ": "
    ++ m.message

tech_parts : ℕ → List TechnicalValidationMessage → List Bytes
unfolding tech_part
tech_parts index [] = []
tech_parts index (m ∷ ms) =
    if is_error m.validation_result_code
    then tech_part index m ∷ tech_parts index ms
    else tech_parts index ms

biz_parts : ℕ → List BusinessValidationMessage → List Bytes
unfolding biz_part
biz_parts index [] = []
biz_parts index (m ∷ ms) =
    if is_error m.validation_result_code
    then biz_part index m ∷ biz_parts index ms
    else biz_parts index ms

parts : List ProcessingResult → List Bytes
unfolding tech_parts biz_parts
parts [] = []
parts (pr ∷ prs) =
    tech_parts pr.index pr.technical_validation_messages
    ++ (biz_parts pr.index pr.business_validation_messages ++ parts prs)

-- `strings.Join(parts, "; ")`.
join : List Bytes → Bytes
join [] = []
join (p ∷ []) = p
join (p ∷ q ∷ ps) = p ++ (str "; " ++ join (q ∷ ps))

unfoldable pub format_validation_messages : List ProcessingResult → Bytes
unfolding parts join
format_validation_messages prs = join (parts prs)

finished-not_aborted : (s : Bytes) → is_finished s ≡ true → is_aborted s ≡ false
unfolding str_eq
finished-not_aborted s h = elim (Bool-cases (is_aborted s)) [
  | inr e ↦ e
  | inl e ↦ absurd (clash ((str_eq_iff s (str "ABORTED")).0 e))
]
  where
    clash : s ≡ str "ABORTED" → ⊥
    clash e = cc (subst (λ t. is_finished t ≡ true) e h)

-- While `pending` holds no final status, the loop's verdict is that of the operations to come.
overall_loop_lem :
    (all_final : Bool) (pending : Bytes) (ps : List ProcessingResult)
    → is_aborted pending ≡ false
    → is_finished pending ≡ false
    → (is_aborted (overall_loop all_final pending ps) ≡ any (λ p. is_aborted p.invoice_status) ps)
      × (is_finished (overall_loop all_final pending ps) ≡ (
          not (any (λ p. is_aborted p.invoice_status) ps)
          && (all_final && all (λ p. is_finished p.invoice_status) ps)))
unfolding overall_loop
overall_loop_lem true pending [] a f = unfold str_eq in (refl, refl)
overall_loop_lem false pending [] a f = (a, f)
overall_loop_lem all_final pending (p ∷ ps) a f = elim (Bool-cases (is_aborted p.invoice_status)) [
  | inl e ↦ rw (e, overall_loop) (unfold str_eq in (refl, refl))
  | inr e ↦ elim (Bool-cases (is_finished p.invoice_status)) [
    | inl g ↦ ground (arith, overall_loop_lem all_final pending ps a f)
    | inr g ↦ ground (
      arith,
      overall_loop_lem false pending ps a f,
      overall_loop_lem false p.invoice_status ps e g,
    )
  ]
]

-- The verdict on a transaction is ABORTED exactly when some operation aborted; it is FINISHED or
-- DONE exactly when there is an operation, none aborted and every one of them is final.
pub overall_status_lem :
    (prs : List ProcessingResult)
    → ((is_aborted (overall_status prs) ≡ any (λ p. is_aborted p.invoice_status) prs))
      × (is_finished (overall_status prs) ≡ (
          not (any (λ p. is_aborted p.invoice_status) prs)
          && (ltb 0 (length prs) && all (λ p. is_finished p.invoice_status) prs)))
unfolding overall_status
overall_status_lem [] = unfold str_eq in (refl, refl)
overall_status_lem (p ∷ ps) =
    ground
      (arith, overall_loop_lem true [] (p ∷ ps) (unfold str_eq in refl) (unfold str_eq in refl))
