-- ===== src/Storno/Totals.antt =====
-- What a document amounts to, and what its reversal does (credit_note.go).
use go_stripenav.Base.{◌≡◌, refl, ap, ◌∙◌, Bool, false, Option, none, some, List, [], ◌∷◌}
use go_stripenav.Base.Int.{ℤ, pos, neg, ◌+ℤ◌, neg-+ℤ}
use go_stripenav.Storno.{
  LineItemTax, LineItem, LineList, StripeInvoice, CreditNote, flip_taxes, flip_lines,
  invoice_as_storno, credit_note_as_invoice,
}

-- The amounts of a document: of its lines, of their taxes, and of what is taxed.
pub record Totals : Type 0 where
  pub amount : ℤ
  pub tax : ℤ
  pub taxable : ℤ

abbrev pub tax_sum : List (Option LineItemTax) → ℤ
tax_sum [] = pos 0
tax_sum (none ∷ ts) = tax_sum ts
tax_sum (some t ∷ ts) = t.amount +ℤ tax_sum ts

abbrev pub taxable_sum : List (Option LineItemTax) → ℤ
taxable_sum [] = pos 0
taxable_sum (none ∷ ts) = taxable_sum ts
taxable_sum (some t ∷ ts) = t.taxable_amount +ℤ taxable_sum ts

abbrev pub line_totals : List (Option LineItem) → Totals
line_totals [] = record { amount = pos 0; tax = pos 0; taxable = pos 0 }
line_totals (none ∷ ls) = line_totals ls
line_totals (some l ∷ ls) = record {
  amount = l.amount +ℤ (line_totals ls).amount;
  tax = tax_sum l.taxes +ℤ (line_totals ls).tax;
  taxable = taxable_sum l.taxes +ℤ (line_totals ls).taxable;
}

abbrev pub list_totals : Option LineList → Totals
list_totals none = line_totals []
list_totals (some list) = line_totals list.items

abbrev pub reversed : Totals → Totals
reversed t = record { amount = neg t.amount; tax = neg t.tax; taxable = neg t.taxable }

abbrev pub truncated : Option LineList → Bool
truncated none = false
truncated (some list) = list.has_more

tax_sum-flip :
    (ts : List (Option LineItemTax))
    → (tax_sum (flip_taxes ts) ≡ neg (tax_sum ts))
      × (taxable_sum (flip_taxes ts) ≡ neg (taxable_sum ts))
unfolding flip_taxes neg
tax_sum-flip [] = (refl, refl)
tax_sum-flip (none ∷ ts) = tax_sum-flip ts
tax_sum-flip (some t ∷ ts) = (
  ap (λ s. neg t.amount +ℤ s) (tax_sum-flip ts).0 ∙ neg-+ℤ t.amount (tax_sum ts),
  ap (λ s. neg t.taxable_amount +ℤ s) (tax_sum-flip ts).1
      ∙ neg-+ℤ t.taxable_amount (taxable_sum ts),
)

-- Two negated terms of a sum.
neg_sum : (a b a' b' : ℤ) → a' ≡ neg a → b' ≡ neg b → a' +ℤ b' ≡ neg (a +ℤ b)
neg_sum a b a' b' p q = rw (p, q) (neg-+ℤ a b)

line_totals-flip :
    (ls : List (Option LineItem)) → line_totals (flip_lines ls) ≡ reversed (line_totals ls)
unfolding flip_lines neg
line_totals-flip [] = refl
line_totals-flip (none ∷ ls) = line_totals-flip ls
line_totals-flip (some l ∷ ls) =
    let rest = line_totals-flip ls in
    λ i. record {
      amount =
          neg_sum l.amount (line_totals ls).amount (neg l.amount) _ refl
            (ap (λ (t : Totals). t.amount) rest) i;
      tax =
          neg_sum (tax_sum l.taxes) (line_totals ls).tax _ _ (tax_sum-flip l.taxes).0
            (ap (λ (t : Totals). t.tax) rest) i;
      taxable =
          neg_sum (taxable_sum l.taxes) (line_totals ls).taxable _ _ (tax_sum-flip l.taxes).1
            (ap (λ (t : Totals). t.taxable) rest) i;
    }

-- A STORNO amounts to the exact reversal of the invoice, in lines, taxes and what is taxed, and it
-- is truncated when the invoice is.
pub invoice_as_storno_lem :
    (inv : StripeInvoice) (now : ℤ)
    → (list_totals (invoice_as_storno inv now).lines ≡ reversed (list_totals inv.lines))
      × (truncated (invoice_as_storno inv now).lines ≡ truncated inv.lines)
unfolding invoice_as_storno neg
invoice_as_storno_lem inv now = go inv.lines
  where
    go :
        (o : Option LineList)
        → (list_totals (invoice_as_storno (record inv { lines = o }) now).lines
            ≡ reversed (list_totals o))
          × (truncated (invoice_as_storno (record inv { lines = o }) now).lines ≡ truncated o)
    go none = (refl, refl)
    go (some list) = (line_totals-flip list.items, refl)

-- The invoice made of a credit note amounts to the exact reversal of the note, and it is truncated
-- when the note is.
pub credit_note_as_invoice_lem :
    (cn : CreditNote)
    → (list_totals (credit_note_as_invoice cn).lines ≡ reversed (list_totals cn.lines))
      × (truncated (credit_note_as_invoice cn).lines ≡ truncated cn.lines)
unfolding credit_note_as_invoice neg
credit_note_as_invoice_lem cn = go cn.lines
  where
    go :
        (o : Option LineList)
        → (list_totals (credit_note_as_invoice (record cn { lines = o })).lines
            ≡ reversed (list_totals o))
          × (truncated (credit_note_as_invoice (record cn { lines = o })).lines ≡ truncated o)
    go none = (refl, refl)
    go (some list) = (line_totals-flip list.items, refl)
