-- ===== src/Storno.antt =====
-- credit_note.go: the documents that reverse or correct an invoice. Of Stripe's structures there are
-- the fields that the modelled code reads; a nil pointer is `none`, and times are Unix seconds.
pub mod Totals
use go_stripenav.Base.{◌+◌, ◌-◌, Bool, false, Option, none, some, List, [], ◌∷◌, ◌++◌, Bytes, str}
use go_stripenav.Base.Int.{ℤ, pos, neg}
use go_stripenav.Schemas.{InvoiceAnnulment}
use go_stripenav.Submission.{Time}

pub record LineItemTax : Type 0 where
  pub amount : ℤ
  pub taxable_amount : ℤ
  pub tax_behavior : Bytes

pub record LineItem : Type 0 where
  pub description : Bytes
  pub amount : ℤ
  pub quantity : ℤ
  pub taxes : List (Option LineItemTax)

pub record LineList : Type 0 where
  pub has_more : Bool
  pub items : List (Option LineItem)

pub record StripeAddress : Type 0 where
  pub line1 : Bytes
  pub line2 : Bytes
  pub postal_code : Bytes
  pub city : Bytes
  pub country : Bytes

pub record CustomerTaxId : Type 0 where
  pub type : Option Bytes
  pub value : Bytes

pub record StripeInvoice : Type 0 where
  pub number : Bytes
  pub currency : Bytes
  pub created : ℤ
  pub effective_at : ℤ
  pub finalized_at : Option ℤ
  pub period_start : ℤ
  pub period_end : ℤ
  pub due_date : ℤ
  pub customer_name : Bytes
  pub customer_address : Option StripeAddress
  pub customer_tax_ids : List (Option CustomerTaxId)
  pub lines : Option LineList

pub record CreditNote : Type 0 where
  pub number : Bytes
  pub currency : Bytes
  pub created : ℤ
  pub effective_at : ℤ
  pub customer_name : Option Bytes
  pub invoice_number : Option Bytes
  pub lines : Option LineList

-- The loop over the taxes of a line.
unfoldable pub flip_taxes : List (Option LineItemTax) → List (Option LineItemTax)
flip_taxes [] = []
flip_taxes (none ∷ ts) = flip_taxes ts
flip_taxes (some t ∷ ts) =
    some (record {
      amount = neg t.amount;
      taxable_amount = neg t.taxable_amount;
      tax_behavior = t.tax_behavior;
    })
    ∷ flip_taxes ts

-- The loop over the lines.
unfoldable pub flip_lines : List (Option LineItem) → List (Option LineItem)
unfolding flip_taxes
flip_lines [] = []
flip_lines (none ∷ ls) = flip_lines ls
flip_lines (some l ∷ ls) =
    some (record {
      description = l.description;
      amount = neg l.amount;
      quantity = l.quantity;
      taxes = flip_taxes l.taxes;
    })
    ∷ flip_lines ls

unfoldable pub invoice_as_storno : StripeInvoice → ℤ → StripeInvoice
unfolding flip_lines
invoice_as_storno inv now = record inv {
  number = inv.number ++ str "-STORNO";
  finalized_at = some now;
  lines = elim inv.lines [
    | none ↦ none
    | some list ↦ some (record { has_more = list.has_more; items = flip_lines list.items })
  ];
}

-- `format` is `time.Time.Format` with the layout of NAV's timestamps, in UTC.
unfoldable pub build_annulment_record : (Time → Bytes) → Bytes → Bytes → Time → InvoiceAnnulment
build_annulment_record format invoice_number reason now = record {
  annulment_reference = invoice_number;
  annulment_timestamp = format now;
  annulment_code = str "ERRATIC_DATA";
  annulment_reason = reason;
}

unfoldable pub credit_note_as_invoice : CreditNote → StripeInvoice
unfolding flip_lines
credit_note_as_invoice cn = record {
  number = cn.number;
  currency = cn.currency;
  created = cn.created;
  effective_at = pos 0;
  finalized_at = some cn.effective_at;
  period_start = pos 0;
  period_end = pos 0;
  due_date = pos 0;
  customer_name = elim cn.customer_name [ none ↦ [] | some name ↦ name ];
  customer_address = none;
  customer_tax_ids = [];
  lines = elim cn.lines [
    | none ↦ some (record { has_more = false; items = [] })
    | some list ↦ some (record { has_more = list.has_more; items = flip_lines list.items })
  ];
}
