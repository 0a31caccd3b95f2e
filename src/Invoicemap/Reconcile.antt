-- ===== src/Invoicemap/Reconcile.antt =====
-- internal/invoicemap/mapping.go, reconciled: printed amounts, with the gross amount made of the
-- printed net and VAT. `set_string` is `(*big.Rat).SetString`.
pub mod Exact
use go_stripenav.Base.{Option, none, some, Bytes}
use go_stripenav.Invoicemap.Rational.{Rat, zero_rat, add}
use go_stripenav.Invoicemap.Currency.{format_amount, format_huf}

pub record Printed : Type 0 where
  pub net_text : Bytes
  pub vat_text : Bytes
  pub gross_text : Bytes

module _ (set_string : Bytes → Option Rat) where
  -- A text that was just printed is read back. Of a text that is not a number SetString returns nil,
  -- which the code would go on to use; here it counts as 0.
  abbrev pub read_back : Bytes → Rat
  read_back t = elim (set_string t) [ some r ↦ r | none ↦ zero_rat ]

  unfoldable pub reconciled : Rat → Rat → (Rat → Bytes) → Printed
  reconciled net vat format = record {
    net_text = format net;
    vat_text = format vat;
    gross_text = format (add (read_back (format net)) (read_back (format vat)));
  }

  unfoldable pub reconciled_net_vat_gross : Rat → Rat → Bytes → Printed
  unfolding reconciled
  reconciled_net_vat_gross net vat currency = reconciled net vat (λ r. format_amount r currency)

  unfoldable pub reconciled_net_vat_gross_huf : Rat → Rat → Printed
  unfolding reconciled
  reconciled_net_vat_gross_huf net vat = reconciled net vat format_huf
