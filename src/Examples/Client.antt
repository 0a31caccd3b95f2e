-- ===== src/Examples/Client.antt =====
-- Concrete runs of the theorems about the NAV client and about reversals.
use go_stripenav.Base.{
  ℕ, ◌≤◌, ◌<◌, ◌≡◌, refl, ◌↔◌, inl, true, false, none, some, [], ◌∷◌, ◌++◌, replicate, Bytes, str,
  str_eq, Option, ◌==◌,
}
use go_stripenav.Base.Int.{pos}
use go_stripenav.Nav.{reply}
use go_stripenav.Navclient.Replies.{Decoder, read_response, read_response_lem}
use go_stripenav.Navclient.Token.{unpad_pkcs7, unpad_pkcs7_lem}
use go_stripenav.Navclient.Config.{
  Software, Config, new_client, strip_non_digits, trim_slashes, drop_slashes, new_limiter,
}
use go_stripenav.Storno.{
  LineItemTax, LineItem, StripeInvoice, CreditNote, invoice_as_storno, credit_note_as_invoice,
}
use go_stripenav.Storno.Totals.{
  list_totals, reversed, truncated, invoice_as_storno_lem, credit_note_as_invoice_lem,
}
use mathlib.Core.List.{List, map}
use go_stripenav.Storno.{flip_lines}
use go_stripenav.Invoicemap.Rational.{Rat}
use go_stripenav.Invoicemap.Lines.{build_totals}
use go_stripenav.Invoicemap.Lines.Reversal.{negate_bucket, negate_totals, build_totals-flip}

-- A decoder that takes a body for the transaction id.
abbrev plain : Decoder Bytes
plain = record {
  exception = λ b. none;
  extract_basic_result = λ b. record { func_code = str "OK"; error_code = []; message = [] };
  unmarshal = λ b. inl b;
}

read_response_lem_example : (read_response plain 200 (str "T1") ≡ reply (str "T1")) ↔ (
    (200 < 400)
    × (plain.unmarshal (str "T1") ≡ inl (str "T1"))
    × (str_eq (plain.extract_basic_result (str "T1")).func_code (str "ERROR") ≡ false))
read_response_lem_example = read_response_lem plain 200 (str "T1") (str "T1")

unpad_pkcs7_lem_example :
    (unpad_pkcs7 (str "token" ++ replicate 3 3) 16 ≡ inl (str "token"))
    ↔ ((n : ℕ) × (0 < n) × (n ≤ 16) × (str "token" ++ replicate 3 3 ≡ str "token" ++ replicate n n))
unpad_pkcs7_lem_example = unpad_pkcs7_lem (str "token" ++ replicate 3 3) (str "token") 16

abbrev software : Software
software = record {
  id = str "HU12345678";
  name = str "bridge";
  operation = str "ONLINE_SERVICE";
  main_version = str "1";
  dev_name = [];
  dev_contact = [];
  dev_country_code = [];
  dev_tax_number = [];
}

abbrev pub config : Config
config = record {
  base_url = str "https://nav/";
  login = str "user";
  password = str "secret";
  tax_number = str "12345678-2-42";
  sign_key = str "key";
  exchange_key = str "0123456789abcdef";
  software = software;
}

abbrev pub ready : Config
ready = record config { tax_number = str "12345678"; base_url = str "https://nav" }

made : new_client config ≡ inl ready
unfolding new_client strip_non_digits trim_slashes drop_slashes str_eq
made = refl

abbrev tax : LineItemTax
tax = record { amount = pos 270; taxable_amount = pos 1000; tax_behavior = str "exclusive" }

abbrev pub line : LineItem
line = record {
  description = str "plan";
  amount = pos 1000;
  quantity = pos 1;
  taxes = some tax ∷ none ∷ [];
}

abbrev pub invoice : StripeInvoice
invoice = record {
  number = str "A-1";
  currency = str "eur";
  created = pos 5;
  effective_at = pos 5;
  finalized_at = some (pos 6);
  period_start = pos 0;
  period_end = pos 0;
  due_date = pos 0;
  customer_name = str "Kft";
  customer_address = none;
  customer_tax_ids = [];
  lines = some (record { has_more = true; items = some line ∷ none ∷ some line ∷ [] });
}

invoice_as_storno_lem_example :
    (list_totals (invoice_as_storno invoice (pos 9)).lines ≡ reversed (list_totals invoice.lines))
    × (truncated (invoice_as_storno invoice (pos 9)).lines ≡ truncated invoice.lines)
invoice_as_storno_lem_example = invoice_as_storno_lem invoice (pos 9)

abbrev pub note : CreditNote
note = record {
  number = str "CN-1";
  currency = str "eur";
  created = pos 7;
  effective_at = pos 8;
  customer_name = none;
  invoice_number = some (str "A-1");
  lines = invoice.lines;
}

credit_note_as_invoice_lem_example :
    (list_totals (credit_note_as_invoice note).lines ≡ reversed (list_totals note.lines))
    × (truncated (credit_note_as_invoice note).lines ≡ truncated note.lines)
credit_note_as_invoice_lem_example = credit_note_as_invoice_lem note

abbrev pub lines : List (Option LineItem)
lines = some line ∷ none ∷ some (record line { taxes = [] }) ∷ []

abbrev pub rate : Rat
rate = record { num = pos 39542; den = 100 }

build_totals-flip_example : build_totals (str "inclusive") (str "eur") rate (flip_lines lines) ≡ (
  map negate_bucket (build_totals (str "inclusive") (str "eur") rate lines).0,
  negate_totals (build_totals (str "inclusive") (str "eur") rate lines).1,
)
build_totals-flip_example = build_totals-flip (str "inclusive") (str "eur") rate lines

-- A client that was told no rate waits a second between its requests.
slow : new_limiter (λ (r : ℕ). r == 0) 1 false 0 (pos 0) ≡ some (1, pos 1)
unfolding new_limiter
slow = refl

hasty : new_limiter (λ (r : ℕ). r == 0) 1 false 7 (pos 3) ≡ some (7, pos 3)
unfolding new_limiter
hasty = refl
