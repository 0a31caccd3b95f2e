-- ===== src/Schemas.antt =====
-- nav/schemas/invoice_data.go and annulment.go: the documents reported to NAV, without their XML
-- names. A pointer is an `Option`.
pub mod Api
use go_stripenav.Base.Int.{ℤ}
use go_stripenav.Base.{
  ℕ, zero, suc, ◌+◌, ◌-◌, ◌*◌, ◌/◌, ◌%◌, ◌^◌, ◌≤◌, ◌<◌, ◌≡◌, refl, sym, ap, ◌∙◌, subst, ◌≢◌, ◌↔◌,
  ◌⊎◌, inl, inr, Bool, true, false, not, ◌&&◌, ◌||◌, Option, none, some, List, [], ◌∷◌, ◌++◌, map,
  append-nil, append_assoc, arith, ltb, leb, ◌==◌, if◌then◌else◌, ==_iff, leb_iff, &&_split,
  Bool-cases, Option-cases, length, take, drop, replicate, head?, all, any, In, here, there, All,
  length-append, take-append, drop-append, take-append-drop, length-take, length-drop,
  length-replicate, Bytes, str, str_eq, str_eq_iff, str_eq_refl, Permᴰ, Permᴰ-refl, Permᴰ-sym,
  Permᴰ-In, Permᴰ-length, In-All, In-cons, take_all,
}

pub record TaxNumberType : Type 0 where
  pub taxpayer_id : Bytes
  pub vat_code : Bytes
  pub county_code : Bytes

pub record SimpleAddress : Type 0 where
  pub country_code : Bytes
  pub region : Bytes
  pub postal_code : Bytes
  pub city : Bytes
  pub additional_address : Bytes

pub record DetailedAddress : Type 0 where
  pub country_code : Bytes
  pub region : Bytes
  pub postal_code : Bytes
  pub city : Bytes
  pub street_name : Bytes
  pub public_place_category : Bytes
  pub number : Bytes

pub record Address : Type 0 where
  pub simple : Option SimpleAddress
  pub detailed : Option DetailedAddress

pub record SupplierInfo : Type 0 where
  pub supplier_tax_number : TaxNumberType
  pub supplier_name : Bytes
  pub supplier_address : Address
  pub supplier_bank : Bytes

pub record CustomerVatData : Type 0 where
  pub customer_tax_number : Option TaxNumberType
  pub community_vat_number : Bytes
  pub third_state_tax_id : Bytes

pub record CustomerInfo : Type 0 where
  pub customer_vat_status : Bytes
  pub customer_vat_data : Option CustomerVatData
  pub customer_name : Bytes
  pub customer_address : Option Address
  pub customer_bank : Bytes

pub record InvoiceReference : Type 0 where
  pub original_invoice_number : Bytes
  pub modify_without_master : Bool
  pub modification_index : ℤ

pub record InvoiceDetail : Type 0 where
  pub invoice_category : Bytes
  pub invoice_delivery_date : Bytes
  pub invoice_delivery_period_start : Bytes
  pub invoice_delivery_period_end : Bytes
  pub periodical_settlement : Option Bool
  pub currency_code : Bytes
  pub exchange_rate : Bytes
  pub payment_method : Bytes
  pub payment_date : Bytes
  pub invoice_appearance : Bytes

pub record InvoiceHead : Type 0 where
  pub supplier_info : SupplierInfo
  pub customer_info : Option CustomerInfo
  pub invoice_detail : InvoiceDetail

pub record LineModificationReference : Type 0 where
  pub line_number_reference : ℕ
  pub line_operation : Bytes

pub record LineNetAmount : Type 0 where
  pub line_net_amount : Bytes
  pub line_net_amount_huf : Bytes

pub record LineVatAmount : Type 0 where
  pub line_vat_amount : Bytes
  pub line_vat_amount_huf : Bytes

pub record LineGrossAmount : Type 0 where
  pub line_gross_amount_normal : Bytes
  pub line_gross_amount_normal_huf : Bytes

pub record VatExemption : Type 0 where
  pub exemption_case : Bytes
  pub reason : Bytes

pub record VatOutOfScope : Type 0 where
  pub scope_case : Bytes
  pub reason : Bytes

pub record LineVatRate : Type 0 where
  pub vat_percentage : Bytes
  pub vat_content : Bytes
  pub vat_exemption : Option VatExemption
  pub vat_out_of_scope : Option VatOutOfScope
  pub no_vat_charge : Bool

pub record LineAmounts : Type 0 where
  pub line_net_amount_data : LineNetAmount
  pub line_vat_rate : LineVatRate
  pub line_vat_data : Option LineVatAmount
  pub line_gross_amount_data : Option LineGrossAmount

pub record LineAmountsSimplified : Type 0 where
  pub line_vat_rate : LineVatRate
  pub line_gross_amount_simplified : Bytes
  pub line_gross_amount_simplified_huf : Bytes

pub record Line : Type 0 where
  pub line_number : ℕ
  pub line_modification_reference : Option LineModificationReference
  pub line_expression_indicator : Bool
  pub line_nature_indicator : Bytes
  pub line_description : Bytes
  pub quantity : Bytes
  pub unit_of_measure : Bytes
  pub unit_of_measure_own : Bytes
  pub unit_price : Bytes
  pub unit_price_huf : Bytes
  pub line_amounts_normal : Option LineAmounts
  pub line_amounts_simplified : Option LineAmountsSimplified

pub record InvoiceLines : Type 0 where
  pub merged_item_indicator : Bool
  pub lines : List Line

pub record VatRateNetData : Type 0 where
  pub vat_rate_net_amount : Bytes
  pub vat_rate_net_amount_huf : Bytes

pub record VatRateVatData : Type 0 where
  pub vat_rate_vat_amount : Bytes
  pub vat_rate_vat_amount_huf : Bytes

pub record VatRateGrossData : Type 0 where
  pub vat_rate_gross_amount : Bytes
  pub vat_rate_gross_amount_huf : Bytes

pub record SummaryByVatRate : Type 0 where
  pub vat_rate : LineVatRate
  pub vat_rate_net_data : VatRateNetData
  pub vat_rate_vat_data : VatRateVatData
  pub vat_rate_gross_data : VatRateGrossData

pub record SummaryNormal : Type 0 where
  pub summary_by_vat_rate : List SummaryByVatRate
  pub invoice_net_amount : Bytes
  pub invoice_net_amount_huf : Bytes
  pub invoice_vat_amount : Bytes
  pub invoice_vat_amount_huf : Bytes

pub record SummaryGrossData : Type 0 where
  pub invoice_gross_amount : Bytes
  pub invoice_gross_amount_huf : Bytes

pub record SummarySimplified : Type 0 where
  pub vat_rate : LineVatRate
  pub vat_content_gross_amount : Bytes
  pub vat_content_gross_amount_huf : Bytes

pub record InvoiceSummary : Type 0 where
  pub summary_normal : Option SummaryNormal
  pub summary_simplified : List SummarySimplified
  pub summary_gross_data : SummaryGrossData

pub record Invoice : Type 0 where
  pub invoice_reference : Option InvoiceReference
  pub invoice_head : InvoiceHead
  pub invoice_lines : InvoiceLines
  pub invoice_summary : InvoiceSummary

pub record InvoiceMain : Type 0 where
  pub invoice : Invoice

pub record InvoiceData : Type 0 where
  pub invoice_number : Bytes
  pub invoice_issue_date : Bytes
  pub completeness_indicator : Bool
  pub invoice_main : InvoiceMain

pub record InvoiceAnnulment : Type 0 where
  pub annulment_reference : Bytes
  pub annulment_timestamp : Bytes
  pub annulment_code : Bytes
  pub annulment_reason : Bytes
