-- ===== src/Invoicemap/Options/Checked.antt =====
-- What MapInvoice may rely on after validateOptions (internal/invoicemap/mapping.go).
use go_stripenav.Base.{
  sym, ◌∙◌, ◌≡◌, ◌⊎◌, inl, inr, Bool, true, false, not, ◌&&◌, ◌||◌, [], ◌++◌, arith, if◌then◌else◌,
  Bool-cases, Bytes, str, str_eq,
}
use go_stripenav.Base.Results.{inl_inj}
use go_stripenav.Invoicemap.Options.{
  MapOptions, MappingError, op_create, refers_back, new_mapping_error,
  code_supplier_tax_number_required, code_unknown_operation, code_modification_missing_origin,
  or_else, at_least_one, with_defaults, by_operation, validate_options,
}

-- Whether the options can be accepted: the specification.
abbrev pub acceptable : MapOptions → Bool
acceptable o =
    let op = or_else o.operation op_create in
    not (str_eq o.supplier.tax_number [])
    && (str_eq op op_create || (refers_back op && not (str_eq o.original_invoice_number [])))

-- The accepted options: the defaults are filled in, and a modification has an index from 1 up.
abbrev pub completed : MapOptions → MapOptions
completed o = record o {
  operation = or_else o.operation op_create;
  invoice_appearance = or_else o.invoice_appearance (str "ELECTRONIC");
  payment_method = or_else o.payment_method (str "CARD");
  modification_index =
      if str_eq (or_else o.operation op_create) op_create
      then o.modification_index
      else at_least_one o.modification_index;
}

-- The three refusals.
abbrev no_supplier : MappingError
no_supplier =
    new_mapping_error code_supplier_tax_number_required (str "MapOptions.Supplier.TaxNumber")

abbrev no_origin : MappingError
no_origin =
    new_mapping_error code_modification_missing_origin (str "MapOptions.OriginalInvoiceNumber")

abbrev unknown_operation : (Bytes → Bytes) → Bytes → MappingError
unknown_operation quote op =
    new_mapping_error code_unknown_operation (str "MapOptions.Operation=" ++ quote op)

by_operation_lem :
    (quote : Bytes → Bytes) (op : Bytes) (o : MapOptions)
    → (((not (str_eq o.supplier.tax_number [])
            && (str_eq op op_create
                || (refers_back op && not (str_eq o.original_invoice_number []))))
          ≡ true)
        × (by_operation quote op o
            ≡ inl (record o {
              operation = op;
              invoice_appearance = or_else o.invoice_appearance (str "ELECTRONIC");
              payment_method = or_else o.payment_method (str "CARD");
              modification_index =
                  if str_eq op op_create
                  then o.modification_index
                  else at_least_one o.modification_index;
            })))
      ⊎ (((not (str_eq o.supplier.tax_number [])
              && (str_eq op op_create
                  || (refers_back op && not (str_eq o.original_invoice_number []))))
            ≡ false)
          × ((e : MappingError) × (by_operation quote op o ≡ inr e)))
unfolding by_operation with_defaults
by_operation_lem quote op o = elim (Bool-cases (str_eq op op_create)) [
  | inl c ↦ elim (Bool-cases (str_eq o.supplier.tax_number [])) [
    | inl t ↦ inr (ground (arith, t), (no_supplier, ground (arith, c, t)))
    | inr t ↦ inl (ground (arith, t, c), ground (arith, c, t))
  ]
  | inr c ↦ elim (Bool-cases (refers_back op)) [
    | inr r ↦ inr (ground (arith, c, r), (unknown_operation quote op, ground (arith, c, r)))
    | inl r ↦ elim (Bool-cases (str_eq o.original_invoice_number [])) [
      | inl n ↦ inr (ground (arith, c, n), (no_origin, ground (arith, c, r, n)))
      | inr n ↦ elim (Bool-cases (str_eq o.supplier.tax_number [])) [
        | inl t ↦ inr (ground (arith, t), (no_supplier, ground (arith, c, r, n, t)))
        | inr t ↦ inl (ground (arith, c, r, n, t), ground (arith, c, r, n, t))
      ]
    ]
  ]
]

-- validateOptions accepts exactly the options that name a supplier's tax number and are a CREATE,
-- also by default, or a MODIFY or STORNO with the original's number; accepted options have their
-- defaults filled in, and a MODIFY or STORNO an index from 1 up, and nothing else changes.
pub validate_options_lem :
    (quote : Bytes → Bytes) (o : MapOptions)
    → ((acceptable o ≡ true) × (validate_options quote o ≡ inl (completed o)))
      ⊎ ((acceptable o ≡ false) × ((e : MappingError) × (validate_options quote o ≡ inr e)))
unfolding validate_options
validate_options_lem quote o = by_operation_lem quote (or_else o.operation op_create) o

pub validate_options-inl :
    (quote : Bytes → Bytes) (o opts : MapOptions)
    → validate_options quote o ≡ inl opts
    → completed o ≡ opts
validate_options-inl quote o opts e = elim (validate_options_lem quote o) [
  | inl (a, q) ↦ inl_inj (sym q ∙ e)
  | inr (a, (x, q)) ↦ absurd (ground (arith, q, e))
]
