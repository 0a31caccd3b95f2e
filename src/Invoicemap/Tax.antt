-- ===== src/Invoicemap/Tax.antt =====
-- internal/invoicemap/tax.go: Hungarian tax numbers and the category of a customer.
pub mod Numbers
pub mod Category
use go_stripenav.Base.{
  ℕ, zero, suc, ◌+◌, ◌-◌, ◌*◌, ◌/◌, ◌%◌, ◌^◌, ◌≤◌, ◌<◌, ◌≡◌, refl, sym, ap, ◌∙◌, subst, ◌≢◌, ◌↔◌,
  ◌⊎◌, inl, inr, Bool, true, false, not, ◌&&◌, ◌||◌, Option, none, some, List, [], ◌∷◌, ◌++◌, map,
  append-nil, append_assoc, arith, ltb, leb, ◌==◌, if◌then◌else◌, ==_iff, leb_iff, &&_split,
  Bool-cases, Option-cases, length, take, drop, replicate, head?, all, any, In, here, there, All,
  length-append, take-append, drop-append, take-append-drop, length-take, length-drop,
  length-replicate, Bytes, str, str_eq, str_eq_iff, str_eq_refl, Permᴰ, Permᴰ-refl, Permᴰ-sym,
  Permᴰ-In, Permᴰ-length, In-All, In-cons, take_all,
}
use go_stripenav.Base.Ascii.{to_lower, to_upper, has_prefix, trim_prefix, trim_space, is_digit}
use go_stripenav.Schemas.{TaxNumberType, CustomerVatData}

-- The loop over the bytes; `none` is the early return.
unfoldable pub collect_digits : Bytes → Option Bytes
collect_digits [] = some []
collect_digits (c ∷ s) =
    let rest = collect_digits s in
    if is_digit c
    then elim rest [ none ↦ none | some ds ↦ some (c ∷ ds) ]
    else if c == b'-' || c == b' '
    then rest
    else none

-- `digits[0:8]`, `digits[8:9]` and `digits[9:11]`.
unfoldable pub split_digits : Option Bytes → Option TaxNumberType
split_digits none = none
split_digits (some ds) =
    if length ds == 11
    then some (record {
      taxpayer_id = take 8 ds;
      vat_code = take 1 (drop 8 ds);
      county_code = take 2 (drop 9 ds);
    })
    else none

unfoldable pub split_hungarian_tax_number : Bytes → Option TaxNumberType
unfolding collect_digits split_digits
split_hungarian_tax_number s =
    split_digits (collect_digits (trim_prefix (to_upper (trim_space s)) (str "HU")))

pub record TaxIdLike : Type 0 where
  pub type : Bytes
  pub value : Bytes

abbrev pub customer_domestic : Bytes
customer_domestic = str "DOMESTIC"

abbrev pub customer_other : Bytes
customer_other = str "OTHER"

abbrev pub customer_private_person : Bytes
customer_private_person = str "PRIVATE_PERSON"

abbrev pub no_vat_data : CustomerVatData
no_vat_data = record {
  customer_tax_number = none;
  community_vat_number = [];
  third_state_tax_id = [];
}

-- A round of the loop either returns DOMESTIC with a tax number, or sets one of its variables.
pub data Seen : Type 0 where
  hungarian : TaxNumberType → Seen
  eu third : Bytes → Seen
  nothing : Seen

-- What a tax id counts as, by its type in lower case and its trimmed value.
unfoldable pub look_at : Bytes → Bytes → Seen
look_at typ val =
    if str_eq val []
    then nothing
    else if str_eq typ (str "hu_tin")
    then elim (split_hungarian_tax_number val) [ some tn ↦ hungarian tn | none ↦ nothing ]
    else if str_eq typ (str "eu_vat")
    then if has_prefix (to_upper val) (str "HU")
      then elim (split_hungarian_tax_number val) [ some tn ↦ hungarian tn | none ↦ eu val ]
      else eu val
    else if str_eq typ (str "eu_oss_vat")
    then eu val
    else third val

unfoldable pub seen : TaxIdLike → Seen
unfolding look_at
seen t = look_at (to_lower t.type) (trim_space t.value)

-- After the loop, by `euVat`, `thirdState` and the business name.
unfoldable pub conclude : Bytes → Bytes → Bool → Bytes × Option CustomerVatData
conclude eu_vat third_state has_business_name =
    if not (str_eq eu_vat [])
    then (customer_other, some (record no_vat_data { community_vat_number = eu_vat }))
    else if not (str_eq third_state [])
    then (customer_other, some (record no_vat_data { third_state_tax_id = third_state }))
    else if has_business_name
    then (customer_other, none)
    else (customer_private_person, none)

-- `if old == "" { old = new }`.
abbrev pub keep_first : Bytes → Bytes → Bytes
keep_first old new = if str_eq old [] then new else old

-- The rest of a round, by what the id counts as; `loop` goes on with the two variables.
unfoldable pub round :
    Seen
    → Bytes
    → Bytes
    → (Bytes → Bytes → Bytes × Option CustomerVatData)
    → Bytes × Option CustomerVatData
round (hungarian tn) eu_vat third_state loop =
    (customer_domestic, some (record no_vat_data { customer_tax_number = some tn }))
round (eu v) eu_vat third_state loop = loop (keep_first eu_vat v) third_state
round (third v) eu_vat third_state loop = loop eu_vat (keep_first third_state v)
round nothing eu_vat third_state loop = loop eu_vat third_state

unfoldable pub classify_loop :
    List TaxIdLike → Bool → Bytes → Bytes → Bytes × Option CustomerVatData
classify_loop [] has_business_name eu_vat third_state =
    conclude eu_vat third_state has_business_name
classify_loop (t ∷ ts) has_business_name eu_vat third_state =
    round (seen t) eu_vat third_state (classify_loop ts has_business_name)

unfoldable pub classify_customer : List TaxIdLike → Bool → Bytes × Option CustomerVatData
classify_customer tax_ids has_business_name = classify_loop tax_ids has_business_name [] []
