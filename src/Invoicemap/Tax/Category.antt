-- ===== src/Invoicemap/Tax/Category.antt =====
-- The category of a customer and the order of the tax ids (internal/invoicemap/tax.go).
use go_stripenav.Base.{
  ◌≡◌, ◌∙◌, refl, Bool, true, false, ap, not, ◌||◌, ◌&&◌, ◌⊎◌, inl, inr, Option, none, some,
  Option-cases, Bool-cases, List, [], ◌∷◌, arith, if◌then◌else◌, any, Bytes, str, str_eq,
  str_eq_iff, str_eq_refl, Permᴰ, Permᴰ-any,
}
use go_stripenav.Base.Ascii.{to_lower, to_upper, has_prefix, trim_space}
use go_stripenav.Schemas.{TaxNumberType}
use go_stripenav.Schemas.{CustomerVatData}
use go_stripenav.Invoicemap.Tax.{
  TaxIdLike, customer_domestic, customer_other, customer_private_person, Seen, hungarian, eu, third,
  nothing, look_at, seen, conclude, keep_first, round, classify_loop, classify_customer,
  split_hungarian_tax_number,
}

-- The three classes of an id.
abbrev pub counts_hungarian : Seen → Bool
counts_hungarian (hungarian tn) = true
counts_hungarian (eu v) = false
counts_hungarian (third v) = false
counts_hungarian nothing = false

abbrev pub counts_eu : Seen → Bool
counts_eu (hungarian tn) = false
counts_eu (eu v) = true
counts_eu (third v) = false
counts_eu nothing = false

abbrev pub counts_third : Seen → Bool
counts_third (hungarian tn) = false
counts_third (eu v) = false
counts_third (third v) = true
counts_third nothing = false

-- What an id is, by its kind and its value: a Hungarian number stands under hu_tin, or under eu_vat
-- with HU before it; other ids of the two EU kinds count as EU, and ids of any other kind than
-- these three as those of third states; an id without a value is none of them.
abbrev pub kind : TaxIdLike → Bytes
kind t = to_lower t.type

abbrev pub value : TaxIdLike → Bytes
value t = trim_space t.value

abbrev pub is_number : Bytes → Bool
is_number v = elim (split_hungarian_tax_number v) [ none ↦ false | some tn ↦ true ]

abbrev pub is_blank : TaxIdLike → Bool
is_blank t = str_eq (value t) []

unfoldable pub is_hungarian : TaxIdLike → Bool
is_hungarian t =
    not (is_blank t)
    && (is_number (value t)
        && (str_eq (kind t) (str "hu_tin")
            || (str_eq (kind t) (str "eu_vat") && has_prefix (to_upper (value t)) (str "HU"))))

unfoldable pub is_eu : TaxIdLike → Bool
is_eu t =
    not (is_blank t)
    && ((str_eq (kind t) (str "eu_vat")
          && not (is_number (value t) && has_prefix (to_upper (value t)) (str "HU")))
        || str_eq (kind t) (str "eu_oss_vat"))

unfoldable pub is_third : TaxIdLike → Bool
is_third t =
    not (is_blank t)
    && not (
        str_eq (kind t) (str "hu_tin")
        || (str_eq (kind t) (str "eu_vat") || str_eq (kind t) (str "eu_oss_vat")))

-- The category by specificity: the specification.
abbrev pub category : Bool → Bool → Bytes
category domestic other =
    if domestic
    then customer_domestic
    else if other
    then customer_other
    else customer_private_person

-- An id that counts has a value.
look_at_value :
    (typ val v : Bytes)
    → (look_at typ val ≡ eu v → str_eq v [] ≡ false)
      × (look_at typ val ≡ third v → str_eq v [] ≡ false)
unfolding look_at
look_at_value typ val v = (ground arith, ground arith)

seen_value :
    (t : TaxIdLike) (v : Bytes)
    → (seen t ≡ eu v → str_eq v [] ≡ false) × (seen t ≡ third v → str_eq v [] ≡ false)
unfolding seen
seen_value t v = look_at_value (to_lower t.type) (trim_space t.value) v

keep_first_some : (old new : Bytes) → str_eq new [] ≡ false → str_eq (keep_first old new) [] ≡ false
keep_first_some old new h = ground arith

-- One round, over any rest of the loop that obeys the specification.
round-status :
    (x : Seen) (eu_vat third_state : Bytes) (loop : Bytes → Bytes → Bytes × Option CustomerVatData)
    (h e t b : Bool)
    → ((ev ts : Bytes)
        → (loop ev ts).0
          ≡ category h (not (str_eq ev []) || (not (str_eq ts []) || (e || (t || b)))))
    → ((v : Bytes) → (x ≡ eu v → str_eq v [] ≡ false) × (x ≡ third v → str_eq v [] ≡ false))
    → (round x eu_vat third_state loop).0
      ≡ category (counts_hungarian x || h) (
          not (str_eq eu_vat [])
          || (not (str_eq third_state []) || ((counts_eu x || e) || ((counts_third x || t) || b))))
unfolding round
round-status (hungarian tn) eu_vat third_state loop h e t b ih val = refl
round-status (eu v) eu_vat third_state loop h e t b ih val =
    ground (arith, ih (keep_first eu_vat v) third_state, keep_first_some eu_vat v ((val v).0 refl))
round-status (third v) eu_vat third_state loop h e t b ih val =
    ground
      (arith, ih eu_vat (keep_first third_state v), keep_first_some third_state v ((val v).1 refl))
round-status nothing eu_vat third_state loop h e t b ih val = ih eu_vat third_state

number-cases :
    (v : Bytes)
    → ((tn : TaxNumberType) × (split_hungarian_tax_number v ≡ some tn))
      ⊎ (split_hungarian_tax_number v ≡ none)
number-cases v = elim (Option-cases (split_hungarian_tax_number v)) [
  | inl e ↦ inr e
  | inr (tn, e) ↦ inl (tn, e)
]

-- A kind is one of the three at most.
parted :
    (typ : Bytes)
    → str_eq typ (str "hu_tin") ≡ true
    → (str_eq typ (str "eu_vat") ≡ false) × (str_eq typ (str "eu_oss_vat") ≡ false)
unfolding str_eq
parted typ h =
    let is = (str_eq_iff typ (str "hu_tin")).0 h in
    (ap (λ k. str_eq k (str "eu_vat")) is, ap (λ k. str_eq k (str "eu_oss_vat")) is)

parted_eu : (typ : Bytes) → str_eq typ (str "eu_vat") ≡ true → str_eq typ (str "eu_oss_vat") ≡ false
unfolding str_eq
parted_eu typ h = ap (λ k. str_eq k (str "eu_oss_vat")) ((str_eq_iff typ (str "eu_vat")).0 h)

-- The code's reading of an id is the one that the three tests describe.
seen-kinds :
    (t : TaxIdLike)
    → (counts_hungarian (seen t) ≡ is_hungarian t)
      × (counts_eu (seen t) ≡ is_eu t)
      × (counts_third (seen t) ≡ is_third t)
unfolding seen look_at is_hungarian is_eu is_third
seen-kinds t = elim (number-cases (value t)) [
  | inl (tn, n) ↦ elim (Bool-cases (str_eq (kind t) (str "hu_tin"))) [
    | inl h ↦ ground (arith, n, h, parted (kind t) h)
    | inr h ↦ ground (arith, n, h, parted_eu (kind t))
  ]
  | inr n ↦ elim (Bool-cases (str_eq (kind t) (str "hu_tin"))) [
    | inl h ↦ ground (arith, n, h, parted (kind t) h)
    | inr h ↦ ground (arith, n, h, parted_eu (kind t))
  ]
]

classify_loop-status :
    (ts : List TaxIdLike) (b : Bool) (eu_vat third_state : Bytes)
    → (classify_loop ts b eu_vat third_state).0
      ≡ category (any is_hungarian ts) (
          not (str_eq eu_vat [])
          || (not (str_eq third_state []) || (any is_eu ts || (any is_third ts || b))))
unfolding classify_loop conclude
classify_loop-status [] b eu_vat third_state = ground arith
classify_loop-status (t ∷ ts) b eu_vat third_state =
    let (h, e, k) = seen-kinds t in
    let as_seen =
      round-status (seen t) eu_vat third_state (classify_loop ts b) (any is_hungarian ts)
        (any is_eu ts) (any is_third ts) b (classify_loop-status ts b) (seen_value t) in
    as_seen ∙ cc

-- A customer is DOMESTIC exactly when some tax id is a Hungarian number under hu_tin, or one that
-- starts with HU under eu_vat, wherever it stands in the list; otherwise OTHER exactly when some
-- other id with a value is there (one under eu_vat or eu_oss_vat, or one of a kind that is none of
-- these three and not hu_tin) or a business name, and else PRIVATE_PERSON. Kinds and the HU are
-- compared without case, values without surrounding space.
pub classify_customer-status :
    (ts : List TaxIdLike) (b : Bool)
    → (classify_customer ts b).0
      ≡ category (any is_hungarian ts) (any is_eu ts || (any is_third ts || b))
unfolding classify_customer
classify_customer-status ts b = rw (classify_loop-status ts b [] [], str_eq_refl []) refl

-- The category of a customer does not depend on the order in which Stripe lists the tax ids.
pub classify_customer-perm :
    (ts ts' : List TaxIdLike) (b : Bool)
    → Permᴰ ts ts'
    → (classify_customer ts b).0 ≡ (classify_customer ts' b).0
classify_customer-perm ts ts' b p = ground (
  arith,
  classify_customer-status ts b,
  classify_customer-status ts' b,
  Permᴰ-any is_hungarian p,
  Permᴰ-any is_eu p,
  Permᴰ-any is_third p,
)
