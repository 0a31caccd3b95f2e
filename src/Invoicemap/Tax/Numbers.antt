-- ===== src/Invoicemap/Tax/Numbers.antt =====
-- Hungarian tax numbers (internal/invoicemap/tax.go, splitHungarianTaxNumber).
use go_stripenav.Base.{
  ℕ, ◌≡◌, refl, subst, ◌↔◌, Bool, true, false, ◌||◌, none, some, [], ◌∷◌, ◌++◌, arith, ◌==◌,
  if◌then◌else◌, length, take, drop, all, Bytes, str,
}
use go_stripenav.Base.Ascii.{to_upper, trim_prefix, trim_space, is_digit}
use go_stripenav.Schemas.{TaxNumberType}
use go_stripenav.Invoicemap.Tax.{collect_digits, split_digits, split_hungarian_tax_number}

abbrev pub is_separator : ℕ → Bool
is_separator c = c == b'-' || c == b' '

-- What is left of the input after trimming, and the digits in it: the specification.
abbrev pub tax_number_body : Bytes → Bytes
tax_number_body s = trim_prefix (to_upper (trim_space s)) (str "HU")

abbrev pub only_digits : Bytes → Bytes
only_digits [] = []
only_digits (c ∷ s) = if is_digit c then c ∷ only_digits s else only_digits s

abbrev pub is_tax_byte : ℕ → Bool
is_tax_byte c = is_digit c || is_separator c

collect_digits_lem :
    (s : Bytes) → collect_digits s ≡ (if all is_tax_byte s then some (only_digits s) else none)
unfolding collect_digits
collect_digits_lem [] = refl
collect_digits_lem (c ∷ s) = ground (arith, collect_digits_lem s)

-- The three parts, cut out of eleven digits.
abbrev pub parts : Bytes → TaxNumberType
parts ds = record {
  taxpayer_id = take 8 ds;
  vat_code = take 1 (drop 8 ds);
  county_code = take 2 (drop 9 ds);
}

eleven :
    (ds : Bytes)
    → length ds ≡ 11
    → (take 8 ds ++ (take 1 (drop 8 ds) ++ take 2 (drop 9 ds)) ≡ ds)
      × (length (take 8 ds) ≡ 8)
      × (length (take 1 (drop 8 ds)) ≡ 1)
      × (length (take 2 (drop 9 ds)) ≡ 2)
eleven (a ∷ b ∷ c ∷ d ∷ e ∷ f ∷ g ∷ h ∷ i ∷ j ∷ k ∷ []) p = (refl, refl, refl, refl)
eleven _ p = absurd (omega (arith, p))

-- A tax number in three parts of eight, one and two bytes.
abbrev pub IsParted : TaxNumberType → Bytes → Type 0
IsParted tn ds =
    (tn.taxpayer_id ++ (tn.vat_code ++ tn.county_code) ≡ ds)
    × (length tn.taxpayer_id ≡ 8)
    × (length tn.vat_code ≡ 1)
    × (length tn.county_code ≡ 2)

split_digits-some :
    (ds : Bytes) (tn : TaxNumberType)
    → (split_digits (some ds) ≡ some tn) ↔ ((length ds ≡ 11) × (parts ds ≡ tn))
unfolding split_digits
split_digits-some ds tn = ground arith

split_digits_sound :
    (ds : Bytes) (tn : TaxNumberType) → split_digits (some ds) ≡ some tn → IsParted tn ds
split_digits_sound ds tn e =
    let q = (split_digits-some ds tn).0 e in subst (λ t. IsParted t ds) q.1 (eleven ds q.0)

parts_back :
    (a b c : Bytes)
    → (length a ≡ 8)
    → (length b ≡ 1)
    → (length c ≡ 2)
    → (length (a ++ (b ++ c)) ≡ 11)
      × (take 8 (a ++ (b ++ c)) ≡ a)
      × (take 1 (drop 8 (a ++ (b ++ c))) ≡ b)
      × (take 2 (drop 9 (a ++ (b ++ c))) ≡ c)
parts_back (a1 ∷ a2 ∷ a3 ∷ a4 ∷ a5 ∷ a6 ∷ a7 ∷ a8 ∷ []) (b1 ∷ []) (c1 ∷ c2 ∷ []) p q r =
    (refl, refl, refl, refl)
parts_back _ _ _ p q r = absurd (omega (arith, p, q, r))

split_digits_complete :
    (ds : Bytes) (tn : TaxNumberType) → IsParted tn ds → split_digits (some ds) ≡ some tn
split_digits_complete ds tn (e, p, q, r) =
    let t = parts_back tn.taxpayer_id tn.vat_code tn.county_code p q r in
    (split_digits-some ds tn).1 (
      subst (λ d. (length d ≡ 11) × (parts d ≡ tn)) e
        (t.0, λ i. record { taxpayer_id = t.1 i; vat_code = t.2 i; county_code = t.3 i }))

split_digits_lem :
    (b : Bool) (ds : Bytes) (tn : TaxNumberType)
    → (split_digits (if b then some ds else none) ≡ some tn) ↔ ((b ≡ true) × IsParted tn ds)
unfolding split_digits
split_digits_lem true ds tn =
    (λ e. (refl, split_digits_sound ds tn e), λ h. split_digits_complete ds tn h.1)
split_digits_lem false ds tn = (λ e. absurd (ground (arith, e)), λ h. absurd (ground (arith, h.0)))

-- splitHungarianTaxNumber accepts exactly the inputs that, without surrounding space and an HU
-- prefix, are digits, hyphens and spaces with eleven digits; its three parts are then those digits,
-- in order, as eight, one and two.
pub split_hungarian_tax_number_lem :
    (s : Bytes) (tn : TaxNumberType)
    → (split_hungarian_tax_number s ≡ some tn) ↔ (
        (all is_tax_byte (tax_number_body s) ≡ true)
        × IsParted tn (only_digits (tax_number_body s)))
unfolding split_hungarian_tax_number
split_hungarian_tax_number_lem s tn =
    rw (collect_digits_lem (tax_number_body s))
      (split_digits_lem (all is_tax_byte (tax_number_body s)) (only_digits (tax_number_body s)) tn)
