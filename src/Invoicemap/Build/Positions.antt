-- ===== src/Invoicemap/Build/Positions.antt =====
-- internal/invoicemap/mapping.go: the numbers of the lines that buildLines makes, and its sums.
use go_stripenav.Base.{
  ℕ, suc, ◌+◌, ◌≡◌, refl, ap, subst, inl, Option, none, some, List, [], ◌∷◌, map, arith,
  if◌then◌else◌, Bytes, str,
}
use mathlib.Core.Path.{ap₂}
use go_stripenav.Schemas.{Line, LineModificationReference}
use go_stripenav.Storno.{LineItem}
use go_stripenav.Invoicemap.Rational.{Rat}
use go_stripenav.Invoicemap.Options.{refers_back}
use go_stripenav.Invoicemap.Lines.{
  RateTotals, InvoiceTotals, new_invoice_totals, tally, build_totals,
}
use go_stripenav.Invoicemap.Build.{line_of, line_reference, lines_loop, some_lines, build_lines}

-- The positions of the lines that are there, counted from `i` up.
abbrev pub positions : ℕ → List (Option LineItem) → List ℕ
positions i [] = []
positions i (none ∷ ls) = positions (suc i) ls
positions i (some l ∷ ls) = i ∷ positions (suc i) ls

-- The reference of a line at a position, in a document that extends a chain of `count` lines.
abbrev pub chain_reference : Bytes → ℕ → ℕ → Option LineModificationReference
chain_reference op count position =
    if refers_back op
    then some (record { line_number_reference = count + position; line_operation = str "CREATE" })
    else none

module _ (inclusive_tax : Bytes) (set_string : Bytes → Option Rat) (currency : Bytes)
    (rate : Rat) where
  loop-tally :
      (op : Bytes) (count idx : ℕ) (ls : List (Option LineItem)) (bs : List RateTotals)
      (t : InvoiceTotals)
      → (let x = lines_loop inclusive_tax set_string currency rate op count idx ls bs t in
          (x.1, x.2))
        ≡ tally inclusive_tax currency rate ls bs t
  unfolding lines_loop tally
  loop-tally op count idx [] bs t = refl
  loop-tally op count idx (none ∷ ls) bs t = loop-tally op count (suc idx) ls bs t
  loop-tally op count idx (some l ∷ ls) bs t = loop-tally op count (suc idx) ls _ _

  loop-number :
      (op : Bytes) (count idx : ℕ) (ls : List (Option LineItem)) (bs : List RateTotals)
      (t : InvoiceTotals)
      → map
          (λ l. l.line_number)
          (lines_loop inclusive_tax set_string currency rate op count idx ls bs t).0
        ≡ positions (suc idx) ls
  unfolding lines_loop line_of
  loop-number op count idx [] bs t = refl
  loop-number op count idx (none ∷ ls) bs t = loop-number op count (suc idx) ls bs t
  loop-number op count idx (some l ∷ ls) bs t =
      ap₂ (λ n ns. n ∷ ns) (omega arith) (loop-number op count (suc idx) ls _ _)

  loop-reference :
      (op : Bytes) (count idx : ℕ) (ls : List (Option LineItem)) (bs : List RateTotals)
      (t : InvoiceTotals)
      → map
          (λ l. l.line_modification_reference)
          (lines_loop inclusive_tax set_string currency rate op count idx ls bs t).0
        ≡ map (chain_reference op count) (positions (suc idx) ls)
  unfolding lines_loop line_of line_reference
  loop-reference op count idx [] bs t = refl
  loop-reference op count idx (none ∷ ls) bs t = loop-reference op count (suc idx) ls bs t
  loop-reference op count idx (some l ∷ ls) bs t =
      ap₂ (λ n ns. n ∷ ns) (at op count idx) (loop-reference op count (suc idx) ls _ _)
    where
      at :
          (op : Bytes) (count idx : ℕ)
          → line_reference op count idx ≡ chain_reference op count (suc idx)
      at op count idx =
          ap
            (λ n.
              if refers_back op
              then some (record { line_number_reference = n; line_operation = str "CREATE" })
              else none)
            (omega arith)

  -- What buildLines makes of the lines that are there.
  pub record IsLinesOf (op : Bytes) (count : ℕ) (items : List (Option LineItem))
      (built : List Line × List RateTotals × InvoiceTotals) : Type 0 where
    pub sums : (built.1, built.2) ≡ build_totals inclusive_tax currency rate items
    pub numbers : map (λ l. l.line_number) built.0 ≡ positions 1 items
    pub references :
        map (λ l. l.line_modification_reference) built.0
        ≡ map (chain_reference op count) (positions 1 items)

  some_lines-inl :
      (x built : List Line × List RateTotals × InvoiceTotals)
      → some_lines inclusive_tax set_string currency rate x ≡ inl built
      → x ≡ built
  unfolding some_lines
  some_lines-inl ([], bs, t) built e = cc
  some_lines-inl (l ∷ ls, bs, t) built e = ground (arith, e)

  pub build_lines-IsLinesOf :
      (op : Bytes) (count : ℕ) (items : List (Option LineItem))
      (built : List Line × List RateTotals × InvoiceTotals)
      → build_lines inclusive_tax set_string currency rate op count items ≡ inl built
      → IsLinesOf op count items built
  unfolding build_lines build_totals
  build_lines-IsLinesOf op count items built e =
      subst (IsLinesOf op count items) (some_lines-inl _ built e) (record {
        sums = loop-tally op count 0 items [] new_invoice_totals;
        numbers = loop-number op count 0 items [] new_invoice_totals;
        references = loop-reference op count 0 items [] new_invoice_totals;
      })
