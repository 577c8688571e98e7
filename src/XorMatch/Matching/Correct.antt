-- ===== src/XorMatch/Matching/Correct.antt =====
-- All operations of bitmatrix_to_schedule_PGC_macthing (xorMatch/xorMatchCode.c), one after another.
use cerasure.Base.{
  ap₂, row_of_offset, column_of_offset, offset-lt, ℕ, zero, suc, ◌+◌, ◌*◌, ◌/◌, ◌%◌, ◌<◌, ◌≡◌, inl,
  inr, refl, sym, ◌∙◌, arith, List, [], ◌∷◌, Block,
}
use cerasure.XorMatch.Machine.{Row, Values}
use cerasure.XorMatch.Schedule.Rows.{product}
use cerasure.XorMatch.Matching.{
  Match, unmatched, scheduled, partner, single_row, pair_row, matching_rows,
  bitmatrix_to_schedule_pgc_macthing,
}
use cerasure.XorMatch.Matching.Run.{apply_split, single_row-product}
use cerasure.XorMatch.Matching.Pending.{
  Match-cases, IsMatching, Pending, Done, Pending-unmatched, Pending-scheduled, Pending-partner,
  paired, pair_row-both_done,
}

-- The operations in their order, on parity packets v and data packets d.
unfoldable pub apply_splits : List Row → Values → Values → Values
apply_splits [] d v = v
apply_splits (row ∷ rows) d v = apply_splits rows d (apply_split row d v)

module _ (k w count : ℕ) (bitmatrix : Block ℕ) (fresh : Row) (pos : 0 < w)
    (bits : (i c : ℕ) → i < count → c < k * w → bitmatrix (i * k * w + c) < 2) (d : Values) where
  module _ (n i : ℕ) (match : Block Match) where
    abbrev rows : List Row
    rows = matching_rows k w bitmatrix fresh match (suc n) i

    rows-unmatched :
        match i ≡ unmatched
        → rows
          ≡ single_row k w bitmatrix fresh i ∷ matching_rows k w bitmatrix fresh match n (suc i)
    unfolding matching_rows
    rows-unmatched e = rw (matching_rows, e) refl

    rows-scheduled : match i ≡ scheduled → rows ≡ matching_rows k w bitmatrix fresh match n (suc i)
    unfolding matching_rows
    rows-scheduled e = rw (matching_rows, e) refl

    rows-partner :
        (l : ℕ)
        → match i ≡ partner l
        → rows
          ≡ pair_row k w bitmatrix fresh i l
            ∷ matching_rows k w bitmatrix fresh
                (paired k w count bitmatrix fresh pos bits d i l match)
                n
                (suc i)
    unfolding matching_rows
    rows-partner l e = rw (matching_rows, e) refl

  matching_rows-Done :
      (n i : ℕ) (match : Block Match) (v : Values)
      → i + n ≡ count
      → Pending k w count bitmatrix fresh pos bits d i match v
      → (r : ℕ) → r < count
      → Done k w count bitmatrix fresh pos bits d
          (apply_splits (matching_rows k w bitmatrix fresh match n i) d v)
          r
  unfolding apply_splits matching_rows
  matching_rows-Done zero i match v e p r hr = p.finished r (omega arith)
  matching_rows-Done (suc n) i match v e p r hr = elim (Match-cases (match i)) [
    | inl e' ↦
        rw (rows-unmatched n i match e', apply_splits, single_row-product k w bitmatrix fresh d i v)
          (matching_rows-Done n (suc i) match _ (omega arith)
            (Pending-unmatched k w count bitmatrix fresh pos bits d i match v e' p) r hr)
    | inr (inl e') ↦ rw (rows-scheduled n i match e') (
        matching_rows-Done n (suc i) match v (omega arith)
          (Pending-scheduled k w count bitmatrix fresh pos bits d i match v (omega arith) e' p) r
          hr)
    | inr (inr (l, e')) ↦
        rw
          (
            rows-partner n i match l e',
            apply_splits,
            pair_row-both_done k w count bitmatrix fresh pos bits d i l match v (omega arith)
                (p.later i l (omega arith) (omega arith) e').1 (p.shared i l (omega arith) e'),
          )
          (matching_rows-Done n (suc i) _ _ (omega arith)
            (Pending-partner k w count bitmatrix fresh pos bits d i l match v (omega arith) e' p) r
            hr)
  ]

  matching-product :
      (match : Block Match) (v : Values)
      → IsMatching k w count bitmatrix match
      → (r : ℕ) → r < count
      → apply_splits (matching_rows k w bitmatrix fresh match count 0) d v (r / w) (r % w)
        ≡ product k w bitmatrix d r
  matching-product match v m = matching_rows-Done count 0 match v (omega arith) (record {
    finished = λ r hr. absurd (omega arith);
    marked = λ r hr e. absurd (m.not_scheduled r hr e);
    later = λ r l lo hr e. (omega arith, m.partner-lt r l hr e, m.other r l hr e, m.back r l hr e);
    shared = m.shared;
  })

-- With w other than 0, a matrix of bits, and a matching of its rows in pairs that share a packet,
-- the operations of bitmatrix_to_schedule_PGC_macthing leave in every parity packet the product of
-- its row and the data packets.
pub bitmatrix_to_schedule_pgc_macthing-product :
    (k p w : ℕ) (bitmatrix : Block ℕ) (match : Block Match) (fresh : Row) (d v : Values)
    → 0 < w
    → ((i c : ℕ) → i < p * w → c < k * w → bitmatrix (i * k * w + c) < 2)
    → IsMatching k w (p * w) bitmatrix match
    → (b q : ℕ) → b < p
    → q < w
    → apply_splits (bitmatrix_to_schedule_pgc_macthing k p w bitmatrix match fresh) d v b q
      ≡ product k w bitmatrix d (b * w + q)
unfolding bitmatrix_to_schedule_pgc_macthing
bitmatrix_to_schedule_pgc_macthing-product k p w bitmatrix match fresh d v pos bits m b q hb hq =
    ap₂ (apply_splits (matching_rows k w bitmatrix fresh match (p * w) 0) d v)
      (sym (row_of_offset w b q hq)) (sym (column_of_offset w b q hq))
    ∙ matching-product k w (p * w) bitmatrix fresh pos bits d match v m (b * w + q)
        (offset-lt p w b q hb hq)
