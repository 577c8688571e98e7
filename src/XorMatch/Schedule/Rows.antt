-- ===== src/XorMatch/Schedule/Rows.antt =====
-- The whole schedule of bitmatrix_to_schedule (xorMatch/vandermonde.c), run on the packets.
use native.Mathlib.Nat.{div-lt_iff_lt-mul, mod-lt, div-add-mod'}
use cerasure.Base.{
  ℕ, zero, suc, ◌+◌, ◌*◌, ◌/◌, ◌%◌, ◌<◌, ◌≤◌, ◌≡◌, ◌≢◌, ◌⊎◌, inl, inr, refl, sym, ap, ap₂, ◌∙◌,
  arith, List, Block, ℕ_discrete, row_of_offset, column_of_offset, offset-lt,
}
use cerasure.Field.Sum.{sum, sum_congr}
use cerasure.XorMatch.Machine.{
  Row, Values, IsRow, AllRows, TwoSources, apply_row, apply_rows, apply_row-dest, apply_row-other,
}
use cerasure.XorMatch.Schedule.{count_bits, schedule_row, schedule_rows, bitmatrix_to_schedule}
use cerasure.XorMatch.Schedule.Product.{
  select, count_bits-ones, RowMeaning, schedule_row-RowMeaning,
}

-- Each row of the bit matrix has two bits or more that are set.
abbrev pub HasTwoBits : ℕ → ℕ → ℕ → Block ℕ → Type 0
HasTwoBits k p w bitmatrix = (i : ℕ) → i < p * w → 2 ≤ count_bits bitmatrix (i * k * w) (k * w)

-- Row i of the bit matrix times the packets of the first k blocks.
unfoldable pub product : ℕ → ℕ → Block ℕ → Values → ℕ → ℕ
product k w bitmatrix v i =
    sum (k * w) (λ j. select (bitmatrix (i * k * w + j)) (v (j / w) (j % w)))

module _ (k p w : ℕ) (bitmatrix fresh : Block ℕ) (pos : 0 < w) where
  -- It reads the first k blocks.
  pub product_congr :
      (v v' : Values) (i : ℕ)
      → ((b q : ℕ) → b < k → v b q ≡ v' b q)
      → product k w bitmatrix v i ≡ product k w bitmatrix v' i
  unfolding product
  product_congr v v' i same = sum_congr (k * w) _ _ (λ j hj.
      ap (select (bitmatrix (i * k * w + j))) (same (j / w) (j % w) ((div-lt_iff_lt-mul pos).1 hj)))

  abbrev meaning : (i : ℕ) → RowMeaning k w bitmatrix i (schedule_row k w bitmatrix fresh i)
  meaning i = schedule_row-RowMeaning k w bitmatrix fresh i pos

  abbrev rows : ℕ → ℕ → List Row
  rows = schedule_rows k w bitmatrix fresh

  IsRow-schedule_row :
      (i : ℕ)
      → i < p * w
      → 2 ≤ count_bits bitmatrix (i * k * w) (k * w)
      → IsRow (k + p) w (schedule_row k w bitmatrix fresh i)
  IsRow-schedule_row i hi some =
      let m = meaning i in
      let below : i / w < p = (div-lt_iff_lt-mul pos).1 hi in
      record {
        some_source = omega (arith, m.count, count_bits-ones bitmatrix (i * k * w) w (k * w), some);
        dest_block = omega (arith, m.dest_block, below);
        dest_packet = omega (arith, m.dest_packet, mod-lt i pos);
        source_block = λ j hj. omega (arith, m.source_block j hj);
        source_packet = λ j hj. m.source_packet j hj;
        not_dest = λ j hj. inl (omega (arith, m.source_block j hj, m.dest_block));
      }

  AllRows-schedule_rows :
      (n i : ℕ) → HasTwoBits k p w bitmatrix → i + n ≤ p * w → AllRows (k + p) w (rows n i)
  unfolding schedule_rows
  AllRows-schedule_rows zero i some le = tt
  AllRows-schedule_rows (suc n) i some le = (
    IsRow-schedule_row i (omega arith) (some i (omega arith)),
    AllRows-schedule_rows n (suc i) some (omega arith),
  )

  TwoSources-schedule_rows :
      (n i : ℕ) → HasTwoBits k p w bitmatrix → i + n ≤ p * w → TwoSources (rows n i)
  unfolding schedule_rows
  TwoSources-schedule_rows zero i some le = tt
  TwoSources-schedule_rows (suc n) i some le = (
    omega (
      arith,
      (meaning i).count,
      count_bits-ones bitmatrix (i * k * w) w (k * w),
      some i (omega arith),
    ),
    TwoSources-schedule_rows n (suc i) some (omega arith),
  )

  -- Each row computes its row of the product.
  apply_row-product :
      (i : ℕ) (v : Values)
      → apply_row (schedule_row k w bitmatrix fresh i) v (k + i / w) (i % w)
        ≡ product k w bitmatrix v i
  unfolding product
  apply_row-product i v =
      let m = meaning i in
      ap₂ (apply_row (schedule_row k w bitmatrix fresh i) v) (sym m.dest_block) (sym m.dest_packet)
      ∙ apply_row-dest (schedule_row k w bitmatrix fresh i) v
      ∙ m.total v

  apply_row_keep :
      (i : ℕ) (v : Values) (b q : ℕ)
      → (k + i / w ≢ b) ⊎ (i % w ≢ q)
      → apply_row (schedule_row k w bitmatrix fresh i) v b q ≡ v b q
  apply_row_keep i v b q away =
      let m = meaning i in
      apply_row-other (schedule_row k w bitmatrix fresh i) v b q
        (rw (m.dest_block, m.dest_packet) away)

  rows_keep :
      (n i : ℕ) (v : Values) (b q : ℕ)
      → ((r : ℕ) → i ≤ r → (k + r / w ≢ b) ⊎ (r % w ≢ q))
      → apply_rows (rows n i) v b q ≡ v b q
  unfolding apply_rows schedule_rows
  rows_keep zero i v b q away = refl
  rows_keep (suc n) i v b q away =
      rows_keep n (suc i) _ b q (λ r hr. away r (omega arith))
      ∙ apply_row_keep i v b q (away i (omega arith))

  dest_unique : (r r' : ℕ) → r ≢ r' → (k + r / w ≢ k + r' / w) ⊎ (r % w ≢ r' % w)
  dest_unique r r' ne = elim (ℕ_discrete (r / w) (r' / w)) [
    | no other ↦ inl (λ e. other (omega arith))
    | yes e ↦
        inr (λ e'.
          ne (omega (arith, div-add-mod' r w, div-add-mod' r' w, ap (λ (t : ℕ). t * w) e, e')))
  ]

  rows-product :
      (n i : ℕ) (v : Values) (r : ℕ)
      → i ≤ r
      → r < i + n
      → apply_rows (rows n i) v (k + r / w) (r % w) ≡ product k w bitmatrix v r
  unfolding apply_rows schedule_rows
  rows-product zero i v r lo hi = absurd (omega arith)
  rows-product (suc n) i v r lo hi = elim (ℕ_discrete i r) [
    | yes e ↦ rw (← e) (
        rows_keep n (suc i) _ (k + i / w) (i % w) (λ r' hr'. dest_unique r' i (omega arith))
        ∙ apply_row-product i v)
    | no ne ↦
        rows-product n (suc i) _ r (omega (arith, ne)) (omega arith)
        ∙ product_congr _ v r (λ b q hb. apply_row_keep i v b q (inl (omega arith)))
  ]

  schedule : List Row
  schedule = bitmatrix_to_schedule k p w bitmatrix fresh

  pub AllRows-bitmatrix_to_schedule :
      HasTwoBits k p w bitmatrix → AllRows (k + p) w (bitmatrix_to_schedule k p w bitmatrix fresh)
  unfolding bitmatrix_to_schedule
  AllRows-bitmatrix_to_schedule some = AllRows-schedule_rows (p * w) 0 some (omega arith)

  pub TwoSources-bitmatrix_to_schedule :
      HasTwoBits k p w bitmatrix → TwoSources (bitmatrix_to_schedule k p w bitmatrix fresh)
  unfolding bitmatrix_to_schedule
  TwoSources-bitmatrix_to_schedule some = TwoSources-schedule_rows (p * w) 0 some (omega arith)

  pub schedule_keep :
      (v : Values) (b q : ℕ)
      → b < k
      → apply_rows (bitmatrix_to_schedule k p w bitmatrix fresh) v b q ≡ v b q
  unfolding bitmatrix_to_schedule
  schedule_keep v b q hb = rows_keep (p * w) 0 v b q (λ r hr. inl (omega arith))

  pub schedule-product :
      (v : Values) (i q : ℕ)
      → i < p
      → q < w
      → apply_rows (bitmatrix_to_schedule k p w bitmatrix fresh) v (k + i) q
        ≡ product k w bitmatrix v (i * w + q)
  unfolding bitmatrix_to_schedule
  schedule-product v i q hi hq =
      ap₂ (apply_rows (rows (p * w) 0) v) (ap (λ (t : ℕ). k + t) (sym (row_of_offset w i q hq)))
        (sym (column_of_offset w i q hq))
      ∙ rows-product (p * w) 0 v (i * w + q) (omega arith) (omega (arith, offset-lt p w i q hi hq))
