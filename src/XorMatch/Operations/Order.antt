-- ===== src/XorMatch/Operations/Order.antt =====
-- The schedules of bitmatrix_to_schedule_DGC and bitmatrix_to_schedule_PGC_mad
-- (xorMatch/xorMatchCode.c), run in order.
use native.Mathlib.Nat.{mul_assoc}
use cerasure.Base.{
  row_of_offset, column_of_offset, offset-lt, fill, fill_inside, ℕ, suc, ◌+◌, ◌*◌, ◌/◌, ◌%◌, ◌<◌,
  ◌≡◌, inl, inr, refl, ap, ◌∙◌, arith, List, Block, for_range_inv, ◌==◌, ==_ne, if◌then◌else◌, ltb,
}
use cerasure.Field.Sum.{sum}
use cerasure.XorMatch.Machine.{Values}
use cerasure.XorMatch.Schedule.{count_bits}
use cerasure.XorMatch.Schedule.Product.{count_bits-ones, ones}
use cerasure.XorMatch.Schedule.Rows.{product}
use cerasure.XorMatch.Operations.{
  Operation, OperState, no_operations, dgc_column, bitmatrix_to_schedule_dgc, pgc_mad_row,
  bitmatrix_to_schedule_pgc_mad,
}
use cerasure.XorMatch.Operations.Run.{apply_operations}
use cerasure.XorMatch.Operations.Built.{Built, Built-visit}

module _ (k p w : ℕ) (bitmatrix fresh : Block ℕ) (d v : Values) where
  abbrev Seen : (ℕ → ℕ) → OperState → Type 0
  Seen = Built k p w bitmatrix d v

  Built-no_operations : Seen (λ r. 0) (no_operations p w fresh)
  unfolding no_operations
  Built-no_operations r hr = inl (record {
    no_tag =
        ap (fill 0 (p * w) (λ i. 0) fresh) {x = r} {y = 0 + r} (omega arith)
        ∙ fill_inside 0 (p * w) (λ i. 0) fresh r hr;
    kept = unfold apply_operations in refl;
    no_bits = unfold ones in refl;
    no_sum = unfold sum in refl;
  })

  Built_congr :
      (seen next : ℕ → ℕ) (s : OperState)
      → ((r : ℕ) → r < p * w → next r ≡ seen r)
      → Seen seen s
      → Seen next s
  Built_congr seen next s e b r hr = rw (e r hr) (b r hr)

  dgc_index : (i j : ℕ) → i + j * (k * w) ≡ j * k * w + i
  dgc_index i j = omega (arith, mul_assoc j k w)

  -- Column i of the rows before j, and the columns before it of the others.
  abbrev by_column : ℕ → ℕ → ℕ → ℕ
  by_column i j r = if ltb r j then suc i else i

  Built-dgc_column :
      (i : ℕ) (s : OperState) → Seen (λ r. i) s → Seen (λ r. suc i) (dgc_column k p w bitmatrix i s)
  unfolding dgc_column
  Built-dgc_column i s b =
      Built_congr (by_column i (p * w)) (λ r. suc i) _ (λ r hr. ground arith)
        (for_range_inv (λ j t. Seen (by_column i j) t) _ 0 (p * w)
          (λ j t lo hi b'.
            Built-visit k p w bitmatrix d v (by_column i j) (by_column i (suc j)) (i + j * (k * w))
              i j t (dgc_index i j) (ground arith) (ground arith) (λ r ne. ground arith) b')
          (p * w) 0 s (omega arith) (omega arith)
          (Built_congr (λ r. i) (by_column i 0) s (λ r hr. ground arith) b))

  -- Every column of the rows before i, and those before j of row i.
  abbrev by_row : ℕ → ℕ → ℕ → ℕ
  by_row i j r = if ltb r i then k * w else if r == i then j else 0

  Built-pgc_mad_row :
      (i : ℕ) (s : OperState)
      → Seen (by_row i 0) s
      → Seen (by_row (suc i) 0) (pgc_mad_row k w bitmatrix i s)
  unfolding pgc_mad_row
  Built-pgc_mad_row i s b =
      Built_congr (by_row i (k * w)) (by_row (suc i) 0) _ (λ r hr. ground arith)
        (for_range_inv (λ j t. Seen (by_row i j) t) _ 0 (k * w)
          (λ j t lo hi b'.
            Built-visit k p w bitmatrix d v (by_row i j) (by_row i (suc j)) (i * k * w + j) j i t
              refl (ground arith) (ground arith) (λ r ne. ground arith) b')
          (k * w) 0 s (omega arith) (omega arith) b)

  abbrev AllSeen : List Operation → Type 0
  AllSeen operations =
      (r : ℕ)
      → r < p * w
      → apply_operations operations d v (r / w) (r % w) ≡ (
          if count_bits bitmatrix (r * k * w) (k * w) == 0
          then v (r / w) (r % w)
          else product k w bitmatrix d r)

  AllSeen-Built : (s : OperState) → Seen (λ r. k * w) s → AllSeen s.operations
  unfolding product
  AllSeen-Built s b r hr = rw (count_bits-ones bitmatrix (r * k * w) w (k * w)) (elim (b r hr) [
    | inl u ↦ rw u.no_bits u.kept
    | inr u ↦ rw (==_ne (ones bitmatrix (r * k * w) w (k * w)) 0 u.some_bits) u.partly
  ])

  AllSeen-dgc : AllSeen (bitmatrix_to_schedule_dgc k p w bitmatrix fresh)
  unfolding bitmatrix_to_schedule_dgc
  AllSeen-dgc = AllSeen-Built _ (
      for_range_inv (λ i s. Seen (λ r. i) s) (dgc_column k p w bitmatrix) 0 (k * w)
        (λ i s lo hi b. Built-dgc_column i s b) (k * w) 0 (no_operations p w fresh) (omega arith)
        (omega arith) Built-no_operations)

  AllSeen-pgc_mad : AllSeen (bitmatrix_to_schedule_pgc_mad k p w bitmatrix fresh)
  unfolding bitmatrix_to_schedule_pgc_mad
  AllSeen-pgc_mad = AllSeen-Built _ (
      Built_congr (by_row (p * w) 0) (λ r. k * w) _ (λ r hr. ground arith)
        (for_range_inv (λ i s. Seen (by_row i 0) s) (pgc_mad_row k w bitmatrix) 0 (p * w)
          (λ i s lo hi b. Built-pgc_mad_row i s b) (p * w) 0 (no_operations p w fresh) (omega arith)
          (omega arith)
          (Built_congr (λ r. 0) (by_row 0 0) _ (λ r hr. ground arith) Built-no_operations)))

-- The operations of bitmatrix_to_schedule_DGC, run in order, and those of
-- bitmatrix_to_schedule_PGC_mad leave in each of the p * w parity packets the product of its row and
-- the data packets, but keep the packet of a row without a bit that is set.
pub bitmatrix_to_schedule_dgc-product :
    (k p w : ℕ) (bitmatrix fresh : Block ℕ) (d v : Values) (b q : ℕ)
    → b < p
    → q < w
    → let r = b * w + q in
      let expected =
        if count_bits bitmatrix (r * k * w) (k * w) == 0
        then v b q
        else product k w bitmatrix d r in
      (apply_operations (bitmatrix_to_schedule_dgc k p w bitmatrix fresh) d v b q ≡ expected)
      × (apply_operations (bitmatrix_to_schedule_pgc_mad k p w bitmatrix fresh) d v b q ≡ expected)
bitmatrix_to_schedule_dgc-product k p w bitmatrix fresh d v b q hb hq =
    let r = b * w + q in
    let hr = offset-lt p w b q hb hq in
    (
      rw (row_of_offset w b q hq, column_of_offset w b q hq) at
          (AllSeen-dgc k p w bitmatrix fresh d v r hr),
      rw (row_of_offset w b q hq, column_of_offset w b q hq) at
          (AllSeen-pgc_mad k p w bitmatrix fresh d v r hr),
    )
