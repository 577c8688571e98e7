-- ===== src/XorMatch/Schedule/Product.antt =====
-- What the rows of bitmatrix_to_schedule (xorMatch/vandermonde.c) compute, against the product of the
-- bit matrix and the packets.
use native.Mathlib.Nat.{div-lt_iff_lt-mul, mod-lt}
use cerasure.Base.{
  ℕ, zero, suc, ◌+◌, ◌*◌, ◌/◌, ◌%◌, ◌<◌, ◌≡◌, ◌≢◌, refl, sym, subst, ap, ap₂, ◌∙◌, arith, Block,
  set, set_self, set_ne, for_range_inv, ◌==◌, if◌then◌else◌, ℕ_discrete,
}
use cerasure.Bits.{◌⊕◌, xor-zero}
use cerasure.Field.Sum.{sum, sum_congr}
use cerasure.XorMatch.Machine.{Row, Values}
use cerasure.XorMatch.Schedule.{RowState, push, count_bits, push_sources, schedule_row}

-- A bit times a value.
unfoldable pub select : ℕ → ℕ → ℕ
select bit x = if bit == 0 then 0 else x

select_on : (bit x : ℕ) → bit ≢ 0 → select bit x ≡ x
unfolding select
select_on bit x on = ground (arith, on)

module _ (s : RowState) (a b n : ℕ) (at : s.oper_index ≡ n) where
  pub push_twice_first : (push b (push a s)).row n ≡ a
  unfolding push
  push_twice_first =
      set_ne (set s.row s.oper_index a) (s.oper_index + 1) n b (omega arith)
      ∙ rw at (set_self s.row n a)

  pub push_twice_second : (push b (push a s)).row (n + 1) ≡ b
  unfolding push
  push_twice_second = rw at (set_self (set s.row n a) (n + 1) b)

  pub push_twice_other : (x : ℕ) → x < n → (push b (push a s)).row x ≡ s.row x
  unfolding push
  push_twice_other x h =
      set_ne (set s.row s.oper_index a) (s.oper_index + 1) x b (omega arith)
      ∙ set_ne s.row s.oper_index x a (omega arith)

  pub push_twice_index : (push b (push a s)).oper_index ≡ n + 2
  unfolding push
  push_twice_index = omega arith

module _ (bitmatrix : Block ℕ) (from w : ℕ) where
  abbrev bit : ℕ → ℕ
  bit j = bitmatrix (from + j)

  unfoldable pub ones : ℕ → ℕ
  ones zero = 0
  ones (suc n) = if bit n == 0 then ones n else ones n + 1

  abbrev term : Values → ℕ → ℕ
  term v j = select (bit j) (v (j / w) (j % w))

  pub count_bits-ones : (n : ℕ) → count_bits bitmatrix from n ≡ ones n
  unfolding count_bits ones
  count_bits-ones n =
      for_range_inv (λ j c. c ≡ ones j) (λ j c. if bit j == 0 then c else c + 1) 0 n
        (λ j c lo hi e. rw e refl) n 0 0 (omega arith) (omega arith) refl

  -- The sources that stand in a row for the first j columns.
  record Sources (k : ℕ) (start : Row) (j : ℕ) (s : RowState) : Type 0 where
    index : s.oper_index ≡ 2 * ones j + 3
    total :
        (v : Values)
        → sum (ones j) (λ t. v (s.row (2 * t + 3)) (s.row (2 * t + 4))) ≡ sum j (term v)
    blocks : (t : ℕ) → t < ones j → s.row (2 * t + 3) < k
    packets : (t : ℕ) → t < ones j → s.row (2 * t + 4) < w
    head : (x : ℕ) → x < 3 → s.row x ≡ start x

  if_yes : {A : Type 0} (x y : A) {b : ℕ} → b ≡ 0 → (if b == 0 then x else y) ≡ x
  if_yes x y e = ground (arith, e)

  if_no : {A : Type 0} (x y : A) {b : ℕ} → b ≢ 0 → (if b == 0 then x else y) ≡ y
  if_no x y ne = ground (arith, ne)

  Sources-skip :
      (k : ℕ) (start : Row) (j : ℕ) (s : RowState)
      → bit j ≡ 0
      → Sources k start j s
      → Sources k start (suc j) s
  unfolding ones sum select
  Sources-skip k start j s off before = record {
    index = rw off before.index;
    total = λ v. rw off (before.total v ∙ sym (xor-zero _));
    blocks = λ t ht. before.blocks t (rw off at ht);
    packets = λ t ht. before.packets t (rw off at ht);
    head = before.head;
  }

  ones_on : (j : ℕ) → bit j ≢ 0 → ones (suc j) ≡ suc (ones j)
  unfolding ones
  ones_on j on = ground (arith, on)

  Sources-push :
      (k : ℕ) (start : Row) (j : ℕ) (s : RowState)
      → 0 < w
      → j < k * w
      → bit j ≢ 0
      → Sources k start j s
      → Sources k start (suc j) (push (j % w) (push (j / w) s))
  unfolding sum select
  Sources-push k start j s pos hj on before =
      let n = 2 * ones j + 3 in
      let pushed = (push (j % w) (push (j / w) s)).row in
      let first : pushed n ≡ j / w = push_twice_first s (j / w) (j % w) n before.index in
      let second : pushed (2 * ones j + 4) ≡ j % w =
        ap pushed (omega arith) ∙ push_twice_second s (j / w) (j % w) n before.index in
      let other : (x : ℕ) → x < n → pushed x ≡ s.row x =
        push_twice_other s (j / w) (j % w) n before.index in
      record {
        index = push_twice_index s (j / w) (j % w) n before.index ∙ omega (arith, ones_on j on);
        total = λ v. rw (ones_on j on) (
            ap₂ ◌⊕◌
              (sum_congr (ones j) _ _
                  (λ t ht. ap₂ v (other _ (omega arith)) (other _ (omega arith)))
                ∙ before.total v)
              (ap₂ v first second ∙ sym (select_on (bit j) _ on)));
        blocks = λ t ht. elim (ℕ_discrete t (ones j)) [
          | yes e ↦ rw (e, first) ((div-lt_iff_lt-mul pos).1 hj)
          | no ne ↦
              rw (other (2 * t + 3) (omega (arith, ones_on j on, ne)))
                (before.blocks t (omega (arith, ones_on j on, ne)))
        ];
        packets = λ t ht. elim (ℕ_discrete t (ones j)) [
          | yes e ↦ rw (e, second) (mod-lt j pos)
          | no ne ↦
              rw (other (2 * t + 4) (omega (arith, ones_on j on, ne)))
                (before.packets t (omega (arith, ones_on j on, ne)))
        ];
        head = λ x hx. other x (omega arith) ∙ before.head x hx;
      }

  Sources-step :
      (k : ℕ) (start : Row) (j : ℕ) (s : RowState)
      → 0 < w
      → j < k * w
      → Sources k start j s
      → Sources k start (suc j) (if bit j == 0 then s else push (j % w) (push (j / w) s))
  Sources-step k start j s pos hj before = elim (ℕ_discrete (bit j) 0) [
    | yes e ↦
        subst (Sources k start (suc j)) (sym (if_yes _ _ e)) (Sources-skip k start j s e before)
    | no ne ↦
        subst (Sources k start (suc j)) (sym (if_no _ _ ne))
          (Sources-push k start j s pos hj ne before)
  ]

  Sources-push_sources :
      (k : ℕ) (s : RowState)
      → 0 < w
      → s.oper_index ≡ 3
      → Sources k s.row (k * w) (push_sources bitmatrix from w (k * w) s)
  unfolding push_sources ones sum
  Sources-push_sources k s pos at =
      for_range_inv (Sources k s.row)
        (λ j s. if bit j == 0 then s else push (j % w) (push (j / w) s)) 0 (k * w)
        (λ j t lo hi before. Sources-step k s.row j t pos hi before) (k * w) 0 s (omega arith)
        (omega arith)
        (record {
          index = at;
          total = λ v. refl;
          blocks = λ t ht. absurd (omega arith);
          packets = λ t ht. absurd (omega arith);
          head = λ x hx. refl;
        })

-- A row of the schedule, for row i of the bit matrix.
pub record RowMeaning (k w : ℕ) (bitmatrix : Block ℕ) (i : ℕ) (row : Row) : Type 0 where
  pub count : row 0 ≡ ones bitmatrix (i * k * w) w (k * w)
  pub dest_block : row 1 ≡ k + i / w
  pub dest_packet : row 2 ≡ i % w
  pub source_block : (j : ℕ) → j < row 0 → row (2 * j + 3) < k
  pub source_packet : (j : ℕ) → j < row 0 → row (2 * j + 4) < w
  pub total :
      (v : Values)
      → sum (row 0) (λ j. v (row (2 * j + 3)) (row (2 * j + 4)))
        ≡ sum (k * w) (λ j. select (bitmatrix (i * k * w + j)) (v (j / w) (j % w)))

pub schedule_row-RowMeaning :
    (k w : ℕ) (bitmatrix fresh : Block ℕ) (i : ℕ)
    → 0 < w
    → RowMeaning k w bitmatrix i (schedule_row k w bitmatrix fresh i)
unfolding schedule_row
schedule_row-RowMeaning k w bitmatrix fresh i pos =
    let start : RowState = record {
      row = set fresh 0 (count_bits bitmatrix (i * k * w) (k * w));
      oper_index = 1;
    } in
    let named = push (i % w) (push (k + i / w) start) in
    let sources =
      Sources-push_sources bitmatrix (i * k * w) w k named pos
        (push_twice_index start (k + i / w) (i % w) 1 refl) in
    let counted : (push_sources bitmatrix (i * k * w) w (k * w) named).row 0
        ≡ ones bitmatrix (i * k * w) w (k * w) =
      sources.head 0 (omega arith)
      ∙ push_twice_other start (k + i / w) (i % w) 1 refl 0 (omega arith)
      ∙ set_self fresh 0 _
      ∙ count_bits-ones bitmatrix (i * k * w) w (k * w) in
    record {
      count = counted;
      dest_block = sources.head 1 (omega arith) ∙ push_twice_first start (k + i / w) (i % w) 1 refl;
      dest_packet =
          sources.head 2 (omega arith) ∙ push_twice_second start (k + i / w) (i % w) 1 refl;
      source_block = λ j hj. sources.blocks j (rw (← counted) hj);
      source_packet = λ j hj. sources.packets j (rw (← counted) hj);
      total = λ v. rw counted (sources.total v);
    }
