-- ===== src/XorMatch/Matching/Listed.antt =====
-- The loops of bitmatrix_to_schedule_PGC_macthing (xorMatch/xorMatchCode.c) that list columns.
use cerasure.Base.{
  ℕ, zero, suc, ◌+◌, ◌*◌, ◌/◌, ◌%◌, ◌<◌, ◌≡◌, refl, sym, ap₂, ◌∙◌, arith, for_range_inv,
  if◌then◌else◌, Bool, true, false,
}
use cerasure.Bits.{◌⊕◌, xor-zero}
use cerasure.Field.Sum.{sum, sum_congr}
use cerasure.XorMatch.Machine.{Row, Values}
use cerasure.XorMatch.Schedule.{RowState, push}
use cerasure.XorMatch.Schedule.Product.{
  push_twice_first, push_twice_second, push_twice_other, push_twice_index,
}
use cerasure.XorMatch.Matching.{count_where, push_where}

module _ (test : ℕ → Bool) (w : ℕ) where
  pub hits : ℕ → ℕ
  hits zero = 0
  hits (suc n) = if test n then hits n + 1 else hits n

  pub count_where-hits : (n : ℕ) → count_where test n ≡ hits n
  unfolding count_where hits
  count_where-hits n =
      for_range_inv (λ j c. c ≡ hits j) (λ j c. if test j then c + 1 else c) 0 n
        (λ j c lo hi e. rw e refl) n 0 0 (omega arith) (omega arith) refl

  -- The first j columns are listed from index base on.
  pub record Listed (base : ℕ) (start : Row) (j : ℕ) (s : RowState) : Type 0 where
    pub index : s.oper_index ≡ base + 2 * hits j
    pub total :
        (v : Values)
        → sum (hits j) (λ t. v (s.row (base + 2 * t)) (s.row (base + 2 * t + 1)))
          ≡ sum j (λ c. if test c then v (c / w) (c % w) else 0)
    pub before : (x : ℕ) → x < base → s.row x ≡ start x

  Listed-skip :
      (base : ℕ) (start : Row) (j : ℕ) (s : RowState)
      → test j ≡ false
      → Listed base start j s
      → Listed base start (suc j) s
  unfolding hits sum
  Listed-skip base start j s off h = record {
    index = rw off h.index;
    total = λ v. rw off (h.total v ∙ sym (xor-zero _));
    before = h.before;
  }

  hits_on : (j : ℕ) → test j ≡ true → hits (suc j) ≡ suc (hits j)
  unfolding hits
  hits_on j on = rw on (omega arith)

  Listed-push :
      (base : ℕ) (start : Row) (j : ℕ) (s : RowState)
      → test j ≡ true
      → Listed base start j s
      → Listed base start (suc j) (push (j % w) (push (j / w) s))
  unfolding sum
  Listed-push base start j s on h =
      let n = base + 2 * hits j in
      let pushed = (push (j % w) (push (j / w) s)).row in
      let first : pushed n ≡ j / w = push_twice_first s (j / w) (j % w) n h.index in
      let second : pushed (n + 1) ≡ j % w = push_twice_second s (j / w) (j % w) n h.index in
      let other : (x : ℕ) → x < n → pushed x ≡ s.row x =
        push_twice_other s (j / w) (j % w) n h.index in
      record {
        index = push_twice_index s (j / w) (j % w) n h.index ∙ omega (arith, hits_on j on);
        total = λ v.
            rw (hits_on j on, on)
              (ap₂ ◌⊕◌
                (sum_congr (hits j) _ _
                    (λ t ht. ap₂ v (other _ (omega arith)) (other _ (omega arith)))
                  ∙ h.total v)
                (ap₂ v first second));
        before = λ x hx. other x (omega arith) ∙ h.before x hx;
      }

  Listed-step :
      (base : ℕ) (start : Row) (j : ℕ) (s : RowState) (bit : Bool)
      → test j ≡ bit
      → Listed base start j s
      → Listed base start (suc j) (if bit then push (j % w) (push (j / w) s) else s)
  Listed-step base start j s true e h = Listed-push base start j s e h
  Listed-step base start j s false e h = Listed-skip base start j s e h

  pub Listed-push_where :
      (base n : ℕ) (s : RowState)
      → s.oper_index ≡ base
      → Listed base s.row n (push_where test w n s)
  unfolding push_where hits sum
  Listed-push_where base n s at =
      for_range_inv (Listed base s.row) (λ j s. if test j then push (j % w) (push (j / w) s) else s)
        0 n (λ j t lo hi h. Listed-step base s.row j t (test j) refl h) n 0 s (omega arith)
        (omega arith)
        (record { index = omega (arith, at); total = λ v. refl; before = λ x hx. refl })
