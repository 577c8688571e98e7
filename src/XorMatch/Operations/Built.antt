-- ===== src/XorMatch/Operations/Built.antt =====
-- How far the operations have come when the columns of each row up to some place are visited.
use cerasure.Base.{
  ℕ, suc, ◌+◌, ◌*◌, ◌/◌, ◌%◌, ◌<◌, ◌≡◌, ◌≢◌, ◌⊎◌, inl, inr, refl, sym, ap, ◌∙◌, arith, Block,
  set_self, set_ne, ◌==◌, ==_ne, if◌then◌else◌, ℕ_discrete,
}
use cerasure.Bits.{◌⊕◌, xor-zero, zero-xor}
use cerasure.Field.Sum.{sum}
use cerasure.XorMatch.Machine.{Values}
use cerasure.XorMatch.Matching.Run.{put_self, put_other}
use cerasure.XorMatch.Program.Refine.{place_unique}
use cerasure.XorMatch.Schedule.Product.{select, ones}
use cerasure.XorMatch.Operations.{OperState, emit, visit}
use cerasure.XorMatch.Operations.Run.{apply_operation, apply_operations, apply_operations-append}

module _ (k p w : ℕ) (bitmatrix : Block ℕ) (d v : Values) where
  abbrev pub bits_seen : ℕ → ℕ → ℕ
  bits_seen r n = ones bitmatrix (r * k * w) w n

  -- The first n columns of row r times the data packets.
  abbrev pub partial_sum : ℕ → ℕ → ℕ
  partial_sum r n = sum n (λ c. select (bitmatrix (r * k * w + c)) (d (c / w) (c % w)))

  abbrev pub parity : OperState → ℕ → ℕ
  parity s r = apply_operations s.operations d v (r / w) (r % w)

  -- Nothing has been written to parity packet r.
  pub record Untouched (r n : ℕ) (s : OperState) : Type 0 where
    pub no_tag : s.copy_xor_tag r ≡ 0
    pub kept : parity s r ≡ v (r / w) (r % w)
    pub no_bits : bits_seen r n ≡ 0
    pub no_sum : partial_sum r n ≡ 0

  pub record Started (r n : ℕ) (s : OperState) : Type 0 where
    pub tag : s.copy_xor_tag r ≡ 1
    pub partly : parity s r ≡ partial_sum r n
    pub some_bits : bits_seen r n ≢ 0

  -- The first `seen r` columns of row r have been visited.
  abbrev pub Built : (ℕ → ℕ) → OperState → Type 0
  Built seen s = (r : ℕ) → r < p * w → Untouched r (seen r) s ⊎ Started r (seen r) s

  module _ (i j : ℕ) (s : OperState) where
    abbrev source : ℕ
    source = d (i / w) (i % w)

    abbrev tag_of : ℕ → ℕ
    tag_of t = if t == 1 then 1 else 0

    emit-parity :
        parity (emit w i j s) j
        ≡ (if tag_of (s.copy_xor_tag j) == 0 then source else parity s j ⊕ source)
    unfolding emit apply_operation
    emit-parity =
        ap (λ (m : Values). m (j / w) (j % w)) (apply_operations-append s.operations _ d v)
        ∙ put_self (apply_operations s.operations d v) (j / w) (j % w) _

    emit-copy : s.copy_xor_tag j ≡ 0 → parity (emit w i j s) j ≡ source
    emit-copy e = emit-parity ∙ rw e refl

    emit-xor : s.copy_xor_tag j ≡ 1 → parity (emit w i j s) j ≡ parity s j ⊕ source
    emit-xor e = emit-parity ∙ rw e refl

    emit-other : (r : ℕ) → r ≢ j → parity (emit w i j s) r ≡ parity s r
    unfolding emit apply_operation
    emit-other r ne =
        ap (λ (m : Values). m (r / w) (r % w)) (apply_operations-append s.operations _ d v)
        ∙ put_other (apply_operations s.operations d v) (j / w) (j % w) _ (r / w) (r % w)
            (place_unique w j r (λ e. ne (sym e)))

    emit-other_tag : (r : ℕ) → r ≢ j → (emit w i j s).copy_xor_tag r ≡ s.copy_xor_tag r
    unfolding emit
    emit-other_tag r ne = ground (arith, set_ne s.copy_xor_tag j r 1 (λ e. ne (sym e)))

    emit-tag : (emit w i j s).copy_xor_tag j ≡ 1
    unfolding emit
    emit-tag = ground (arith, set_self s.copy_xor_tag j 1)

    -- Column i of row j, whose columns before i have been visited.
    visit-clear :
        bitmatrix (j * k * w + i) ≡ 0
        → Untouched j i s ⊎ Started j i s
        → Untouched j (suc i) s ⊎ Started j (suc i) s
    unfolding sum select ones
    visit-clear z before = elim before [
      | inl u ↦ inl (record {
        no_tag = u.no_tag;
        kept = u.kept;
        no_bits = rw z u.no_bits;
        no_sum = rw z (xor-zero (partial_sum j i) ∙ u.no_sum);
      })
      | inr u ↦ inr (record {
        tag = u.tag;
        partly = rw z (u.partly ∙ sym (xor-zero (partial_sum j i)));
        some_bits = rw z u.some_bits;
      })
    ]

    next_sum : bitmatrix (j * k * w + i) ≢ 0 → partial_sum j (suc i) ≡ partial_sum j i ⊕ source
    unfolding sum select
    next_sum nz = rw (==_ne (bitmatrix (j * k * w + i)) 0 nz) refl

    next_bits : bitmatrix (j * k * w + i) ≢ 0 → bits_seen j (suc i) ≢ 0
    unfolding ones
    next_bits nz = rw (==_ne (bitmatrix (j * k * w + i)) 0 nz) (λ e. absurd (omega (arith, e)))

    visit-set :
        bitmatrix (j * k * w + i) ≢ 0
        → Untouched j i s ⊎ Started j i s
        → Started j (suc i) (emit w i j s)
    visit-set nz before = record {
      tag = emit-tag;
      partly = elim before [
        | inl u ↦
            emit-copy u.no_tag
            ∙ sym (next_sum nz ∙ ap (λ (t : ℕ). t ⊕ source) u.no_sum ∙ zero-xor source)
        | inr u ↦ emit-xor u.tag ∙ ap (λ (t : ℕ). t ⊕ source) u.partly ∙ sym (next_sum nz)
      ];
      some_bits = next_bits nz;
    }

    visit-here :
        (index : ℕ)
        → index ≡ j * k * w + i
        → Untouched j i s ⊎ Started j i s
        → let s' = visit bitmatrix w index i j s in Untouched j (suc i) s' ⊎ Started j (suc i) s'
    unfolding visit
    visit-here index e before = elim (ℕ_discrete (bitmatrix (j * k * w + i)) 0) [
      | yes z ↦ rw (e, z) (visit-clear z before)
      | no nz ↦ rw (e, ==_ne (bitmatrix (j * k * w + i)) 0 nz) (inr (visit-set nz before))
    ]

    visit-other :
        (index r n : ℕ)
        → r ≢ j
        → Untouched r n s ⊎ Started r n s
        → let s' = visit bitmatrix w index i j s in Untouched r n s' ⊎ Started r n s'
    unfolding visit
    visit-other index r n ne before = elim (ℕ_discrete (bitmatrix index) 0) [
      | yes z ↦ rw z before
      | no nz ↦ rw (==_ne (bitmatrix index) 0 nz) (elim before [
        | inl u ↦ inl (record {
          no_tag = emit-other_tag r ne ∙ u.no_tag;
          kept = emit-other r ne ∙ u.kept;
          no_bits = u.no_bits;
          no_sum = u.no_sum;
        })
        | inr u ↦ inr (record {
          tag = emit-other_tag r ne ∙ u.tag;
          partly = emit-other r ne ∙ u.partly;
          some_bits = u.some_bits;
        })
      ])
    ]

  -- One more column of one row.
  pub Built-visit :
      (seen next : ℕ → ℕ) (index i j : ℕ) (s : OperState)
      → index ≡ j * k * w + i
      → seen j ≡ i
      → next j ≡ suc i
      → ((r : ℕ) → r ≢ j → next r ≡ seen r)
      → Built seen s
      → Built next (visit bitmatrix w index i j s)
  Built-visit seen next index i j s e here there others b r hr = elim (ℕ_discrete r j) [
    | yes same ↦ rw (same, there) (visit-here i j s index e (rw (same, here) at (b r hr)))
    | no ne ↦ rw (others r ne) (visit-other i j s index r (seen r) ne (b r hr))
  ]
