-- ===== src/XorMatch/Reads.antt =====
-- Schedules with temporary blocks: what they compute does not depend on what stands there before.
use cerasure.Base.{ℕ, ◌+◌, ◌*◌, ◌<◌, ◌≡◌, ◌≢◌, ◌⊎◌, inl, inr, sym, ◌∙◌, List, [], ◌∷◌, ℕ_discrete}
use cerasure.Field.Sum.{sum_congr}
use cerasure.XorMatch.Machine.{
  Row, Values, Agree, apply_row, apply_rows, apply_row-dest, apply_row-other,
}

-- Each row reads packets that are known at the start, or that an earlier row writes.
abbrev pub ReadsKnown : (ℕ → ℕ → Type 0) → List Row → Type 0
ReadsKnown Known [] = Unit
ReadsKnown Known (row ∷ rows) =
    ((j : ℕ) → j < row 0 → Known (row (2 * j + 3)) (row (2 * j + 4)))
    × ReadsKnown (λ b q. Known b q ⊎ ((row 1 ≡ b) × (row 2 ≡ q))) rows

AgreeOn : (ℕ → ℕ → Type 0) → Values → Values → Type 0
AgreeOn Known v v' = (b q : ℕ) → Known b q → v b q ≡ v' b q

apply_row-AgreeOn :
    (Known : ℕ → ℕ → Type 0) (row : Row) (v v' : Values)
    → ((j : ℕ) → j < row 0 → Known (row (2 * j + 3)) (row (2 * j + 4)))
    → AgreeOn Known v v'
    → AgreeOn (λ b q. Known b q ⊎ ((row 1 ≡ b) × (row 2 ≡ q))) (apply_row row v) (apply_row row v')
unfolding AgreeOn
apply_row-AgreeOn Known row v v' reads same b q known =
    let wrote : apply_row row v (row 1) (row 2) ≡ apply_row row v' (row 1) (row 2) =
      apply_row-dest row v
      ∙ sum_congr (row 0) _ _ (λ j hj. same _ _ (reads j hj))
      ∙ sym (apply_row-dest row v') in
    let kept : (row 1 ≢ b) ⊎ (row 2 ≢ q) → Known b q → apply_row row v b q ≡ apply_row row v' b q =
      λ ne h. apply_row-other row v b q ne ∙ same b q h ∙ sym (apply_row-other row v' b q ne) in
    elim known [
      | inr (e, e') ↦ rw (← e, ← e') wrote
      | inl h ↦ elim (ℕ_discrete (row 1) b) [
        | no ne ↦ kept (inl ne) h
        | yes e ↦ elim (ℕ_discrete (row 2) q) [
          | no ne ↦ kept (inr ne) h
          | yes e' ↦ rw (← e, ← e') wrote
        ]
      ]
    ]

apply_rows-AgreeOn :
    (Known : ℕ → ℕ → Type 0) (rows : List Row) (v v' : Values)
    → ReadsKnown Known rows
    → AgreeOn Known v v'
    → AgreeOn Known (apply_rows rows v) (apply_rows rows v')
unfolding AgreeOn apply_rows
apply_rows-AgreeOn Known [] v v' reads same b q h = same b q h
apply_rows-AgreeOn Known (row ∷ rows) v v' (reads, later) same b q h =
    apply_rows-AgreeOn (λ b q. Known b q ⊎ ((row 1 ≡ b) × (row 2 ≡ q))) rows _ _ later
      (apply_row-AgreeOn Known row v v' reads same) b q (inl h)

-- The first n blocks determine what is computed there, when only they are read before they are
-- written.
pub reads_determined :
    (n : ℕ) (rows : List Row) (v v' : Values)
    → ReadsKnown (λ b q. b < n) rows
    → Agree n v v'
    → Agree n (apply_rows rows v) (apply_rows rows v')
unfolding AgreeOn
reads_determined n rows v v' reads same b q hb =
    apply_rows-AgreeOn (λ b q. b < n) rows v v' reads (λ b q h. same b q h) b q hb
