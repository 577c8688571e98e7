-- ===== src/Encode/Grid.antt =====
-- A double loop that rewrites byte i of buffer l from its old value, for l < rows and i < len.
use cerasure.Base.{
  ℕ, suc, ◌<◌, ◌≤◌, ◌≡◌, ◌≢◌, refl, ap, ◌∙◌, ◌⊎◌, inl, inr, arith, Block, set, set_self, set_ne,
  for_range, for_range_inv, ℕ_discrete,
}

module _ (g : ℕ → ℕ → ℕ → ℕ) where
  abbrev pub write : ℕ → ℕ → Block (Block ℕ) → Block (Block ℕ)
  write l i d = set d l (set (d l) i (g l i (d l i)))

  pub write_self : (l i : ℕ) (d : Block (Block ℕ)) → write l i d l i ≡ g l i (d l i)
  write_self l i d =
      ap (λ (b : Block ℕ). b i) (set_self d l (set (d l) i (g l i (d l i))))
      ∙ set_self (d l) i (g l i (d l i))

  pub write_ne :
      (l i l' i' : ℕ) (d : Block (Block ℕ)) → (l ≢ l') ⊎ (i ≢ i') → write l i d l' i' ≡ d l' i'
  write_ne l i l' i' d (inl ne) = ap (λ (b : Block ℕ). b i') (set_ne d l l' _ ne)
  write_ne l i l' i' d (inr ne) = elim (ℕ_discrete l l') [
    | yes e ↦ rw (← e) (
        ap (λ (b : Block ℕ). b i') (set_self d l (set (d l) i (g l i (d l i))))
        ∙ set_ne (d l) i i' _ ne)
    | no away ↦ ap (λ (b : Block ℕ). b i') (set_ne d l l' _ away)
  ]

  module _ (len l : ℕ) (dest : Block (Block ℕ)) where
    record RowDone (k : ℕ) (d : Block (Block ℕ)) : Type 0 where
      inside : (i : ℕ) → i < k → d l i ≡ g l i (dest l i)
      outside : (l' i : ℕ) → (l ≢ l') ⊎ (k ≤ i) → d l' i ≡ dest l' i

    RowDone-write : (k : ℕ) (d : Block (Block ℕ)) → RowDone k d → RowDone (suc k) (write l k d)
    RowDone-write k d w = record {
      inside = λ i lt. elim (ℕ_discrete k i) [
        | yes e ↦ rw (← e) (write_self l k d ∙ ap (g l k) (w.outside l k (inr (omega arith))))
        | no ne ↦ write_ne l k l i d (inr ne) ∙ w.inside i (omega (arith, ne))
      ];
      outside = λ l' i away. elim away [
        | inl ne ↦ write_ne l k l' i d (inl ne) ∙ w.outside l' i (inl ne)
        | inr le ↦ write_ne l k l' i d (inr (omega arith)) ∙ w.outside l' i (inr (omega arith))
      ];
    }

    RowDone-loop : RowDone len (for_range len 0 (write l) dest)
    RowDone-loop =
        for_range_inv RowDone (write l) 0 len (λ k d lo hi w. RowDone-write k d w) len 0 dest
          (omega arith) (omega arith)
          (record { inside = λ i lt. absurd (omega arith); outside = λ l' i away. refl })

  module _ (len rows : ℕ) (dest : Block (Block ℕ)) where
    record GridDone (k : ℕ) (d : Block (Block ℕ)) : Type 0 where
      inside : (l i : ℕ) → l < k → i < len → d l i ≡ g l i (dest l i)
      outside : (l i : ℕ) → (k ≤ l) ⊎ (len ≤ i) → d l i ≡ dest l i

    GridDone-row :
        (k : ℕ) (d : Block (Block ℕ))
        → GridDone k d
        → GridDone (suc k) (for_range len 0 (write k) d)
    GridDone-row k d w = record {
      inside = λ l i hl hi. elim (ℕ_discrete k l) [
        | yes e ↦ rw (← e) (
            RowDone.inside (RowDone-loop len k d) i hi
            ∙ ap (g k i) (w.outside k i (inl (omega arith))))
        | no ne ↦
            RowDone.outside (RowDone-loop len k d) l i (inl ne)
            ∙ w.inside l i (omega (arith, ne)) hi
      ];
      outside = λ l i away. elim away [
        | inl le ↦
            RowDone.outside (RowDone-loop len k d) l i (inl (omega arith))
            ∙ w.outside l i (inl (omega arith))
        | inr le ↦ RowDone.outside (RowDone-loop len k d) l i (inr le) ∙ w.outside l i (inr le)
      ];
    }

    GridDone-loop : GridDone rows (for_range rows 0 (λ l. for_range len 0 (write l)) dest)
    GridDone-loop =
        for_range_inv GridDone (λ l. for_range len 0 (write l)) 0 rows
          (λ k d lo hi w. GridDone-row k d w) rows 0 dest (omega arith) (omega arith)
          (record { inside = λ l i lt hi. absurd (omega arith); outside = λ l i away. refl })

    pub grid_inside :
        (l i : ℕ)
        → l < rows
        → i < len
        → for_range rows 0 (λ l. for_range len 0 (write l)) dest l i ≡ g l i (dest l i)
    grid_inside = GridDone-loop.inside

    pub grid_outside :
        (l i : ℕ)
        → (rows ≤ l) ⊎ (len ≤ i)
        → for_range rows 0 (λ l. for_range len 0 (write l)) dest l i ≡ dest l i
    grid_outside = GridDone-loop.outside
