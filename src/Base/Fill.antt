-- ===== src/Base/Fill.antt =====
-- A loop that writes n cells in a row.
use Prim.Native.Nat.{ℕ, suc, ◌+◌, ◌≤◌, ◌<◌}
use mathlib.Core.Path.{◌≡◌, refl, ◌∙◌}
use mathlib.Core.Logic.{◌⊎◌, inl, inr}
use native.Mathlib.Decide.{ℕ_discrete}
use native.Mathlib.Omega.{arith}
use cerasure.Base.Memory.{Block, set, set_self, set_ne}
use cerasure.Base.Loops.{for_range, for_range_inv}

module _ {ℓ} {A : Type ℓ} where
  unfoldable pub fill : ℕ → ℕ → (ℕ → A) → Block A → Block A
  unfolding for_range
  fill base n g m = for_range n 0 (λ k m. set m (base + k) (g k)) m

module _ {ℓ} {A : Type ℓ} (base n : ℕ) (g : ℕ → A) (m : Block A) where
  record Filled (k : ℕ) (m' : Block A) : Type ℓ where
    inside : (i : ℕ) → i < k → m' (base + i) ≡ g i
    outside : (q : ℕ) → (q < base) ⊎ (base + k ≤ q) → m' q ≡ m q

  Filled-set : (k : ℕ) (m' : Block A) → Filled k m' → Filled (suc k) (set m' (base + k) (g k))
  Filled-set k m' w = record {
    inside = λ i lt. elim (ℕ_discrete i k) [
      | yes e ↦ rw e (set_self m' (base + k) (g k))
      | no ne ↦ set_ne m' _ _ _ (omega (arith, ne)) ∙ w.inside i (omega (arith, ne))
    ];
    outside = λ q away. elim away [
      | inl lt ↦ set_ne m' _ _ _ (omega arith) ∙ w.outside q (inl lt)
      | inr le ↦ set_ne m' _ _ _ (omega arith) ∙ w.outside q (inr (omega arith))
    ];
  }

  Filled-fill : Filled n (fill base n g m)
  unfolding fill
  Filled-fill =
      for_range_inv Filled (λ k m. set m (base + k) (g k)) 0 n (λ k m' lo hi w. Filled-set k m' w) n
        0 m (omega arith) (omega arith)
        (record { inside = λ i lt. absurd (omega arith); outside = λ q away. refl })

  pub fill_inside : (i : ℕ) → i < n → fill base n g m (base + i) ≡ g i
  fill_inside = Filled-fill.inside

  pub fill_outside : (q : ℕ) → (q < base) ⊎ (base + n ≤ q) → fill base n g m q ≡ m q
  fill_outside = Filled-fill.outside
