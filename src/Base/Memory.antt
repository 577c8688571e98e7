-- ===== src/Base/Memory.antt =====
-- A block of memory behind a pointer: what stands at each offset from it. A write changes one
-- offset. A matrix of n columns that lies row by row has its cell (r, c) at offset r * n + c.
use Prim.Native.Nat.{ℕ, ◌+◌, ◌*◌, ◌<◌, ◌/◌, ◌%◌}
use mathlib.Core.Path.{◌≡◌, sym, ap, ◌∙◌}
use mathlib.Core.Logic.{◌≢◌}
use native.Mathlib.Omega.{arith}
use native.Mathlib.Nat.{div-eq_of_lt-le, div-add-mod'}
use cerasure.Base.Tests.{◌==◌, if◌then◌else◌}

abbrev pub Block {ℓ} : Type ℓ → Type ℓ
Block A = ℕ → A

module _ {ℓ} {A : Type ℓ} where
  -- `a[p] = v`
  unfoldable pub set : Block A → ℕ → A → Block A
  set a p v q = if p == q then v else a q

  pub set_self : (a : Block A) (p : ℕ) (v : A) → set a p v p ≡ v
  unfolding set
  set_self a p v = ground arith

  pub set_ne : (a : Block A) (p q : ℕ) (v : A) → p ≢ q → set a p v q ≡ a q
  unfolding set
  set_ne a p q v h = ground arith

-- Cells of one matrix at one offset are the same cell.
pub row_of_offset : (n r c : ℕ) → c < n → (r * n + c) / n ≡ r
row_of_offset n r c h = div-eq_of_lt-le n (omega arith) (omega arith)

pub column_of_offset : (n r c : ℕ) → c < n → (r * n + c) % n ≡ c
column_of_offset n r c h =
    omega (arith, div-add-mod' (r * n + c) n, ap (λ (t : ℕ). t * n) (row_of_offset n r c h))

pub row_unique : (n r c s d : ℕ) → c < n → d < n → r * n + c ≡ s * n + d → r ≡ s
row_unique n r c s d hc hd e =
    sym (row_of_offset n r c hc) ∙ ap (λ (t : ℕ). t / n) e ∙ row_of_offset n s d hd

pub column_unique : (n r c s d : ℕ) → c < n → d < n → r * n + c ≡ s * n + d → c ≡ d
column_unique n r c s d hc hd e =
    let same : r ≡ s = row_unique n r c s d hc hd e in omega (arith, ap (λ (t : ℕ). t * n) same)

-- A cell of an m by n matrix lies inside its block.
pub offset-lt : (m n r c : ℕ) → r < m → c < n → r * n + c < m * n
offset-lt m n r c hr hc = grind arith
