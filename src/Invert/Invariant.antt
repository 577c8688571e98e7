-- ===== src/Invert/Invariant.antt =====
-- What every row operation keeps: the second array times the matrix that was given is the first
-- array, and a vector that the first array sends to 0 is one that the given matrix sends to 0.
use cerasure.Base.{ℕ, ◌+◌, ◌*◌, ◌<◌, ◌^◌, ◌≡◌, Block}
use cerasure.Field.{Field}
use cerasure.Field.Dot.{AllElem, dot}
use cerasure.Invert.{Mats}

-- Row r, and column c, of a matrix with n columns.
abbrev pub row : ℕ → Block ℕ → ℕ → ℕ → ℕ
row n m r k = m (r * n + k)

abbrev pub column : ℕ → Block ℕ → ℕ → ℕ → ℕ
column n m c k = m (k * n + c)

module _ (F : Field) (n : ℕ) where
  open F use {bits}

  abbrev pub IsMatrix : Block ℕ → Type 0
  IsMatrix m = (r c : ℕ) → r < n → c < n → m (r * n + c) < 2 ^ bits

  abbrev pub Vanishes : Block ℕ → (ℕ → ℕ) → Type 0
  Vanishes m x = (r : ℕ) → r < n → dot F n (row n m r) x ≡ 0

  pub record Invariant (given : Block ℕ) (s : Mats) : Type 0 where
    pub in_elem : IsMatrix s.in_mat
    pub out_elem : IsMatrix s.out_mat
    pub product :
        (r c : ℕ)
        → r < n
        → c < n
        → dot F n (row n s.out_mat r) (column n given c) ≡ s.in_mat (r * n + c)
    pub kernel : (x : ℕ → ℕ) → AllElem F n x → Vanishes s.in_mat x → Vanishes given x
