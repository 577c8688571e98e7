-- ===== src/Base/Lists.antt =====
-- Lists measured and indexed by the native numbers, under the library's names.
use Prim.Native.Nat.{ℕ, zero, suc, ◌+◌, ◌<◌}
use mathlib.Core.Path.{◌≡◌}
use mathlib.Core.List.{List, [], ◌∷◌, ◌++◌}
use native.Mathlib.Omega.{arith}

module _ {ℓ} {A : Type ℓ} where
  abbrev pub length : List A → ℕ
  length [] = 0
  length (x ∷ xs) = suc (length xs)

  abbrev pub get_or : List A → ℕ → A → A
  get_or [] i d = d
  get_or (x ∷ xs) zero d = x
  get_or (x ∷ xs) (suc i) d = get_or xs i d

  pub length-append : (xs ys : List A) → length (xs ++ ys) ≡ length xs + length ys
  length-append [] ys = omega arith
  length-append (x ∷ xs) ys = omega (arith, length-append xs ys)

-- A literal block of memory; 0 past its end.
abbrev pub of_list : List ℕ → ℕ → ℕ
of_list xs p = get_or xs p 0

abbrev pub AllBelow : ℕ → List ℕ → Type 0
AllBelow b [] = 0 < b
AllBelow b (x ∷ xs) = (x < b) × AllBelow b xs

pub of_list-lt : (b : ℕ) (xs : List ℕ) → AllBelow b xs → (p : ℕ) → of_list xs p < b
of_list-lt b [] h p = h
of_list-lt b (x ∷ xs) h zero = h.0
of_list-lt b (x ∷ xs) h (suc p) = of_list-lt b xs h.1 p
