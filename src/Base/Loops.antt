-- ===== src/Base/Loops.antt =====
-- for (k = i; k < i + n; k++) s = body(k, s): recursion on the rounds left.
use Prim.Native.Nat.{ℕ, zero, suc, ◌+◌, ◌≤◌, ◌<◌}
use mathlib.Core.Path.{◌≡◌}
use native.Mathlib.Omega.{arith}

module _ {ℓ} {S : Type ℓ} where
  unfoldable pub for_range : ℕ → ℕ → (ℕ → S → S) → S → S
  for_range zero i body s = s
  for_range (suc n) i body s = for_range n (suc i) body (body i s)

  -- The invariant rule. A round may use that its index lies in the range.
  pub for_range_inv {κ} :
      (P : ℕ → S → Type κ) (body : ℕ → S → S) (lo hi : ℕ)
      → ((i : ℕ) (s : S) → lo ≤ i → i < hi → P i s → P (suc i) (body i s))
      → (n i : ℕ) (s : S) → lo ≤ i
      → i + n ≡ hi
      → P i s
      → P hi (for_range n i body s)
  unfolding for_range
  for_range_inv P body lo hi keep zero i s b e h = let e' : i ≡ hi = omega arith in rw (← e') h
  for_range_inv P body lo hi keep (suc n) i s b e h =
      for_range_inv P body lo hi keep n (suc i) (body i s) (omega arith) (omega arith)
        (keep i s b (omega arith) h)

-- Two loops in step keep a relation between their states.
pub for_range_rel {ℓ κ ι} :
    {S : Type ℓ} {T : Type κ} (R : S → T → Type ι) (f : ℕ → S → S) (g : ℕ → T → T) (lo hi : ℕ)
    → ((i : ℕ) (s : S) (t : T) → lo ≤ i → i < hi → R s t → R (f i s) (g i t))
    → (n i : ℕ) (s : S) (t : T) → lo ≤ i
    → i + n ≡ hi
    → R s t
    → R (for_range n i f s) (for_range n i g t)
unfolding for_range
for_range_rel R f g lo hi step zero i s t b e h = h
for_range_rel R f g lo hi step (suc n) i s t b e h =
    for_range_rel R f g lo hi step n (suc i) (f i s) (g i t) (omega arith) (omega arith)
      (step i s t b (omega arith) h)
