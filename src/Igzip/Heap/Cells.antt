-- ===== src/Igzip/Heap/Cells.antt =====
-- The entries of the heap of igzip/proc_heap_base.c: what a swap does to them.
use cerasure.Base.{
  ℕ, zero, suc, ◌+◌, ◌≤◌, ◌≡◌, refl, sym, ap, ◌∙◌, arith, Block, set, set_self, set_ne, ◌==◌,
  if◌then◌else◌, ℕ_discrete,
}
use cerasure.Igzip.Heap.{swap_entries}

pub swap_entries-cell :
    (i j : ℕ) (heap : Block ℕ) (c : ℕ)
    → swap_entries i j heap c ≡ (if j == c then heap i else if i == c then heap j else heap c)
unfolding swap_entries set
swap_entries-cell i j heap c = refl

-- How many of the n entries from 1 on are x.
unfoldable pub occurrences : ℕ → Block ℕ → ℕ → ℕ
occurrences x heap zero = 0
occurrences x heap (suc n) = occurrences x heap n + (if heap (suc n) == x then 1 else 0)

abbrev pub hit : ℕ → ℕ → ℕ
hit x v = if v == x then 1 else 0

pub occurrences_congr :
    (x : ℕ) (a b : Block ℕ) (n : ℕ)
    → ((i : ℕ) → i ≤ n → a i ≡ b i)
    → occurrences x a n ≡ occurrences x b n
unfolding occurrences
occurrences_congr x a b zero e = refl
occurrences_congr x a b (suc n) e =
    let last = e (suc n) (omega arith) in
    let rest = occurrences_congr x a b n (λ i h. e i (omega arith)) in rw (last, rest) refl

pub occurrences-suc :
    (x : ℕ) (a : Block ℕ) (n : ℕ) → occurrences x a (suc n) ≡ occurrences x a n + hit x (a (suc n))
unfolding occurrences
occurrences-suc x a n = refl

-- Writing one entry.
pub occurrences-set :
    (x : ℕ) (heap : Block ℕ) (n i v : ℕ)
    → 1 ≤ i
    → i ≤ n
    → occurrences x (set heap i v) n + hit x (heap i) ≡ occurrences x heap n + hit x v
unfolding occurrences
occurrences-set x heap zero i v lo hi = absurd (omega arith)
occurrences-set x heap (suc n) i v lo hi = elim (ℕ_discrete i (suc n)) [
  | yes e ↦
      let rest =
        occurrences_congr x (set heap i v) heap n (λ c h. set_ne heap i c v (omega arith)) in
      let here : set heap i v (suc n) ≡ v = ap (set heap i v) (sym e) ∙ set_self heap i v in
      let old : heap i ≡ heap (suc n) = ap heap e in rw (rest, here, old) (omega arith)
  | no ne ↦
      let rest = occurrences-set x heap n i v lo (omega (arith, ne)) in
      let last = set_ne heap i (suc n) v ne in rw last (omega (arith, rest))
]

set_old : (heap : Block ℕ) (i j : ℕ) → set heap i (heap j) j ≡ heap j
set_old heap i j = elim (ℕ_discrete i j) [
  | yes e ↦ rw e (set_self heap j (heap j))
  | no ne ↦ set_ne heap i j (heap j) ne
]

pub occurrences-swap_entries :
    (x : ℕ) (heap : Block ℕ) (n i j : ℕ)
    → 1 ≤ i
    → i ≤ n
    → 1 ≤ j
    → j ≤ n
    → occurrences x (swap_entries i j heap) n ≡ occurrences x heap n
unfolding swap_entries
occurrences-swap_entries x heap n i j li hi lj hj =
    let first = occurrences-set x heap n i (heap j) li hi in
    let second = occurrences-set x (set heap i (heap j)) n j (heap i) lj hj in
    omega (arith, first, rw (set_old heap i j) at second)
