-- ===== src/Igzip/Heap/Tree/Exchange.antt =====
-- The two ways in which a round of `build_huff_tree` (igzip/proc_heap_base.c) changes the heap: the
-- last entry takes the place of the first, or a new entry does.
use cerasure.Base.{
  ℕ, suc, ◌+◌, ◌-◌, ◌/◌, ◌^◌, ◌<◌, ◌≤◌, ◌≡◌, ap, ◌∙◌, arith, Block, set, set_self, set_ne,
  ℕ_discrete, inr,
}
use cerasure.Igzip.Heap.{heapify}
use cerasure.Igzip.Heap.Cells.{
  occurrences, occurrences_congr, occurrences-set, occurrences-suc, hit,
}
use cerasure.Igzip.Heap.Down.{IsHeapFrom, IsGuarded, DownInv, Sifted, heapify-Sifted}
use cerasure.Igzip.Heap.Tree.{take_least, replace_least}

-- A heap of n entries with a word of all ones behind them.
pub record IsHeap (n : ℕ) (a : Block ℕ) : Type 0 where
  pub ordered : IsHeapFrom 1 n a
  pub guarded : IsGuarded n a
  pub last : a (n + 1) ≡ 2 ^ 64 - 1

DownInv-root :
    (n : ℕ) (a b : Block ℕ)
    → IsHeapFrom 1 n a
    → ((c : ℕ) → 2 ≤ c → c ≤ n → b c ≡ a c)
    → DownInv 1 n b 1
DownInv-root n a b ordered same = record {
  edges = λ c p q r t.
      omega (arith, ordered c p q r, same c p q, same (c / 2) (omega (arith, t)) (omega arith));
  bridged = λ c p q r t u. absurd (omega arith);
}

-- A heap of n entries, of which the first is exchanged.
replaced :
    (n : ℕ) (a b : Block ℕ)
    → 1 ≤ n
    → IsHeapFrom 1 n a
    → ((c : ℕ) → 2 ≤ c → c ≤ n → b c ≡ a c)
    → IsGuarded n b
    → b (n + 1) ≡ 2 ^ 64 - 1
    → Sifted 1 n b (heapify b n 1) × IsHeap n (heapify b n 1)
replaced n a b pos ordered same guard last =
    let done =
      heapify-Sifted 1 n b 1 (omega arith) (omega arith) pos (DownInv-root n a b ordered same)
        guard in
    (
      done,
      record {
        ordered = done.ordered;
        guarded = done.guarded;
        last = done.outside (n + 1) (inr (omega arith)) ∙ last;
      },
    )

module _ (n : ℕ) (a : Block ℕ) (h : IsHeap (suc (suc n)) a) where
  abbrev taken : Block ℕ
  taken = set (set a 1 (a (suc (suc n)))) (suc (suc n)) (2 ^ 64 - 1)

  taken-below : (c : ℕ) → 2 ≤ c → c ≤ suc n → taken c ≡ a c
  taken-below c lo hi =
      set_ne (set a 1 (a (suc (suc n)))) (suc (suc n)) c (2 ^ 64 - 1) (omega arith)
      ∙ set_ne a 1 c (a (suc (suc n))) (omega arith)

  taken-first : taken 1 ≡ a (suc (suc n))
  taken-first =
      set_ne (set a 1 (a (suc (suc n)))) (suc (suc n)) 1 (2 ^ 64 - 1) (omega arith)
      ∙ set_self a 1 (a (suc (suc n)))

  taken-last : taken (suc n + 1) ≡ 2 ^ 64 - 1
  taken-last =
      ap taken {x = suc n + 1} {y = suc (suc n)} (omega arith)
      ∙ set_self _ (suc (suc n)) (2 ^ 64 - 1)

  taken-IsGuarded : IsGuarded (suc n) taken
  taken-IsGuarded c lo hi = elim (ℕ_discrete c 1) [
    | yes e ↦ rw e (
        omega (
          arith,
          taken-first,
          taken-last,
          h.guarded (suc (suc n)) (omega arith) (omega arith),
          h.last,
        ))
    | no ne ↦ omega (
      arith,
      taken-below c (omega (arith, ne)) hi,
      taken-last,
      h.guarded c lo (omega arith),
      h.last,
    )
  ]

  taken-occurrences :
      (x : ℕ) → occurrences x taken (suc n) + hit x (a 1) ≡ occurrences x a (suc (suc n))
  taken-occurrences x =
      let below =
        occurrences_congr x taken (set a 1 (a (suc (suc n)))) (suc n)
          (λ c hc. set_ne _ (suc (suc n)) c (2 ^ 64 - 1) (omega arith)) in
      omega (
        arith,
        below,
        occurrences-set x a (suc n) 1 (a (suc (suc n))) (omega arith) (omega arith),
        occurrences-suc x a (suc n),
      )

  pub take_least-IsHeap :
      IsHeap (suc n) (take_least a (suc (suc n)))
      × ((x : ℕ)
          → occurrences x (take_least a (suc (suc n))) (suc n) + hit x (a 1)
            ≡ occurrences x a (suc (suc n)))
      × ((c : ℕ) → suc (suc n) < c → take_least a (suc (suc n)) c ≡ a c)
  unfolding take_least
  take_least-IsHeap =
      let size : suc (suc n) - 1 ≡ suc n = omega arith in
      let (done, heap) =
        replaced (suc n) a taken (omega arith) (λ c p q r. h.ordered c p (omega arith) r)
          taken-below taken-IsGuarded taken-last in
      rw size (
        heap,
        λ x. omega (arith, done.same x, taken-occurrences x),
        λ c above.
            done.outside c (inr (omega arith))
            ∙ set_ne (set a 1 (a (suc (suc n)))) (suc (suc n)) c (2 ^ 64 - 1) (omega arith)
            ∙ set_ne a 1 c (a (suc (suc n))) (omega arith),
      )

pub replace_least-IsHeap :
    (n v : ℕ) (a : Block ℕ)
    → IsHeap (suc n) a
    → v < 2 ^ 64
    → IsHeap (suc n) (replace_least v a (suc n))
      × ((x : ℕ)
          → occurrences x (replace_least v a (suc n)) (suc n) + hit x (a 1)
            ≡ occurrences x a (suc n) + hit x v)
      × ((c : ℕ) → suc n < c → replace_least v a (suc n) c ≡ a c)
unfolding replace_least
replace_least-IsHeap n v a h word =
    let b = set a 1 v in
    let other : (c : ℕ) → 2 ≤ c → b c ≡ a c = λ c lo. set_ne a 1 c v (omega arith) in
    let last = other (suc n + 1) (omega arith) in
    let guard : IsGuarded (suc n) b = λ c lo hi. elim (ℕ_discrete c 1) [
      | yes e ↦ rw e (omega (arith, set_self a 1 v, last, h.last))
      | no ne ↦ omega (arith, other c (omega (arith, ne)), last, h.guarded c lo hi)
    ] in
    let (done, heap) =
      replaced (suc n) a b (omega arith) h.ordered (λ c lo hi. other c lo) guard (last ∙ h.last) in
    (
      heap,
      λ x. omega (arith, done.same x, occurrences-set x a (suc n) 1 v (omega arith) (omega arith)),
      λ c above. done.outside c (inr (omega arith)) ∙ other c (omega arith),
    )
