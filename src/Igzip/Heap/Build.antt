-- ===== src/Igzip/Heap/Build.antt =====
-- `build_heap` of igzip/proc_heap_base.c.
use cerasure.Base.{
  ℕ, zero, suc, ◌+◌, ◌-◌, ◌/◌, ◌^◌, ◌<◌, ◌≤◌, ◌≡◌, ◌⊎◌, inl, inr, ◌∙◌, arith, Block, set, set_self,
  set_ne,
}
use cerasure.Igzip.Heap.{heapify, heapify_down, build_heap}
use cerasure.Igzip.Heap.Cells.{occurrences, occurrences_congr}
use cerasure.Igzip.Heap.Down.{IsHeapFrom, IsGuarded, DownInv, Sifted, Sifted-ready, heapify-Sifted}

DownInv-next : (n : ℕ) (a : Block ℕ) (i : ℕ) → 1 ≤ i → IsHeapFrom (suc i) n a → DownInv i n a i
DownInv-next n a i pos ordered = record {
  edges = λ c p q r t. ordered c p q (omega (arith, t));
  bridged = λ c p q r t u. absurd (omega arith);
}

heapify_down-Sifted :
    (i n : ℕ) (a : Block ℕ)
    → i ≤ n
    → IsHeapFrom (suc i) n a
    → IsGuarded n a
    → Sifted 1 n a (heapify_down i a n)
unfolding heapify_down
heapify_down-Sifted zero n a inside ordered guard = Sifted-ready ordered guard
heapify_down-Sifted (suc i) n a inside ordered guard =
    let one =
      heapify-Sifted (suc i) n a (suc i) (omega arith) (omega arith) inside
        (DownInv-next n a (suc i) (omega arith) ordered) guard in
    let rest =
      heapify_down-Sifted i n (heapify a n (suc i)) (omega arith) one.ordered one.guarded in
    record {
      ordered = rest.ordered;
      guarded = rest.guarded;
      same = λ x. rest.same x ∙ one.same x;
      outside = λ c away. rest.outside c away ∙ one.outside c away;
    }

root_below : (k n : ℕ) (a : Block ℕ) (c : ℕ) → IsHeapFrom 1 n a → c < k → 1 ≤ c → c ≤ n → a 1 ≤ a c
root_below zero n a c ordered h lo hi = absurd (omega arith)
root_below (suc k) n a zero ordered h lo hi = absurd (omega arith)
root_below (suc k) n a (suc zero) ordered h lo hi = omega arith
root_below (suc k) n a (suc (suc c)) ordered h lo hi =
    let up = root_below k n a (suc (suc c) / 2) ordered (omega arith) (omega arith) (omega arith) in
    let edge = ordered (suc (suc c)) (omega arith) hi (omega arith) in omega (arith, up, edge)

-- The entry at the root of a heap is no greater than any.
pub root_least : (n : ℕ) (a : Block ℕ) (c : ℕ) → IsHeapFrom 1 n a → 1 ≤ c → c ≤ n → a 1 ≤ a c
root_least n a c ordered lo hi = root_below (suc c) n a c ordered (omega arith) lo hi

-- For entries of 64 bits, `build_heap` puts the entries 1 to heap_size in heap order, so that the
-- first is the least; each value occurs among them as often as before, a word of all ones stands
-- behind them, and nothing else has changed.
pub build_heap-IsHeapFrom :
    (heap : Block ℕ) (heap_size : ℕ)
    → ((c : ℕ) → 1 ≤ c → c ≤ heap_size → heap c < 2 ^ 64)
    → let after = build_heap heap heap_size in
      IsHeapFrom 1 heap_size after
      × ((c : ℕ) → 1 ≤ c → c ≤ heap_size → after 1 ≤ after c)
      × ((x : ℕ) → occurrences x after heap_size ≡ occurrences x heap heap_size)
      × (after (heap_size + 1) ≡ 2 ^ 64 - 1)
      × ((c : ℕ) → (c ≡ 0) ⊎ (heap_size + 1 < c) → after c ≡ heap c)
unfolding build_heap
build_heap-IsHeapFrom heap heap_size words =
    let start = set heap (heap_size + 1) (2 ^ 64 - 1) in
    let kept : (c : ℕ) → c ≤ heap_size → start c ≡ heap c =
      λ c h. set_ne heap (heap_size + 1) c (2 ^ 64 - 1) (omega arith) in
    let guard = set_self heap (heap_size + 1) (2 ^ 64 - 1) in
    let done =
      heapify_down-Sifted (heap_size / 2) heap_size start (omega arith)
        (λ c lo hi edge. absurd (omega arith))
        (λ c lo hi. omega (arith, kept c hi, words c lo hi, guard)) in
    (
      done.ordered,
      λ c lo hi. root_least heap_size _ c done.ordered lo hi,
      λ x. done.same x ∙ occurrences_congr x start heap heap_size kept,
      done.outside (heap_size + 1) (inr (omega arith)) ∙ guard,
      λ c away.
          done.outside c (elim away [ inl z ↦ inl z | inr h ↦ inr (omega arith) ])
          ∙ set_ne heap (heap_size + 1) c (2 ^ 64 - 1)
              (elim away [ inl z ↦ omega (arith, z) | inr h ↦ omega arith ]),
    )
