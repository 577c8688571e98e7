-- ===== src/Igzip/Heap/Tests.antt =====
-- A heap of five entries.
use cerasure.Base.{
  ℕ, ◌+◌, ◌-◌, ◌*◌, ◌/◌, ◌%◌, ◌^◌, ◌≢◌, ◌<◌, ◌≤◌, ◌≡◌, ◌⊎◌, refl, arith, [], ◌∷◌, Block, of_list,
  of_list-lt, set, zero, suc,
}
use cerasure.Igzip.Heap.{build_heap, heapify_down, heapify, heapify_from, least_child, swap_entries}
use cerasure.Igzip.Heap.Cells.{occurrences, hit}
use cerasure.Igzip.Heap.Down.{IsHeapFrom, IsGuarded}
use cerasure.Igzip.Heap.Tree.{HuffTree, take_least, join_least}
use cerasure.Igzip.Heap.Tree.Exchange.{IsHeap}
use cerasure.Igzip.Heap.Tree.Join.{join_least-step}
use cerasure.Igzip.Heap.Build.{build_heap-IsHeapFrom}

abbrev entries : Block ℕ
entries = of_list (0 ∷ 50 ∷ 40 ∷ 30 ∷ 20 ∷ 10 ∷ [])

build_heap_value : (build_heap entries 5 1 ≡ 10) × (build_heap entries 5 5 ≡ 40)
unfolding build_heap heapify_down heapify heapify_from least_child swap_entries set
build_heap_value = (refl, refl)

build_heap-IsHeapFrom_example :
    let after = build_heap entries 5 in
    IsHeapFrom 1 5 after
    × ((c : ℕ) → 1 ≤ c → c ≤ 5 → after 1 ≤ after c)
    × ((x : ℕ) → occurrences x after 5 ≡ occurrences x entries 5)
    × (after (5 + 1) ≡ 2 ^ 64 - 1)
    × ((c : ℕ) → (c ≡ 0) ⊎ (5 + 1 < c) → after c ≡ entries c)
build_heap-IsHeapFrom_example =
    build_heap-IsHeapFrom entries 5
      (λ c lo hi. of_list-lt (2 ^ 64) (0 ∷ 50 ∷ 40 ∷ 30 ∷ 20 ∷ 10 ∷ []) (omega arith) c)

-- Three entries in heap order.
abbrev ordered : Block ℕ
ordered = of_list (0 ∷ 10 ∷ 30 ∷ 20 ∷ 0xFFFFFFFFFFFFFFFF ∷ [])

ordered-IsHeapFrom : IsHeapFrom 1 3 ordered
ordered-IsHeapFrom (suc (suc zero)) lo hi edge = omega arith
ordered-IsHeapFrom (suc (suc (suc zero))) lo hi edge = omega arith
ordered-IsHeapFrom zero lo hi edge = absurd (omega arith)
ordered-IsHeapFrom (suc zero) lo hi edge = absurd (omega arith)
ordered-IsHeapFrom (suc (suc (suc (suc c)))) lo hi edge = absurd (omega arith)

ordered-IsGuarded : IsGuarded 3 ordered
ordered-IsGuarded (suc zero) lo hi = omega arith
ordered-IsGuarded (suc (suc zero)) lo hi = omega arith
ordered-IsGuarded (suc (suc (suc zero))) lo hi = omega arith
ordered-IsGuarded zero lo hi = absurd (omega arith)
ordered-IsGuarded (suc (suc (suc (suc c)))) lo hi = absurd (omega arith)

ordered-IsHeap : IsHeap 3 ordered
ordered-IsHeap = record { ordered = ordered-IsHeapFrom; guarded = ordered-IsGuarded; last = refl }

abbrev tree : HuffTree
tree = record { heap = ordered; node_ptr = 12 }

join_least-step_example :
    let rest = take_least tree.heap 3 in
    let after = (join_least 3 tree).heap in
    ((c : ℕ) → 1 ≤ c → c ≤ 3 → tree.heap 1 ≤ tree.heap c)
    × ((c : ℕ) → 1 ≤ c → c ≤ 2 → rest 1 ≤ rest c)
    × ((x : ℕ) → occurrences x rest 2 + hit x (tree.heap 1) ≡ occurrences x tree.heap 3)
    × ((x : ℕ)
        → occurrences x after 2 + hit x (rest 1)
          ≡ occurrences x rest 2 + hit x ((tree.heap 1 + rest 1) % 2 ^ 64 / 2 ^ 16 * 2 ^ 16 + 12))
    × IsHeap 2 after
    × (after 12 ≡ tree.heap 12 / 2 ^ 16 * 2 ^ 16 + tree.heap 1 % 2 ^ 16)
    × (after (12 - 1) ≡ tree.heap (12 - 1) / 2 ^ 16 * 2 ^ 16 + rest 1 % 2 ^ 16)
    × ((c : ℕ) → 3 < c → c ≢ 12 → c ≢ 12 - 1 → after c ≡ tree.heap c)
    × ((join_least 3 tree).node_ptr + 2 ≡ 12)
join_least-step_example = join_least-step 1 tree ordered-IsHeap (omega arith) (omega arith)
