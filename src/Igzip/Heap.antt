-- ===== src/Igzip/Heap.antt =====
-- The heap of igzip/proc_heap_base.c, an array whose entries 1 to heap_size are words of 64 bits. A
-- word of all ones stands behind the last entry.
pub mod Cells
pub mod Down
pub mod Build
pub mod Tree
mod Tests
use cerasure.Base.{ℕ, zero, suc, ◌+◌, ◌-◌, ◌*◌, ◌/◌, ◌^◌, Block, set, leb, ltb, if◌then◌else◌}

-- tmp = heap[i]; heap[i] = heap[j]; heap[j] = tmp;
unfoldable pub swap_entries : ℕ → ℕ → Block ℕ → Block ℕ
swap_entries i j heap = set (set heap i (heap j)) j (heap i)

-- (heap[child] <= heap[child + 1]) ? child : child + 1
pub least_child : Block ℕ → ℕ → ℕ
least_child heap child = if leb (heap child) (heap (child + 1)) then child else child + 1

-- The loop, with the rounds bounded by the fuel.
pub heapify_from : ℕ → Block ℕ → ℕ → ℕ → Block ℕ
heapify_from zero heap heap_size index = heap
heapify_from (suc fuel) heap heap_size index =
    let child = least_child heap (2 * index) in
    let rest = heapify_from fuel (swap_entries index child heap) heap_size child in
    if leb (2 * index) heap_size
    then (if ltb (heap child) (heap index) then rest else heap)
    else heap

-- Each round at least doubles the index.
unfoldable pub heapify : Block ℕ → ℕ → ℕ → Block ℕ
heapify heap heap_size index = heapify_from (heap_size + 1) heap heap_size index

-- for (i = n; i > 0; i--)
pub heapify_down : ℕ → Block ℕ → ℕ → Block ℕ
heapify_down zero heap heap_size = heap
heapify_down (suc i) heap heap_size = heapify_down i (heapify heap heap_size (suc i)) heap_size

unfoldable pub build_heap : Block ℕ → ℕ → Block ℕ
build_heap heap heap_size =
    heapify_down (heap_size / 2) (set heap (heap_size + 1) (2 ^ 64 - 1)) heap_size
