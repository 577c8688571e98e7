-- ===== src/Igzip/Heap/Tree.antt =====
-- `build_huff_tree` of igzip/proc_heap_base.c, which joins the two least entries until one is left.
-- The tree shares the array with the heap, above it.
use cerasure.Base.{ℕ, zero, suc, ◌+◌, ◌-◌, ◌*◌, ◌/◌, ◌%◌, ◌^◌, bit_or, Block, set}
use cerasure.Igzip.Heap.{heapify}
pub mod Exchange
pub mod Join

pub record HuffTree : Type 0 where
  pub heap : Block ℕ
  pub node_ptr : ℕ

-- The first two bytes of entry i, in memory with the low byte first.
unfoldable pub store_u16 : ℕ → ℕ → Block ℕ → Block ℕ
store_u16 i value heap = set heap i (heap i / 2 ^ 16 * 2 ^ 16 + value % 2 ^ 16)

-- heap[1] = heap[heap_size]; heap[heap_size--] = -1; heapify(heap, heap_size, 1);
unfoldable pub take_least : Block ℕ → ℕ → Block ℕ
take_least heap heap_size =
    heapify (set (set heap 1 (heap heap_size)) heap_size (2 ^ 64 - 1)) (heap_size - 1) 1

-- ((h1 + h2) & ~0xFFFFull) | node_ptr
unfoldable pub joined : ℕ → ℕ → ℕ → ℕ
joined h1 h2 node_ptr = bit_or ((h1 + h2) % 2 ^ 64 / 2 ^ 16 * 2 ^ 16) node_ptr

-- heap[1] = value; heapify(heap, heap_size, 1);
unfoldable pub replace_least : ℕ → Block ℕ → ℕ → Block ℕ
replace_least value heap heap_size = heapify (set heap 1 value) heap_size 1

-- One round of the loop.
unfoldable pub join_least : ℕ → HuffTree → HuffTree
join_least heap_size s =
    let h1 = s.heap 1 in
    let rest = take_least s.heap heap_size in
    let h2 = rest 1 in
    let heap = replace_least (joined h1 h2 s.node_ptr) rest (heap_size - 1) in
    record {
      heap = store_u16 (s.node_ptr - 1) h2 (store_u16 s.node_ptr h1 heap);
      node_ptr = s.node_ptr - 2;
    }

-- while (heap_size > 1)
unfoldable pub join_all : ℕ → HuffTree → HuffTree
join_all zero s = s
join_all (suc zero) s = s
join_all (suc (suc n)) s = join_all (suc n) (join_least (suc (suc n)) s)

-- What it leaves, and the node_ptr that it returns.
unfoldable pub build_huff_tree : Block ℕ → ℕ → ℕ → HuffTree
build_huff_tree heap_space heap_size node_ptr =
    let s = join_all heap_size (record { heap = heap_space; node_ptr = node_ptr }) in
    record { heap = store_u16 s.node_ptr (s.heap 1) s.heap; node_ptr = s.node_ptr }
