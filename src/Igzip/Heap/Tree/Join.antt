-- ===== src/Igzip/Heap/Tree/Join.antt =====
-- A round of `build_huff_tree` (igzip/proc_heap_base.c) as a step of Huffman's algorithm.
use cerasure.Base.{
  ℕ, zero, suc, ◌+◌, ◌-◌, ◌*◌, ◌/◌, ◌%◌, ◌^◌, ◌<◌, ◌≤◌, ◌≡◌, ◌≢◌, refl, ap, ◌∙◌, arith, Block,
  set_self, set_ne,
}
use cerasure.Bits.{bit_or-disjoint}
use cerasure.Igzip.Heap.Cells.{occurrences, occurrences_congr, hit}
use cerasure.Igzip.Heap.Build.{root_least}
use cerasure.Igzip.Heap.Tree.Exchange.{IsHeap, take_least-IsHeap, replace_least-IsHeap}
use cerasure.Igzip.Heap.Tree.{
  HuffTree, store_u16, take_least, joined, replace_least, join_least, join_all, build_huff_tree,
}

-- The bits of the entry that the tree's address leaves.
joined-eq :
    (h1 h2 node_ptr : ℕ)
    → node_ptr < 2 ^ 16
    → joined h1 h2 node_ptr ≡ (h1 + h2) % 2 ^ 64 / 2 ^ 16 * 2 ^ 16 + node_ptr
unfolding joined
joined-eq h1 h2 node_ptr small = bit_or-disjoint 16 ((h1 + h2) % 2 ^ 64 / 2 ^ 16) node_ptr small

joined-lt : (h1 h2 node_ptr : ℕ) → node_ptr < 2 ^ 16 → joined h1 h2 node_ptr < 2 ^ 64
joined-lt h1 h2 node_ptr small = omega (arith, joined-eq h1 h2 node_ptr small)

store_u16_other : (i value : ℕ) (heap : Block ℕ) (c : ℕ) → i ≢ c → store_u16 i value heap c ≡ heap c
unfolding store_u16
store_u16_other i value heap c ne = set_ne heap i c _ ne

IsHeap-congr : (n : ℕ) (a b : Block ℕ) → ((c : ℕ) → c ≤ n + 1 → b c ≡ a c) → IsHeap n a → IsHeap n b
IsHeap-congr n a b e h = record {
  ordered = λ c lo hi edge.
      omega (arith, e c (omega arith), e (c / 2) (omega arith), h.ordered c lo hi edge);
  guarded = λ c lo hi. omega (arith, e c (omega arith), e (n + 1) (omega arith), h.guarded c lo hi);
  last = e (n + 1) (omega arith) ∙ h.last;
}

store_u16_self :
    (i value : ℕ) (heap : Block ℕ)
    → store_u16 i value heap i ≡ heap i / 2 ^ 16 * 2 ^ 16 + value % 2 ^ 16
unfolding store_u16
store_u16_self i value heap = set_self heap i _

-- The two nodes that a round writes, above the heap.
module _ (n : ℕ) (s : HuffTree) (above : suc (suc n) + 1 < s.node_ptr) where
  abbrev value : ℕ
  value = joined (s.heap 1) (take_least s.heap (suc (suc n)) 1) s.node_ptr

  abbrev replaced_heap : Block ℕ
  replaced_heap = replace_least value (take_least s.heap (suc (suc n))) (suc n)

  join_least-first :
      (join_least (suc (suc n)) s).heap s.node_ptr
      ≡ replaced_heap s.node_ptr / 2 ^ 16 * 2 ^ 16 + s.heap 1 % 2 ^ 16
  unfolding join_least
  join_least-first =
      let size : suc (suc n) - 1 ≡ suc n = omega arith in
      rw size (
        store_u16_other (s.node_ptr - 1) _ _ s.node_ptr (omega arith)
        ∙ store_u16_self s.node_ptr (s.heap 1) replaced_heap)

  join_least-second :
      (join_least (suc (suc n)) s).heap (s.node_ptr - 1)
      ≡ replaced_heap (s.node_ptr - 1) / 2 ^ 16 * 2 ^ 16
        + take_least s.heap (suc (suc n)) 1 % 2 ^ 16
  unfolding join_least
  join_least-second =
      let size : suc (suc n) - 1 ≡ suc n = omega arith in
      rw size (
        store_u16_self (s.node_ptr - 1) _ _
        ∙ ap (λ (old : ℕ). old / 2 ^ 16 * 2 ^ 16 + take_least s.heap (suc (suc n)) 1 % 2 ^ 16)
            (store_u16_other s.node_ptr (s.heap 1) replaced_heap (s.node_ptr - 1) (omega arith)))

  join_least-other :
      (c : ℕ)
      → c ≢ s.node_ptr
      → c ≢ s.node_ptr - 1
      → (join_least (suc (suc n)) s).heap c ≡ replaced_heap c
  unfolding join_least
  join_least-other c first second =
      let size : suc (suc n) - 1 ≡ suc n = omega arith in
      rw size (
        store_u16_other (s.node_ptr - 1) _ _ c (omega (arith, second))
        ∙ store_u16_other s.node_ptr _ _ c (omega (arith, first)))

-- For a heap of two or more entries with a word of all ones behind them, and tree nodes above that
-- word, at a place that 16 bits hold, a round of build_huff_tree takes the least entry h1, then the
-- least entry h2 of the rest, and leaves the heap of the entries without these two but with the sum
-- of both, modulo 2 ^ 64, whose low 16 bits make way for the place of the nodes, again with a word
-- of all ones behind them. The low 16 bits of h1 and h2 go to those of the node at that place and
-- of the one below it; nothing else above the heap changes, and the next place is two below.
pub join_least-step :
    (n : ℕ) (s : HuffTree)
    → IsHeap (suc (suc n)) s.heap
    → suc (suc n) + 1 < s.node_ptr
    → s.node_ptr < 2 ^ 16
    → let h1 = s.heap 1 in
      let rest = take_least s.heap (suc (suc n)) in
      let h2 = rest 1 in
      let after = (join_least (suc (suc n)) s).heap in
      ((c : ℕ) → 1 ≤ c → c ≤ suc (suc n) → h1 ≤ s.heap c)
      × ((c : ℕ) → 1 ≤ c → c ≤ suc n → h2 ≤ rest c)
      × ((x : ℕ) → occurrences x rest (suc n) + hit x h1 ≡ occurrences x s.heap (suc (suc n)))
      × ((x : ℕ)
          → occurrences x after (suc n) + hit x h2
            ≡ occurrences x rest (suc n)
              + hit x ((h1 + h2) % 2 ^ 64 / 2 ^ 16 * 2 ^ 16 + s.node_ptr))
      × IsHeap (suc n) after
      × (after s.node_ptr ≡ s.heap s.node_ptr / 2 ^ 16 * 2 ^ 16 + h1 % 2 ^ 16)
      × (after (s.node_ptr - 1) ≡ s.heap (s.node_ptr - 1) / 2 ^ 16 * 2 ^ 16 + h2 % 2 ^ 16)
      × ((c : ℕ) → suc (suc n) < c → c ≢ s.node_ptr → c ≢ s.node_ptr - 1 → after c ≡ s.heap c)
      × ((join_least (suc (suc n)) s).node_ptr + 2 ≡ s.node_ptr)
join_least-step n s h above small =
    let rest_heap = take_least s.heap (suc (suc n)) in
    let (rest, first, kept) = take_least-IsHeap n s.heap h in
    let (now, second, kept') =
      replace_least-IsHeap n (value n s above) rest_heap rest (joined-lt _ _ s.node_ptr small) in
    let keep : (c : ℕ) → suc (suc n) < c → replaced_heap n s above c ≡ s.heap c =
      λ c hc. kept' c (omega arith) ∙ kept c hc in
    let below : (c : ℕ)
        → c ≤ suc n + 1
        → (join_least (suc (suc n)) s).heap c ≡ replaced_heap n s above c =
      λ c hc. join_least-other n s above c (omega arith) (omega arith) in
    let upper : ℕ → ℕ → ℕ = λ old low. old / 2 ^ 16 * 2 ^ 16 + low % 2 ^ 16 in
    (
      λ c lo hi. root_least (suc (suc n)) s.heap c h.ordered lo hi,
      λ c lo hi. root_least (suc n) rest_heap c rest.ordered lo hi,
      first,
      λ x. rw (← joined-eq (s.heap 1) (rest_heap 1) s.node_ptr small) (
          omega (arith, second x, occurrences_congr x _ _ (suc n) (λ c hc. below c (omega arith)))),
      IsHeap-congr (suc n) _ _ below now,
      join_least-first n s above
          ∙ ap (λ (old : ℕ). upper old (s.heap 1)) (keep s.node_ptr (omega arith)),
      join_least-second n s above
          ∙ ap (λ (old : ℕ). upper old (rest_heap 1)) (keep (s.node_ptr - 1) (omega arith)),
      λ c hc ne ne'. join_least-other n s above c ne ne' ∙ keep c hc,
      unfold join_least in omega arith,
    )

-- Each round meets these conditions when there is room for two nodes for each entry, and each takes
-- two nodes.
join_all-IsHeap :
    (n : ℕ) (s : HuffTree)
    → IsHeap (suc n) s.heap
    → 2 * suc n < s.node_ptr
    → s.node_ptr < 2 ^ 16
    → let done = join_all (suc n) s in IsHeap 1 done.heap × (done.node_ptr + 2 * n ≡ s.node_ptr)
unfolding join_all
join_all-IsHeap zero s h room word = (h, omega arith)
join_all-IsHeap (suc n) s h room word =
    let (_, _, _, _, now, _, _, _, _) = join_least-step n s h (omega arith) word in
    let next : (join_least (suc (suc n)) s).node_ptr ≡ s.node_ptr - 2 = unfold join_least in refl in
    let (heap, nodes) =
      join_all-IsHeap n (join_least (suc (suc n)) s) now (omega (arith, next))
        (omega (arith, next)) in
    (heap, omega (arith, next, nodes))

-- For a heap of one or more entries and room for two nodes for each, build_huff_tree returns the
-- place two nodes down for each entry but one.
build_huff_tree-node_ptr :
    (heap : Block ℕ) (n node_ptr : ℕ)
    → IsHeap (suc n) heap
    → 2 * suc n < node_ptr
    → node_ptr < 2 ^ 16
    → (build_huff_tree heap (suc n) node_ptr).node_ptr + 2 * n ≡ node_ptr
unfolding build_huff_tree
build_huff_tree-node_ptr heap n node_ptr h room word =
    (join_all-IsHeap n (record { heap = heap; node_ptr = node_ptr }) h room word).1
