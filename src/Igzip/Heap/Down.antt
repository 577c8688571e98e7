-- ===== src/Igzip/Heap/Down.antt =====
-- `heapify` of igzip/proc_heap_base.c, which moves one entry down.
use cerasure.Base.{
  ℕ, zero, suc, ◌+◌, ◌*◌, ◌/◌, ◌<◌, ◌≤◌, ◌≡◌, ◌≢◌, ◌⊎◌, inl, inr, refl, ap, ◌∙◌, arith, Block,
  lt→ltb, ltb_no, leb_yes, leb_no, dec_lt, ℕ_discrete,
}
use cerasure.Igzip.Heap.{swap_entries, least_child, heapify_from, heapify}
use cerasure.Igzip.Heap.Cells.{swap_entries-cell, occurrences, occurrences-swap_entries}

-- Every edge whose parent is at lo or later is in order.
abbrev pub IsHeapFrom : ℕ → ℕ → Block ℕ → Type 0
IsHeapFrom lo n a = (c : ℕ) → 2 ≤ c → c ≤ n → lo ≤ c / 2 → a (c / 2) ≤ a c

-- The entry behind the last one is no less than any.
abbrev pub IsGuarded : ℕ → Block ℕ → Type 0
IsGuarded n a = (c : ℕ) → 1 ≤ c → c ≤ n → a c ≤ a (n + 1)

-- Only the edges below i may be out of order.
pub record DownInv (lo n : ℕ) (a : Block ℕ) (i : ℕ) : Type 0 where
  pub edges : (c : ℕ) → 2 ≤ c → c ≤ n → lo ≤ c / 2 → c / 2 ≢ i → a (c / 2) ≤ a c
  pub bridged : (c : ℕ) → 2 ≤ c → c ≤ n → c / 2 ≡ i → 2 ≤ i → lo ≤ i / 2 → a (i / 2) ≤ a c

-- m is the lesser child of i.
record IsLeastChild (n : ℕ) (a : Block ℕ) (i m : ℕ) : Type 0 where
  inside : m ≤ n
  child : m / 2 ≡ i
  below : i < m
  least : (c : ℕ) → 2 ≤ c → c ≤ n → c / 2 ≡ i → a m ≤ a c

least_child-IsLeastChild :
    (n : ℕ) (a : Block ℕ) (i : ℕ)
    → 1 ≤ i
    → 2 * i ≤ n
    → IsGuarded n a
    → IsLeastChild n a i (least_child a (2 * i))
unfolding least_child
least_child-IsLeastChild n a i pos h guard =
    let two : (c : ℕ) → c / 2 ≡ i → (c ≡ 2 * i) ⊎ (c ≡ 2 * i + 1) = λ c e.
      elim (ℕ_discrete c (2 * i)) [ yes first ↦ inl first | no ne ↦ inr (omega (arith, e, ne)) ] in
    elim (dec_lt (a (2 * i + 1)) (a (2 * i))) [
      | yes less ↦
          let not_last : 2 * i ≢ n = λ e.
            absurd
              (omega (arith, guard (2 * i) (omega arith) h, less, ap (λ (t : ℕ). a (t + 1)) e)) in
          rw (leb_no (a (2 * i)) (a (2 * i + 1)) less) (record {
            inside = omega (arith, not_last);
            child = omega arith;
            below = omega arith;
            least = λ c lo hc e. elim (two c e) [
              | inl first ↦ rw first (omega (arith, less))
              | inr second ↦ rw second (omega arith)
            ];
          })
      | no more ↦ rw (leb_yes (a (2 * i)) (a (2 * i + 1)) (omega (arith, more))) (record {
        inside = h;
        child = omega arith;
        below = omega arith;
        least = λ c lo hc e. elim (two c e) [
          | inl first ↦ rw first (omega arith)
          | inr second ↦ rw second (omega (arith, more))
        ];
      })
    ]

swap-DownInv :
    (lo n : ℕ) (a : Block ℕ) (i m : ℕ)
    → lo ≤ i
    → 1 ≤ i
    → DownInv lo n a i
    → IsLeastChild n a i m
    → a m < a i
    → DownInv lo n (swap_entries i m a) m
swap-DownInv lo n a i m above pos v s less =
    let at = swap_entries-cell i m a in
    record {
      edges = λ c p q r t. ground (arith, at c, at (c / 2), v.edges c, v.bridged m, s.least c);
      bridged = λ c p q r t u. ground (arith, at c, at (m / 2), v.edges c);
    }

swap-IsGuarded :
    (n : ℕ) (a : Block ℕ) (i m : ℕ)
    → 1 ≤ i
    → i ≤ n
    → 1 ≤ m
    → m ≤ n
    → IsGuarded n a
    → IsGuarded n (swap_entries i m a)
swap-IsGuarded n a i m li hi lm hm guard c lo hc =
    let at = swap_entries-cell i m a in ground (arith, at c, at (n + 1), guard c, guard i, guard m)

-- What `heapify` keeps and restores.
pub record Sifted (lo n : ℕ) (before after : Block ℕ) : Type 0 where
  pub ordered : IsHeapFrom lo n after
  pub guarded : IsGuarded n after
  pub same : (x : ℕ) → occurrences x after n ≡ occurrences x before n
  pub outside : (c : ℕ) → (c ≡ 0) ⊎ (n < c) → after c ≡ before c

pub Sifted-ready : {lo n : ℕ} {a : Block ℕ} → IsHeapFrom lo n a → IsGuarded n a → Sifted lo n a a
Sifted-ready ordered guard = record {
  ordered = ordered;
  guarded = guard;
  same = λ x. refl;
  outside = λ c away. refl;
}

heapify_from-Sifted :
    (fuel lo n : ℕ) (a : Block ℕ) (i : ℕ)
    → n < fuel + i
    → lo ≤ i
    → 1 ≤ i
    → i ≤ n
    → DownInv lo n a i
    → IsGuarded n a
    → Sifted lo n a (heapify_from fuel a n i)
unfolding heapify_from
heapify_from-Sifted zero lo n a i enough above pos inside v guard = absurd (omega arith)
heapify_from-Sifted (suc fuel) lo n a i enough above pos inside v guard = elim (dec_lt n (2 * i)) [
  | yes leaf ↦
      rw (leb_no (2 * i) n leaf) (Sifted-ready (λ c p q r. v.edges c p q r (omega arith)) guard)
  | no inner ↦
      let m = least_child a (2 * i) in
      let s = least_child-IsLeastChild n a i pos (omega (arith, inner)) guard in
      rw (leb_yes (2 * i) n (omega (arith, inner))) (elim (dec_lt (a m) (a i)) [
        | no settled ↦
            rw (ltb_no (a m) (a i) settled)
              (Sifted-ready (λ c p q r. ground (arith, v.edges c, s.least c, settled)) guard)
        | yes less ↦
            let rest =
              heapify_from-Sifted fuel lo n (swap_entries i m a) m (omega (arith, s.below))
                (omega (arith, s.below)) (omega (arith, s.below)) s.inside
                (swap-DownInv lo n a i m above pos v s less)
                (swap-IsGuarded n a i m pos inside (omega (arith, s.below)) s.inside guard) in
            rw (lt→ltb (a m) (a i) less) (record {
              ordered = rest.ordered;
              guarded = rest.guarded;
              same = λ x.
                  rest.same x
                  ∙ occurrences-swap_entries x a n i m pos inside (omega (arith, s.below)) s.inside;
              outside = λ c away.
                  rest.outside c away
                  ∙ ground (arith, swap_entries-cell i m a c, away, s.below, s.inside);
            })
      ])
]

-- `heapify` puts one entry in its place, in fewer rounds than it may take.
pub heapify-Sifted :
    (lo n : ℕ) (a : Block ℕ) (i : ℕ)
    → lo ≤ i
    → 1 ≤ i
    → i ≤ n
    → DownInv lo n a i
    → IsGuarded n a
    → Sifted lo n a (heapify a n i)
unfolding heapify
heapify-Sifted lo n a i above pos inside v guard =
    heapify_from-Sifted (n + 1) lo n a i (omega arith) above pos inside v guard
