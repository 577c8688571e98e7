-- ===== src/XorMatch/Slp/Pointers.antt =====
-- The pointers that the encoders of xorMatch/slp.c start from.
use cerasure.Base.{
  ℕ, ◌+◌, ◌-◌, ◌%◌, ◌<◌, ◌≤◌, ◌≡◌, ◌≢◌, ◌⊎◌, inl, inr, sym, ap, ◌∙◌, arith, Block, set, set_self,
  set_ne, for_range_inv, ℕ_discrete, dec_lt,
}
use cerasure.XorMatch.Memory.{Pointer, Outside}
use cerasure.XorMatch.Slp.{copy_pointers}
use cerasure.XorMatch.Slp.Once.{AreSeparate, ArePlaced}

copy_pointers-cases :
    (k p : ℕ) (src dest c : Block Pointer)
    → ((i : ℕ) → i < k → copy_pointers k p src dest c i ≡ src i)
      × ((i : ℕ) → i < p → copy_pointers k p src dest c (i + k) ≡ dest i)
unfolding copy_pointers
copy_pointers-cases k p src dest c =
    for_range_inv (λ n d. ((i : ℕ) → i < k → d i ≡ src i) × ((i : ℕ) → i < n → d (i + k) ≡ dest i))
      (λ i d. set d (i + k) (dest i)) 0 p
      (λ n d lo hi (sources, dests). (
        (λ i hi'. set_ne d (n + k) i _ (omega arith) ∙ sources i hi'),
        (λ i hi'. elim (ℕ_discrete n i) [
          | yes e ↦ rw (← e) (set_self d (n + k) _)
          | no ne ↦ set_ne d (n + k) (i + k) _ (omega (arith, ne)) ∙ dests i (omega (arith, ne))
        ]),
      ))
      p 0 _ (omega arith) (omega arith)
      (
        for_range_inv (λ n d. (i : ℕ) → i < n → d i ≡ src i) (λ i d. set d i (src i)) 0 k
            (λ n d lo hi sources i hi'. elim (ℕ_discrete n i) [
              | yes e ↦ rw (← e) (set_self d n _)
              | no ne ↦ set_ne d n i _ ne ∙ sources i (omega (arith, ne))
            ])
            k 0 c (omega arith) (omega arith) (λ i hi'. absurd (omega arith)),
        (λ i hi'. absurd (omega arith)),
      )

-- The buffers of the data and of the parity differ from each other, and the blocks start at
-- addresses that 32 divides.
pub record AreBuffers (k p : ℕ) (src dest : Block Pointer) : Type 0 where
  pub src_src : (i j : ℕ) → i < k → j < k → i ≢ j → (src i).buffer ≢ (src j).buffer
  pub dest_dest : (i j : ℕ) → i < p → j < p → i ≢ j → (dest i).buffer ≢ (dest j).buffer
  pub src_dest : (i j : ℕ) → i < k → j < p → (src i).buffer ≢ (dest j).buffer
  pub src_aligned : (i : ℕ) → i < k → (src i).offset % 32 ≡ 0
  pub dest_aligned : (i : ℕ) → i < p → (dest i).offset % 32 ≡ 0

module _ (k p : ℕ) (src dest fresh : Block Pointer) where
  abbrev c : Block Pointer
  c = copy_pointers k p src dest fresh

  pub copy_pointers-src : (i : ℕ) → i < k → copy_pointers k p src dest fresh i ≡ src i
  copy_pointers-src = (copy_pointers-cases k p src dest fresh).0

  pub copy_pointers-dest : (i : ℕ) → i < p → copy_pointers k p src dest fresh (k + i) ≡ dest i
  copy_pointers-dest i hi = ap c (omega arith) ∙ (copy_pointers-cases k p src dest fresh).1 i hi

  data_Or_parity :
      (b : ℕ)
      → b < k + p
      → ((b < k) × (c b ≡ src b)) ⊎ ((i : ℕ) × (i < p) × (b ≡ k + i) × (c b ≡ dest i))
  data_Or_parity b hb = elim (dec_lt b k) [
    | yes lt ↦ inl (lt, copy_pointers-src b lt)
    | no ge ↦ inr (
      b - k,
      omega (arith, ge),
      omega (arith, ge),
      ap c (omega (arith, ge)) ∙ copy_pointers-dest (b - k) (omega (arith, ge)),
    )
  ]

  copy_pointers-AreSeparate :
      AreBuffers k p src dest → AreSeparate (k + p) (copy_pointers k p src dest fresh)
  copy_pointers-AreSeparate buffers b b' hb hb' ne = elim (data_Or_parity b hb) [
    | inl (lt, e) ↦ elim (data_Or_parity b' hb') [
      | inl (lt', e') ↦ rw (e, e') (buffers.src_src b b' lt lt' ne)
      | inr (j, hj, ej, e') ↦ rw (e, e') (buffers.src_dest b j lt hj)
    ]
    | inr (i, hi, ei, e) ↦ elim (data_Or_parity b' hb') [
      | inl (lt', e') ↦ rw (e, e') (λ same. buffers.src_dest b' i lt' hi (sym same))
      | inr (j, hj, ej, e') ↦ rw (e, e') (buffers.dest_dest i j hi hj (omega (arith, ne)))
    ]
  ]

  pub copy_pointers-ArePlaced :
      (packetsize : ℕ)
      → AreBuffers k p src dest
      → 1 ≤ packetsize
      → packetsize % 128 ≡ 0
      → ArePlaced (k + p) packetsize (copy_pointers k p src dest fresh)
  copy_pointers-ArePlaced packetsize buffers some whole = record {
    separate = copy_pointers-AreSeparate buffers;
    aligned = λ b hb. elim (data_Or_parity b hb) [
      | inl (lt, e) ↦ rw e (buffers.src_aligned b lt)
      | inr (i, hi, ei, e) ↦ rw e (buffers.dest_aligned i hi)
    ];
    some_bytes = some;
    whole_rounds = whole;
  }

  pub copy_pointers-Outside :
      (size b x : ℕ)
      → ((i : ℕ) → i < k → Outside size (src i) b x)
      → ((i : ℕ) → i < p → Outside size (dest i) b x)
      → (i : ℕ) → i < k + p
      → Outside size (copy_pointers k p src dest fresh i) b x
  copy_pointers-Outside size b x of_src of_dest i hi = elim (data_Or_parity i hi) [
    | inl (lt, e) ↦ rw e (of_src i lt)
    | inr (j, hj, ej, e) ↦ rw e (of_dest j hj)
  ]
