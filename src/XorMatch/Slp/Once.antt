-- ===== src/XorMatch/Slp/Once.antt =====
-- One pass over a schedule of xorMatch/slp.c, against the machine on packets.
use native.Mathlib.Nat.{mul-le-mul_right, suc-mul, zero-mul}
use cerasure.Base.{
  ℕ, zero, suc, ◌+◌, ◌*◌, ◌%◌, ◌<◌, ◌≤◌, ◌≡◌, ◌≢◌, ◌⊎◌, inl, inr, refl, sym, ap, ◌∙◌, arith, List,
  [], ◌∷◌, Block, set, set_self, set_ne, for_range_inv, ℕ_discrete, dec_lt,
}
use cerasure.Field.Sum.{sum, sum_congr}
use cerasure.XorMatch.Memory.{Pointer, Memory, advance, byte, Apart, Outside, IsCall, Kernel}
use cerasure.XorMatch.Machine.{
  Row, Values, apply_row, apply_rows, apply_row-dest, apply_row-other, IsRow, AllRows, TwoSources,
  apply_rows-Agree,
}
use cerasure.XorMatch.Slp.{EncodeState, set_data_buffs, encode_row, slp_encode_better_once}

-- Packet q of block b.
abbrev pub packet : Block Pointer → ℕ → ℕ → ℕ → Pointer
packet copy_ptr packetsize b q = advance (copy_ptr b) (q * packetsize)

-- The bytes at t of all packets.
abbrev pub values : Block Pointer → ℕ → Memory → ℕ → Values
values copy_ptr packetsize m t b q = byte m (packet copy_ptr packetsize b q) t

-- Blocks that are pointed to by different buffers.
abbrev pub AreSeparate : ℕ → Block Pointer → Type 0
AreSeparate blocks copy_ptr =
    (b b' : ℕ) → b < blocks → b' < blocks → b ≢ b' → (copy_ptr b).buffer ≢ (copy_ptr b').buffer

-- They start at addresses that 32 divides, and packets are whole rounds of the kernels.
pub record ArePlaced (blocks packetsize : ℕ) (copy_ptr : Block Pointer) : Type 0 where
  pub separate : AreSeparate blocks copy_ptr
  pub aligned : (b : ℕ) → b < blocks → (copy_ptr b).offset % 32 ≡ 0
  pub some_bytes : 1 ≤ packetsize
  pub whole_rounds : packetsize % 128 ≡ 0

pub whole_times : (q packetsize : ℕ) → packetsize % 128 ≡ 0 → q * packetsize % 128 ≡ 0
whole_times zero packetsize h = omega (arith, zero-mul packetsize)
whole_times (suc q) packetsize h = omega (arith, suc-mul q packetsize, whole_times q packetsize h)

Outside-Apart :
    (len : ℕ) (p q : Pointer) (t : ℕ)
    → t < len
    → Apart len p q
    → Outside len p q.buffer (q.offset + t)
Outside-Apart len p q t ht (inl ne) = inl ne
Outside-Apart len p q t ht (inr (inl le)) = inr (inr (omega arith))
Outside-Apart len p q t ht (inr (inr le)) = inr (inl (omega arith))

lt_other : (b q b' q' : ℕ) → (b ≢ b') ⊎ (q ≢ q') → b ≡ b' → ¬ (q < q') → q' < q
lt_other b q b' q' (inl ne) e ge = absurd (ne e)
lt_other b q b' q' (inr ne) e ge = omega (arith, ne, ge)

set_data_buffs-packet :
    (copy_ptr : Block Pointer) (packetsize : ℕ) (row : Row) (d : Block Pointer) (j : ℕ)
    → j < row 0
    → set_data_buffs copy_ptr packetsize row d j
      ≡ packet copy_ptr packetsize (row (2 * j + 3)) (row (2 * j + 4))
unfolding set_data_buffs
set_data_buffs-packet copy_ptr packetsize row d =
    for_range_inv
      (λ k d.
        (j : ℕ) → j < k → d j ≡ packet copy_ptr packetsize (row (2 * j + 3)) (row (2 * j + 4)))
      (λ j d. set d j (advance (copy_ptr (row (2 * j + 3))) (row (2 * j + 4) * packetsize))) 0
      (row 0)
      (λ k d lo hi w j hj. elim (ℕ_discrete j k) [
        | yes e ↦ rw e (set_self d k _)
        | no ne ↦ set_ne d k j _ (omega (arith, ne)) ∙ w j (omega (arith, ne))
      ])
      (row 0) 0 d (omega arith) (omega arith) (λ j h. absurd (omega arith))

module _ (blocks w packetsize : ℕ) (copy_ptr : Block Pointer)
    (placed : ArePlaced blocks packetsize copy_ptr) where
  abbrev at : ℕ → ℕ → Pointer
  at = packet copy_ptr packetsize

  below_next : (q q' : ℕ) → q < q' → q * packetsize + packetsize ≤ q' * packetsize
  below_next q q' h =
      omega (arith, mul-le-mul_right {m = suc q} {n = q'} packetsize h, suc-mul q packetsize)

  Apart-packets :
      (b q b' q' : ℕ)
      → b < blocks
      → b' < blocks
      → (b ≢ b') ⊎ (q ≢ q')
      → Apart packetsize (at b q) (at b' q')
  Apart-packets b q b' q' hb hb' ne = elim (ℕ_discrete b b') [
    | no other ↦ inl (placed.separate b b' hb hb' other)
    | yes e ↦ elim (dec_lt q q') [
      | yes lt ↦ rw e (inr (inl (omega (arith, below_next q q' lt))))
      | no ge ↦ rw e (inr (inr (omega (arith, below_next q' q (lt_other b q b' q' ne e ge)))))
    ]
  ]

  at-aligned : (b q : ℕ) → b < blocks → (at b q).offset % 32 ≡ 0
  at-aligned b q hb =
      omega (arith, placed.aligned b hb, whole_times q packetsize placed.whole_rounds)

  -- The kernel on the pointers of a row.
  module _ (kernel : Kernel) (row : Row) (m : Memory) (data_buffs parity_buffs : Block Pointer)
      (is_row : IsRow blocks w row) (two : 2 ≤ row 0)
      (from : (j : ℕ) → j < row 0 → data_buffs j ≡ at (row (2 * j + 3)) (row (2 * j + 4)))
      (to : parity_buffs 0 ≡ at (row 1) (row 2)) where
    after : Memory
    after = kernel.xor_gen (row 0) packetsize data_buffs parity_buffs m

    called : IsCall (row 0) packetsize data_buffs parity_buffs
    called = record {
      two_sources = two;
      some_bytes = placed.some_bytes;
      whole_rounds = placed.whole_rounds;
      source_aligned = λ j hj. rw (from j hj) (at-aligned _ _ (is_row.source_block j hj));
      dest_aligned = rw to (at-aligned _ _ is_row.dest_block);
      apart = λ j hj.
          rw (from j hj, to)
            (Apart-packets _ _ _ _ (is_row.source_block j hj) is_row.dest_block
              (is_row.not_dest j hj));
    }

    written :
        (t : ℕ)
        → t < packetsize
        → byte after (at (row 1) (row 2)) t
          ≡ sum (row 0) (λ j. values copy_ptr packetsize m t (row (2 * j + 3)) (row (2 * j + 4)))
    unfolding after
    written t ht =
        ap (λ (p : Pointer). byte after p t) (sym to)
        ∙ kernel.inside (row 0) packetsize data_buffs parity_buffs m called t ht
        ∙ sum_congr (row 0) _ _ (λ j hj. ap (λ (p : Pointer). byte m p t) (from j hj))

    kept : (b x : ℕ) → Outside packetsize (at (row 1) (row 2)) b x → after b x ≡ m b x
    unfolding after
    kept b x away =
        kernel.outside (row 0) packetsize data_buffs parity_buffs m b x called (rw to away)

    kept_packet :
        (b q t : ℕ)
        → b < blocks
        → t < packetsize
        → (row 1 ≢ b) ⊎ (row 2 ≢ q)
        → byte after (at b q) t ≡ byte m (at b q) t
    kept_packet b q t hb ht ne = kept (at b q).buffer ((at b q).offset + t) (
        Outside-Apart packetsize (at (row 1) (row 2)) (at b q) t ht
          (Apart-packets _ _ b q is_row.dest_block hb ne))

    kernel-apply_row :
        (b q t : ℕ)
        → b < blocks
        → t < packetsize
        → byte after (at b q) t ≡ apply_row row (values copy_ptr packetsize m t) b q
    kernel-apply_row b q t hb ht = elim (ℕ_discrete (row 1) b) [
      | no ne ↦ kept_packet b q t hb ht (inl ne) ∙ sym (apply_row-other row _ b q (inl ne))
      | yes e ↦ elim (ℕ_discrete (row 2) q) [
        | no ne ↦ kept_packet b q t hb ht (inr ne) ∙ sym (apply_row-other row _ b q (inr ne))
        | yes e' ↦
            rw (← e, ← e')
              (written t ht ∙ sym (apply_row-dest row (values copy_ptr packetsize m t)))
      ]
    ]

  module _ (kernel : Kernel) where
    encode_row-apply_row :
        (row : Row) (s : EncodeState)
        → IsRow blocks w row
        → 2 ≤ row 0
        → (b q t : ℕ) → b < blocks
        → t < packetsize
        → byte (encode_row kernel copy_ptr packetsize row s).memory (at b q) t
          ≡ apply_row row (values copy_ptr packetsize s.memory t) b q
    unfolding encode_row after
    encode_row-apply_row row s is_row two b q t hb ht =
        kernel-apply_row kernel row s.memory (set_data_buffs copy_ptr packetsize row s.data_buffs)
          (set s.parity_buffs 0 (at (row 1) (row 2))) is_row two
          (set_data_buffs-packet copy_ptr packetsize row s.data_buffs) (set_self s.parity_buffs 0 _)
          b q t hb ht

    -- Packet by packet, a pass does to the bytes at each t what the machine does to values.
    pub once-apply_rows :
        (rows : List Row) (s : EncodeState)
        → AllRows blocks w rows
        → TwoSources rows
        → (b q t : ℕ) → b < blocks
        → t < packetsize
        → byte (slp_encode_better_once kernel rows copy_ptr packetsize s).memory (at b q) t
          ≡ apply_rows rows (values copy_ptr packetsize s.memory t) b q
    unfolding slp_encode_better_once apply_rows
    once-apply_rows [] s ok twos b q t hb ht = refl
    once-apply_rows (row ∷ rows) s (is_row, ok) (two, twos) b q t hb ht =
        once-apply_rows rows (encode_row kernel copy_ptr packetsize row s) ok twos b q t hb ht
        ∙ apply_rows-Agree blocks w rows _ _ ok
            (λ b' q' hb'. encode_row-apply_row row s is_row two b' q' t hb' ht) b q hb

  module _ (kernel : Kernel) where
    encode_row_kept :
        (row : Row) (s : EncodeState)
        → IsRow blocks w row
        → 2 ≤ row 0
        → (b x : ℕ) → Outside packetsize (at (row 1) (row 2)) b x
        → (encode_row kernel copy_ptr packetsize row s).memory b x ≡ s.memory b x
    unfolding encode_row after
    encode_row_kept row s is_row two b x away =
        kept kernel row s.memory (set_data_buffs copy_ptr packetsize row s.data_buffs)
          (set s.parity_buffs 0 (at (row 1) (row 2))) is_row two
          (set_data_buffs-packet copy_ptr packetsize row s.data_buffs) (set_self s.parity_buffs 0 _)
          b x away

    -- It writes nothing but packets of its blocks.
    pub once_kept :
        (rows : List Row) (s : EncodeState)
        → AllRows blocks w rows
        → TwoSources rows
        → (b x : ℕ) → ((b' q : ℕ) → b' < blocks → q < w → Outside packetsize (at b' q) b x)
        → (slp_encode_better_once kernel rows copy_ptr packetsize s).memory b x ≡ s.memory b x
    unfolding slp_encode_better_once
    once_kept [] s ok twos b x away = refl
    once_kept (row ∷ rows) s (is_row, ok) (two, twos) b x away =
        once_kept rows _ ok twos b x away
        ∙ encode_row_kept row s is_row two b x
            (away (row 1) (row 2) is_row.dest_block is_row.dest_packet)
