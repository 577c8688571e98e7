-- ===== src/XorMatch/EncodeSlp.antt =====
-- slp_encode, slp_encode_better and slp_encode_better_finally of xorMatch/slp.c, for a schedule with
-- temporary blocks, and what all the encoders leave.
use cerasure.Base.{ℕ, ◌+◌, ◌*◌, ◌/◌, ◌^◌, ◌<◌, ◌≤◌, ◌≡◌, arith, List, Block}
use cerasure.XorMatch.Memory.{Pointer, Memory, byte, Kernel}
use cerasure.XorMatch.Machine.{Row, AllRows, TwoSources, AtMostSources, apply_rows}
use cerasure.XorMatch.Reads.{ReadsKnown, reads_determined}
use cerasure.XorMatch.Slp.{
  EncodeState, slp_encode_better_once, copy_pointers, copy_tmp, slp_encode_better_finally,
  slp_encode_better,
}
use cerasure.XorMatch.Slp.Once.{ArePlaced}
use cerasure.XorMatch.Slp.Stripes.{stripe, stripe_values, run-stripe}
use cerasure.XorMatch.Slp.Passes.{better_once-IsPass}

module _ (kernel : Kernel) (fresh src dest tmp : Block Pointer) (rows : List Row)
    (k p w packetsize len value blocks : ℕ) (pos : 1 ≤ packetsize * w) (moved : k + p ≤ blocks)
    (room : blocks ≤ value / w + 1) (fits : len + packetsize * w ≤ 2 ^ 31)
    (ok : AllRows blocks w rows) (twos : TwoSources rows) (most : AtMostSources (2 * k * w) rows)
    (reads : ReadsKnown (λ b q. b < k + p) rows)
    (placed : ArePlaced blocks packetsize
      (copy_tmp k p w value tmp (copy_pointers k p src dest fresh))) where
  abbrev c : Block Pointer
  c = copy_tmp k p w value tmp (copy_pointers k p src dest fresh)

  slp_encode_better_finally-apply_rows :
      (s : EncodeState) (r b q t : ℕ)
      → r * (packetsize * w) < len
      → b < k + p
      → q < w
      → t < packetsize
      → byte
          (slp_encode_better_finally kernel fresh k p w rows src dest tmp len packetsize value
            s).memory
          (stripe w packetsize c r b q)
          t
        ≡ apply_rows rows (stripe_values w packetsize c r s.memory t) b q
  unfolding slp_encode_better_finally
  slp_encode_better_finally-apply_rows s r b q t hr hb hq ht =
      run-stripe (λ (s : EncodeState). s.memory)
        (λ copy_ptr. slp_encode_better_once kernel rows copy_ptr packetsize) rows blocks (k + p) w
        packetsize len (better_once-IsPass kernel rows blocks w packetsize ok twos) moved fits
        (λ v v' same. reads_determined (k + p) rows v v' reads same) len 0 r c s placed pos
        (omega arith) (omega arith) b q t hb hq ht

  pub slp_encode_better-apply_rows :
      (m : Memory) (r b q t : ℕ)
      → r * (packetsize * w) < len
      → b < k + p
      → q < w
      → t < packetsize
      → byte
          (slp_encode_better kernel fresh k p w rows src dest tmp len packetsize value m)
          (stripe w packetsize (copy_tmp k p w value tmp (copy_pointers k p src dest fresh)) r b q)
          t
        ≡ apply_rows rows
            (stripe_values w packetsize
              (copy_tmp k p w value tmp (copy_pointers k p src dest fresh))
              r
              m
              t)
            b
            q
  unfolding slp_encode_better
  slp_encode_better-apply_rows m =
      slp_encode_better_finally-apply_rows
        (record { memory = m; data_buffs = fresh; parity_buffs = fresh })
