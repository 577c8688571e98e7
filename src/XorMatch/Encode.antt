-- ===== src/XorMatch/Encode.antt =====
-- Encoding by a schedule, from start to end: the encoders of xorMatch/slp.c, run on what
-- bitmatrix_to_schedule (xorMatch/vandermonde.c) makes of a bit matrix.
use cerasure.Base.{ℕ, ◌+◌, ◌*◌, ◌%◌, ◌^◌, ◌<◌, ◌≤◌, ◌≡◌, sym, ap, ◌∙◌, arith, List, Block}
use cerasure.XorMatch.Memory.{Pointer, Memory, advance, byte, Outside, Kernel}
use cerasure.XorMatch.Machine.{Row, AllRows, TwoSources, apply_rows, apply_rows-Agree}
use cerasure.XorMatch.Slp.{slp_encode_once, copy_pointers, encode_base_deforestation}
use cerasure.XorMatch.Slp.Stripes.{stripe, stripe_values, run-stripe, run-Outside}
use cerasure.XorMatch.Schedule.{bitmatrix_to_schedule}
use cerasure.XorMatch.Schedule.Rows.{
  HasTwoBits, product, product_congr, AllRows-bitmatrix_to_schedule,
  TwoSources-bitmatrix_to_schedule, schedule_keep, schedule-product,
}
use cerasure.XorMatch.Slp.Passes.{once-IsPass}
use cerasure.XorMatch.Slp.Pointers.{
  AreBuffers, copy_pointers-src, copy_pointers-dest, copy_pointers-ArePlaced, copy_pointers-Outside,
}

size-pos : (packetsize w : ℕ) → 1 ≤ packetsize → 0 < w → 1 ≤ packetsize * w
size-pos packetsize w hp hw = grind arith

module _ (kernel : Kernel) (fresh src dest : Block Pointer) (k p w packetsize len : ℕ) (pos : 0 < w)
    (some : 1 ≤ packetsize) (whole : packetsize % 128 ≡ 0) (fits : len + packetsize * w ≤ 2 ^ 31)
    (room : k + p ≤ p * w + 1) (buffers : AreBuffers k p src dest) (m : Memory) where
  abbrev c : Block Pointer
  c = copy_pointers k p src dest fresh

  abbrev encoded : List Row → Memory
  encoded rows = encode_base_deforestation kernel fresh k p w rows src dest len packetsize m

  encoded-apply_rows :
      (rows : List Row)
      → AllRows (k + p) w rows
      → TwoSources rows
      → (r b q t : ℕ) → r * (packetsize * w) < len
      → b < k + p
      → q < w
      → t < packetsize
      → byte (encoded rows) (stripe w packetsize c r b q) t
        ≡ apply_rows rows (stripe_values w packetsize c r m t) b q
  unfolding encode_base_deforestation
  encoded-apply_rows rows ok twos r b q t hr hb hq ht =
      run-stripe (λ (m : Memory). m)
        (λ copy_ptr. slp_encode_once kernel rows copy_ptr packetsize fresh fresh) rows (k + p)
        (k + p) w packetsize len (once-IsPass kernel rows (k + p) w packetsize ok twos fresh fresh)
        (omega arith) fits (λ v v' same. apply_rows-Agree (k + p) w rows v v' ok same) len 0 r c m
        (copy_pointers-ArePlaced k p src dest fresh packetsize buffers some whole)
        (size-pos packetsize w some pos) (omega arith) (omega arith) b q t hb hq ht

  stripe_src :
      (m' : Memory) (r b q t : ℕ)
      → b < k
      → byte m' (stripe w packetsize c r b q) t ≡ byte m' (stripe w packetsize src r b q) t
  stripe_src m' r b q t hb =
      ap (λ (p' : Pointer). byte m' (advance p' (r * (packetsize * w) + q * packetsize)) t)
        (copy_pointers-src k p src dest fresh b hb)

  stripe_dest :
      (m' : Memory) (r i q t : ℕ)
      → i < p
      → byte m' (stripe w packetsize c r (k + i) q) t ≡ byte m' (stripe w packetsize dest r i q) t
  stripe_dest m' r i q t hi =
      ap (λ (p' : Pointer). byte m' (advance p' (r * (packetsize * w) + q * packetsize)) t)
        (copy_pointers-dest k p src dest fresh i hi)

  module _ (bitmatrix fresh_row : Block ℕ) (bits : HasTwoBits k p w bitmatrix) where
    abbrev rows : List Row
    rows = bitmatrix_to_schedule k p w bitmatrix fresh_row

    -- With blocks of one packet or more, packets of whole rounds of 128 bytes, blocks in buffers
    -- apart that start at addresses which 32 divides, room for the k + p pointers in copy_ptr, len
    -- and a stripe more within an int, and two bits or more set in every row of the bit matrix,
    -- encode_base_deforestation, run on the schedule of bitmatrix_to_schedule, leaves in every stripe
    -- that starts below len the product of the bit matrix and the data packets, byte by byte, in the
    -- parity packets.
    pub encode-product :
        (r i q t : ℕ)
        → r * (packetsize * w) < len
        → i < p
        → q < w
        → t < packetsize
        → byte
            (encode_base_deforestation kernel fresh k p w
              (bitmatrix_to_schedule k p w bitmatrix fresh_row)
              src
              dest
              len
              packetsize
              m)
            (stripe w packetsize dest r i q)
            t
          ≡ product k w bitmatrix (stripe_values w packetsize src r m t) (i * w + q)
    encode-product r i q t hr hi hq ht =
        sym (stripe_dest (encoded rows) r i q t hi)
        ∙ encoded-apply_rows rows (AllRows-bitmatrix_to_schedule k p w bitmatrix fresh_row pos bits)
            (TwoSources-bitmatrix_to_schedule k p w bitmatrix fresh_row pos bits) r (k + i) q t hr
            (omega arith) hq ht
        ∙ schedule-product k p w bitmatrix fresh_row pos _ i q hi hq
        ∙ product_congr k p w bitmatrix fresh_row pos _ _ (i * w + q)
            (λ b q' hb. stripe_src m r b q' t hb)

    -- Under the same conditions it leaves the data packets of those stripes as they were.
    pub encode_keep :
        (r b q t : ℕ)
        → r * (packetsize * w) < len
        → b < k
        → q < w
        → t < packetsize
        → byte
            (encode_base_deforestation kernel fresh k p w
              (bitmatrix_to_schedule k p w bitmatrix fresh_row)
              src
              dest
              len
              packetsize
              m)
            (stripe w packetsize src r b q)
            t
          ≡ byte m (stripe w packetsize src r b q) t
    encode_keep r b q t hr hb hq ht =
        sym (stripe_src (encoded rows) r b q t hb)
        ∙ encoded-apply_rows rows (AllRows-bitmatrix_to_schedule k p w bitmatrix fresh_row pos bits)
            (TwoSources-bitmatrix_to_schedule k p w bitmatrix fresh_row pos bits) r b q t hr
            (omega arith) hq ht
        ∙ schedule_keep k p w bitmatrix fresh_row pos _ b q hb
        ∙ stripe_src m r b q t hb

    -- Under the same conditions a byte that lies outside the first so many stripes of every data
    -- and parity block, where those stripes cover len bytes, is left as it was.
    pub encode-Outside :
        (rounds b x : ℕ)
        → len ≤ rounds * (packetsize * w)
        → ((i : ℕ) → i < k → Outside (rounds * (packetsize * w)) (src i) b x)
        → ((i : ℕ) → i < p → Outside (rounds * (packetsize * w)) (dest i) b x)
        → encode_base_deforestation kernel fresh k p w
            (bitmatrix_to_schedule k p w bitmatrix fresh_row)
            src
            dest
            len
            packetsize
            m
            b
            x
          ≡ m b x
    unfolding encode_base_deforestation
    encode-Outside rounds b x enough of_src of_dest =
        run-Outside (λ (m : Memory). m)
          (λ copy_ptr. slp_encode_once kernel rows copy_ptr packetsize fresh fresh) rows (k + p)
          (k + p) w packetsize len
          (once-IsPass kernel rows (k + p) w packetsize
            (AllRows-bitmatrix_to_schedule k p w bitmatrix fresh_row pos bits)
            (TwoSources-bitmatrix_to_schedule k p w bitmatrix fresh_row pos bits) fresh fresh)
          (omega arith) fits len 0 rounds c m b x (omega arith)
          (copy_pointers-ArePlaced k p src dest fresh packetsize buffers some whole) (omega arith)
          (λ i hi.
            copy_pointers-Outside k p src dest fresh (rounds * (packetsize * w)) b x of_src of_dest
              i hi)
          (λ i lo hi. absurd (omega arith))
