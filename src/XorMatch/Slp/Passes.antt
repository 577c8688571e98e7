-- ===== src/XorMatch/Slp/Passes.antt =====
-- The passes of xorMatch/slp.c over one stripe are what the loop over stripes needs.
use cerasure.Base.{ℕ, List, Block}
use cerasure.XorMatch.Memory.{Pointer, Memory, Kernel}
use cerasure.XorMatch.Machine.{Row, AllRows, TwoSources}
use cerasure.XorMatch.Slp.{EncodeState, slp_encode_better_once, slp_encode_once}
use cerasure.XorMatch.Slp.Once.{once-apply_rows, once_kept}
use cerasure.XorMatch.Slp.Stripes.{IsPass}

module _ (kernel : Kernel) (rows : List Row) (blocks w packetsize : ℕ) (ok : AllRows blocks w rows)
    (twos : TwoSources rows) where
  pub better_once-IsPass :
      IsPass
        (λ (s : EncodeState). s.memory)
        (λ c. slp_encode_better_once kernel rows c packetsize)
        rows
        blocks
        w
        packetsize
  better_once-IsPass = record {
    computes = λ c s placed b q t hb ht.
        once-apply_rows blocks w packetsize c placed kernel rows s ok twos b q t hb ht;
    keeps = λ c s b x placed away.
        once_kept blocks w packetsize c placed kernel rows s ok twos b x away;
  }

  pub once-IsPass :
      (fresh_data fresh_parity : Block Pointer)
      → IsPass
          (λ (m : Memory). m)
          (λ c. slp_encode_once kernel rows c packetsize fresh_data fresh_parity)
          rows
          blocks
          w
          packetsize
  unfolding slp_encode_once
  once-IsPass fresh_data fresh_parity =
      let start : Memory → EncodeState =
        λ m. record { memory = m; data_buffs = fresh_data; parity_buffs = fresh_parity } in
      record {
        computes = λ c m. better_once-IsPass.computes c (start m);
        keeps = λ c m. better_once-IsPass.keeps c (start m);
      }
