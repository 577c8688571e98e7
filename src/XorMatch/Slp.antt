-- ===== src/XorMatch/Slp.antt =====
-- The encoders of xorMatch/slp.c. Their loops run a schedule on one stripe of the buffers after the
-- other; the arrays of pointers keep what stands in them from one row to the next.
pub mod Once
mod Loop
pub mod Stripes
pub mod Passes
pub mod Pointers
use cerasure.Base.{
  ℕ, zero, suc, ◌+◌, ◌-◌, ◌*◌, ◌/◌, ◌%◌, ◌^◌, Bool, true, List, [], ◌∷◌, Block, set, for_range, ltb,
  if◌then◌else◌,
}
use cerasure.XorMatch.Memory.{Pointer, Memory, advance, Kernel}
use cerasure.XorMatch.Machine.{Row}

pub record EncodeState : Type 0 where
  pub memory : Memory
  pub data_buffs : Block Pointer
  pub parity_buffs : Block Pointer

-- data_buffs[j] = copy_ptr[schedule[index][2*j+3]] + schedule[index][2*j+4] * packetsize
pub set_data_buffs : Block Pointer → ℕ → Row → Block Pointer → Block Pointer
set_data_buffs copy_ptr packetsize row =
    for_range (row 0) 0
      (λ j d. set d j (advance (copy_ptr (row (2 * j + 3))) (row (2 * j + 4) * packetsize)))

module _ (kernel : Kernel) where
  -- One round of the loop over the schedule.
  pub encode_row : Block Pointer → ℕ → Row → EncodeState → EncodeState
  encode_row copy_ptr packetsize row s =
      let data_buffs = set_data_buffs copy_ptr packetsize row s.data_buffs in
      let parity_buffs = set s.parity_buffs 0 (advance (copy_ptr (row 1)) (row 2 * packetsize)) in
      record {
        memory = kernel.xor_gen (row 0) packetsize data_buffs parity_buffs s.memory;
        data_buffs = data_buffs;
        parity_buffs = parity_buffs;
      }

  -- while (schedule[index][0] >= 0)
  pub slp_encode_better_once : List Row → Block Pointer → ℕ → EncodeState → EncodeState
  slp_encode_better_once [] copy_ptr packetsize s = s
  slp_encode_better_once (row ∷ schedule) copy_ptr packetsize s =
      slp_encode_better_once schedule copy_ptr packetsize (encode_row copy_ptr packetsize row s)

  -- With arrays of pointers from malloc, which hold anything.
  pub slp_encode_once :
      List Row → Block Pointer → ℕ → Block Pointer → Block Pointer → Memory → Memory
  slp_encode_once schedule copy_ptr packetsize fresh_data fresh_parity m =
      (slp_encode_better_once schedule copy_ptr packetsize
        (record { memory = m; data_buffs = fresh_data; parity_buffs = fresh_parity })).memory

-- for (j = 0; j < n; j++) copy_ptr[j] += size;
pub move_pointers : ℕ → ℕ → Block Pointer → Block Pointer
move_pointers n size = for_range n 0 (λ j c. set c j (advance (c j) size))

-- The int i as its 32 bits: i < len, for a len that is not negative, and i += size, which wraps
-- around (the C standard leaves it open what an overflow does).
pub less_int : ℕ → ℕ → Bool
less_int i len = if ltb i (2 ^ 31) then ltb i len else true

pub add_int : ℕ → ℕ → ℕ
add_int i size = (i + size) % 2 ^ 32

-- for (i = 0; i < len; i += size) { body; the first n pointers move on by size }  with the rounds
-- bounded by the fuel
pub encode_from {ℓ} :
    {S : Type ℓ} → (Block Pointer → S → S) → ℕ → ℕ → ℕ → ℕ → ℕ → Block Pointer → S → S
encode_from body n size len zero i copy_ptr s = s
encode_from body n size len (suc fuel) i copy_ptr s =
    let rest =
      encode_from body n size len fuel (add_int i size) (move_pointers n size copy_ptr)
        (body copy_ptr s) in
    if less_int i len then rest else s

-- copy_ptr[i] = src[i] for i < k; copy_ptr[i + k] = dest[i] for i < p
unfoldable pub copy_pointers : ℕ → ℕ → Block Pointer → Block Pointer → Block Pointer → Block Pointer
copy_pointers k p src dest copy_ptr =
    for_range p 0 (λ i c. set c (i + k) (dest i)) (for_range k 0 (λ i c. set c i (src i)) copy_ptr)

-- copy_ptr[i + k + p] = tmp[i] for i < value / w - p - k + 1, a number that may be negative
unfoldable pub copy_tmp : ℕ → ℕ → ℕ → ℕ → Block Pointer → Block Pointer → Block Pointer
copy_tmp k p w value tmp copy_ptr =
    for_range (value / w + 1 - (p + k)) 0 (λ i c. set c (i + k + p) (tmp i)) copy_ptr

-- `fresh` stands for the arrays of pointers that malloc, or the stack, returns.
module _ (kernel : Kernel) (fresh : Block Pointer) where
  unfoldable pub encode_base_deforestation :
      ℕ → ℕ → ℕ → List Row → Block Pointer → Block Pointer → ℕ → ℕ → Memory → Memory
  encode_base_deforestation k p w schedule src dest len packetsize =
      encode_from (λ copy_ptr. slp_encode_once kernel schedule copy_ptr packetsize fresh fresh)
        (k + p) (packetsize * w) len len 0 (copy_pointers k p src dest fresh)

  -- encode_base_once has the text of slp_encode_once with xor_nodeforest for xor_gen, and encode_base
  -- that of encode_base_deforestation: here the kernel is xor_nodeforest.
  pub encode_base_once : List Row → Block Pointer → ℕ → Memory → Memory
  encode_base_once schedule copy_ptr packetsize =
      slp_encode_once kernel schedule copy_ptr packetsize fresh fresh

  unfoldable pub encode_base :
      ℕ → ℕ → ℕ → List Row → Block Pointer → Block Pointer → ℕ → ℕ → Memory → Memory
  encode_base k p w schedule src dest len packetsize =
      encode_from (λ copy_ptr. encode_base_once schedule copy_ptr packetsize) (k + p)
        (packetsize * w) len len 0 (copy_pointers k p src dest fresh)

  unfoldable pub slp_encode :
      ℕ
      → ℕ
      → ℕ
      → List Row
      → Block Pointer
      → Block Pointer
      → Block Pointer
      → ℕ
      → ℕ
      → ℕ
      → Memory
      → Memory
  slp_encode k p w schedule src dest tmp len packetsize value =
      encode_from (λ copy_ptr. slp_encode_once kernel schedule copy_ptr packetsize fresh fresh)
        (k + p) (packetsize * w) len len 0
        (copy_tmp k p w value tmp (copy_pointers k p src dest fresh))

  unfoldable pub slp_encode_better_finally :
      ℕ
      → ℕ
      → ℕ
      → List Row
      → Block Pointer
      → Block Pointer
      → Block Pointer
      → ℕ
      → ℕ
      → ℕ
      → EncodeState
      → EncodeState
  slp_encode_better_finally k p w schedule src dest tmp len packetsize value =
      encode_from (λ copy_ptr. slp_encode_better_once kernel schedule copy_ptr packetsize) (k + p)
        (packetsize * w) len len 0 (copy_tmp k p w value tmp (copy_pointers k p src dest fresh))

  unfoldable pub slp_encode_better :
      ℕ
      → ℕ
      → ℕ
      → List Row
      → Block Pointer
      → Block Pointer
      → Block Pointer
      → ℕ
      → ℕ
      → ℕ
      → Memory
      → Memory
  slp_encode_better k p w schedule src dest tmp len packetsize value m =
      (slp_encode_better_finally k p w schedule src dest tmp len packetsize value
        (record { memory = m; data_buffs = fresh; parity_buffs = fresh })).memory
