-- ===== src/XorMatch/Memory.antt =====
-- Pointers into buffers of bytes, and the kernels that xor packets. `xor_gen` and `xor_nodeforest`
-- of four arguments are assembly (raid/xor_gen_avx.asm, raid/xor_nodeforest_avx.asm); the encoders
-- take them as a parameter, with the laws of Kernel for the calls that the assembly is written for
-- (IsCall): the first argument counts the sources, which the third holds, and the sum goes to the
-- first pointer of the fourth. Each reads a first and a second source before it tests the count,
-- works in rounds of 128 bytes with the test at the end, and moves aligned words of 32 bytes.
-- Buffers start at addresses that 32 divides.
use cerasure.Base.{
  ℕ, ◌+◌, ◌%◌, ◌<◌, ◌≤◌, ◌≡◌, ◌≢◌, ◌⊎◌, inl, inr, ◌∙◌, ap, Block, set, set_self, set_ne, fill,
  fill_inside, fill_outside, ℕ_discrete,
}
use cerasure.Field.Sum.{sum}

pub record Pointer : Type 0 where
  pub buffer : ℕ
  pub offset : ℕ

abbrev pub Memory : Type 0
Memory = Block (Block ℕ)

-- p + n
abbrev pub advance : Pointer → ℕ → Pointer
advance p n = record { buffer = p.buffer; offset = p.offset + n }

-- p[t]
abbrev pub byte : Memory → Pointer → ℕ → ℕ
byte m p t = m p.buffer (p.offset + t)

-- Two ranges of len bytes do not overlap.
abbrev pub Apart : ℕ → Pointer → Pointer → Type 0
Apart len p q = (p.buffer ≢ q.buffer) ⊎ ((p.offset + len ≤ q.offset) ⊎ (q.offset + len ≤ p.offset))

-- Offset x of buffer b is not among the len bytes at p.
abbrev pub Outside : ℕ → Pointer → ℕ → ℕ → Type 0
Outside len p b x = (p.buffer ≢ b) ⊎ ((x < p.offset) ⊎ (p.offset + len ≤ x))

-- A call that the kernels are written for.
pub record IsCall (vects len : ℕ) (array dest : Block Pointer) : Type 0 where
  pub two_sources : 2 ≤ vects
  pub some_bytes : 1 ≤ len
  pub whole_rounds : len % 128 ≡ 0
  pub source_aligned : (j : ℕ) → j < vects → (array j).offset % 32 ≡ 0
  pub dest_aligned : (dest 0).offset % 32 ≡ 0
  pub apart : (j : ℕ) → j < vects → Apart len (array j) (dest 0)

-- xor_gen(vects, len, array, dest): the sum of the vects vectors goes to dest[0].
pub record Kernel : Type 0 where
  pub xor_gen : ℕ → ℕ → Block Pointer → Block Pointer → Memory → Memory
  pub inside :
      (vects len : ℕ) (array dest : Block Pointer) (m : Memory)
      → IsCall vects len array dest
      → (t : ℕ) → t < len
      → byte (xor_gen vects len array dest m) (dest 0) t ≡ sum vects (λ j. byte m (array j) t)
  pub outside :
      (vects len : ℕ) (array dest : Block Pointer) (m : Memory) (b x : ℕ)
      → IsCall vects len array dest
      → Outside len (dest 0) b x
      → xor_gen vects len array dest m b x ≡ m b x

-- A kernel in terms of `fill`, which shows that the laws can hold.
pub xor_fill : ℕ → ℕ → Block Pointer → Block Pointer → Memory → Memory
xor_fill vects len array dest m =
    set m (dest 0).buffer
      (fill (dest 0).offset len (λ t. sum vects (λ j. byte m (array j) t)) (m (dest 0).buffer))

xor_fill-Outside :
    (vects len : ℕ) (array dest : Block Pointer) (m : Memory) (b x : ℕ)
    → Outside len (dest 0) b x
    → xor_fill vects len array dest m b x ≡ m b x
unfolding xor_fill
xor_fill-Outside vects len array dest m b x away = elim (ℕ_discrete (dest 0).buffer b) [
  | no ne ↦ ap (λ (block : Block ℕ). block x) (set_ne m (dest 0).buffer b _ ne)
  | yes e ↦ rw (← e) (
      ap (λ (block : Block ℕ). block x) (set_self m (dest 0).buffer _)
      ∙ fill_outside (dest 0).offset len _ (m (dest 0).buffer) x
          (elim away [ inl ne ↦ absurd (ne e) | inr h ↦ h ]))
]

xor_fill-inside :
    (vects len : ℕ) (array dest : Block Pointer) (m : Memory) (t : ℕ)
    → t < len
    → byte (xor_fill vects len array dest m) (dest 0) t ≡ sum vects (λ j. byte m (array j) t)
unfolding xor_fill
xor_fill-inside vects len array dest m t h =
    ap (λ (block : Block ℕ). block ((dest 0).offset + t)) (set_self m (dest 0).buffer _)
    ∙ fill_inside (dest 0).offset len _ (m (dest 0).buffer) t h

pub fill_kernel : Kernel
fill_kernel = record {
  xor_gen = xor_fill;
  inside = λ vects len array dest m call t h. xor_fill-inside vects len array dest m t h;
  outside = λ vects len array dest m b x call. xor_fill-Outside vects len array dest m b x;
}
