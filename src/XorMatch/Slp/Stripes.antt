-- ===== src/XorMatch/Slp/Stripes.antt =====
-- The loops over stripes of xorMatch/slp.c, for any pass over one stripe that runs a schedule.
use native.Mathlib.Nat.{mul-le-mul_right, suc-mul, mul_comm, zero-mul}
use cerasure.Base.{
  ℕ, zero, suc, ◌+◌, ◌*◌, ◌^◌, ◌<◌, ◌≤◌, ◌≡◌, ◌≢◌, ◌⊎◌, inl, inr, refl, sym, ap, ap₂, subst, ◌∙◌,
  arith, List, Block, set, set_self, set_ne, for_range_inv, ℕ_discrete, dec_lt,
}
use cerasure.XorMatch.Memory.{Pointer, Memory, advance, byte, Outside}
use cerasure.XorMatch.Machine.{Row, Values, apply_rows, Agree}
use cerasure.XorMatch.Slp.{move_pointers, encode_from}
use cerasure.XorMatch.Slp.Loop.{encode_from_zero, encode_from_stop, encode_from_step}
use cerasure.XorMatch.Slp.Once.{packet, values, ArePlaced, whole_times}

move_pointers_cases :
    (n size : ℕ) (c : Block Pointer)
    → ((j : ℕ) → j < n → move_pointers n size c j ≡ advance (c j) size)
      × ((j : ℕ) → n ≤ j → move_pointers n size c j ≡ c j)
unfolding move_pointers
move_pointers_cases n size c =
    for_range_inv
      (λ k d. ((j : ℕ) → j < k → d j ≡ advance (c j) size) × ((j : ℕ) → k ≤ j → d j ≡ c j))
      (λ j d. set d j (advance (d j) size)) 0 n
      (λ k d lo hi (done, left). (
        (λ j hj. elim (ℕ_discrete k j) [
          | yes e ↦
              rw (← e)
                (set_self d k _ ∙ ap (λ (p : Pointer). advance p size) (left k (omega arith)))
          | no ne ↦ set_ne d k j _ ne ∙ done j (omega (arith, ne))
        ]),
        (λ j hj. set_ne d k j _ (omega arith) ∙ left j (omega arith)),
      ))
      n 0 c (omega arith) (omega arith) ((λ j hj. absurd (omega arith)), (λ j hj. refl))

move_pointers-buffer :
    (n size : ℕ) (c : Block Pointer) (j : ℕ) → (move_pointers n size c j).buffer ≡ (c j).buffer
move_pointers-buffer n size c j = elim (dec_lt j n) [
  | yes lt ↦ ap (λ (p : Pointer). p.buffer) ((move_pointers_cases n size c).0 j lt)
  | no ge ↦ ap (λ (p : Pointer). p.buffer) ((move_pointers_cases n size c).1 j (omega (arith, ge)))
]

move_pointers-offset :
    (n size : ℕ) (c : Block Pointer) (j : ℕ)
    → j < n
    → (move_pointers n size c j).offset ≡ (c j).offset + size
move_pointers-offset n size c j h =
    ap (λ (p : Pointer). p.offset) ((move_pointers_cases n size c).0 j h)

-- The next stripe is placed as this one is.
move_pointers-ArePlaced :
    (blocks n w packetsize : ℕ) (c : Block Pointer)
    → ArePlaced blocks packetsize c
    → ArePlaced blocks packetsize (move_pointers n (packetsize * w) c)
move_pointers-ArePlaced blocks n w packetsize c placed =
    let size = packetsize * w in
    record {
      separate = λ b b' hb hb' ne.
          rw (move_pointers-buffer n size c b, move_pointers-buffer n size c b')
            (placed.separate b b' hb hb' ne);
      aligned = λ b hb. elim (dec_lt b n) [
        | yes lt ↦ omega (
          arith,
          move_pointers-offset n size c b lt,
          placed.aligned b hb,
          whole_times w packetsize placed.whole_rounds,
          mul_comm packetsize w,
        )
        | no ge ↦ rw ((move_pointers_cases n size c).1 b (omega (arith, ge))) (placed.aligned b hb)
      ];
      some_bytes = placed.some_bytes;
      whole_rounds = placed.whole_rounds;
    }

-- Packet q of block b in stripe r.
abbrev pub stripe : ℕ → ℕ → Block Pointer → ℕ → ℕ → ℕ → Pointer
stripe w packetsize c r b q = advance (c b) (r * (packetsize * w) + q * packetsize)

-- The bytes at t of all packets of stripe r.
abbrev pub stripe_values : ℕ → ℕ → Block Pointer → ℕ → Memory → ℕ → Values
stripe_values w packetsize c r m t b q = byte m (stripe w packetsize c r b q) t

-- What the loop over stripes needs of a pass: it runs the schedule, and writes nothing else.
pub record IsPass {ℓ} {S : Type ℓ} (view : S → Memory) (body : Block Pointer → S → S)
    (rows : List Row) (blocks w packetsize : ℕ) : Type ℓ where
  pub computes :
      (c : Block Pointer) (s : S)
      → ArePlaced blocks packetsize c
      → (b q t : ℕ) → b < blocks
      → t < packetsize
      → byte (view (body c s)) (packet c packetsize b q) t
        ≡ apply_rows rows (values c packetsize (view s) t) b q
  pub keeps :
      (c : Block Pointer) (s : S) (b x : ℕ)
      → ArePlaced blocks packetsize c
      → ((b' q : ℕ) → b' < blocks → q < w → Outside packetsize (packet c packetsize b' q) b x)
      → view (body c s) b x ≡ view s b x

module _ {ℓ} {S : Type ℓ} (view : S → Memory) (body : Block Pointer → S → S) (rows : List Row)
    (blocks n w packetsize len : ℕ) (pass : IsPass view body rows blocks w packetsize)
    (moved : n ≤ blocks) (fits : len + packetsize * w ≤ 2 ^ 31) where
  abbrev size : ℕ
  size = packetsize * w

  abbrev run : ℕ → ℕ → Block Pointer → S → S
  run = encode_from body n size len

  -- Packet q of block b lies within the first stripe.
  packet_end : (q : ℕ) → q < w → q * packetsize + packetsize ≤ size
  packet_end q h = omega (
    arith,
    mul-le-mul_right {m = suc q} {n = w} packetsize h,
    suc-mul q packetsize,
    mul_comm packetsize w,
  )

  -- A pass leaves what comes before the stripe.
  pass_before :
      (c : Block Pointer) (s : S) (b x : ℕ)
      → ArePlaced blocks packetsize c
      → b < n
      → (x < (c b).offset) ⊎ ((c b).offset + size ≤ x)
      → view (body c s) (c b).buffer x ≡ view s (c b).buffer x
  pass_before c s b x placed hb away = pass.keeps c s (c b).buffer x placed (λ b' q hb' hq.
      elim (ℕ_discrete b' b) [
        | no ne ↦ inl (placed.separate b' b hb' (omega arith) ne)
        | yes e ↦ rw e (
            inr (elim away [
              | inl lt ↦ inl (omega arith)
              | inr le ↦ inr (omega (arith, packet_end q hq, le))
            ]))
      ])

  run_before :
      (fuel i : ℕ) (c : Block Pointer) (s : S) (b x : ℕ)
      → i < 2 ^ 31
      → ArePlaced blocks packetsize c
      → b < n
      → x < (c b).offset
      → view (run fuel i c s) (c b).buffer x ≡ view s (c b).buffer x
  run_before zero i c s b x small placed hb hx =
      ap (λ (s' : S). view s' (c b).buffer x) (encode_from_zero body n size len fits i c s)
  run_before (suc fuel) i c s b x small placed hb hx = elim (dec_lt i len) [
    | no ge ↦
        ap (λ (s' : S). view s' (c b).buffer x)
          (encode_from_stop body n size len fits (suc fuel) i c s small ge)
    | yes lt ↦
        ap (λ (s' : S). view s' (c b).buffer x)
          (encode_from_step body n size len fits fuel i c s lt)
        ∙ subst
            (λ (k : ℕ).
              view (run fuel (i + size) (move_pointers n size c) (body c s)) k x
              ≡ view (body c s) k x)
            (move_pointers-buffer n size c b)
            (run_before fuel (i + size) (move_pointers n size c) (body c s) b x
              (omega (arith, fits, lt)) (move_pointers-ArePlaced blocks n w packetsize c placed) hb
              (omega (arith, move_pointers-offset n size c b hb, hx)))
        ∙ pass_before c s b x placed hb (inl hx)
  ]

  -- The stripes after a pass leave what it wrote.
  run_moved :
      (fuel i : ℕ) (c : Block Pointer) (s : S) (b x : ℕ)
      → i < 2 ^ 31
      → ArePlaced blocks packetsize c
      → b < n
      → x < (c b).offset + size
      → view (run fuel i (move_pointers n size c) s) (c b).buffer x ≡ view s (c b).buffer x
  run_moved fuel i c s b x small placed hb hx =
      subst (λ (k : ℕ). view (run fuel i (move_pointers n size c) s) k x ≡ view s k x)
        (move_pointers-buffer n size c b)
        (run_before fuel i (move_pointers n size c) s b x small
          (move_pointers-ArePlaced blocks n w packetsize c placed) hb
          (omega (arith, move_pointers-offset n size c b hb, hx)))

  stripe_first :
      (c : Block Pointer) (m : Memory) (b q t : ℕ)
      → byte m (stripe w packetsize c 0 b q) t ≡ byte m (packet c packetsize b q) t
  stripe_first c m b q t = ap (m (c b).buffer) (omega (arith, zero-mul size))

  stripe_next :
      (c : Block Pointer) (m : Memory) (r b q t : ℕ)
      → b < n
      → byte m (stripe w packetsize (move_pointers n size c) r b q) t
        ≡ byte m (stripe w packetsize c (suc r) b q) t
  stripe_next c m r b q t hb =
      ap₂ (λ (k : ℕ) (x : ℕ). m k x) (move_pointers-buffer n size c b)
        (omega (arith, move_pointers-offset n size c b hb, suc-mul r size))

  module _
      (determined : (v v' : Values)
        → Agree n v v'
        → Agree n (apply_rows rows v) (apply_rows rows v')) where
    pub run-stripe :
        (fuel i r : ℕ) (c : Block Pointer) (s : S)
        → ArePlaced blocks packetsize c
        → 1 ≤ size
        → len ≤ i + fuel
        → i + r * size < len
        → (b q t : ℕ) → b < n
        → q < w
        → t < packetsize
        → byte (view (run fuel i c s)) (stripe w packetsize c r b q) t
          ≡ apply_rows rows (stripe_values w packetsize c r (view s) t) b q
    run-stripe zero i r c s placed pos enough here b q t hb hq ht = absurd (omega arith)
    run-stripe (suc fuel) i zero c s placed pos enough here b q t hb hq ht =
        stripe_first c (view (run (suc fuel) i c s)) b q t
        ∙ ap (λ (s' : S). byte (view s') (packet c packetsize b q) t)
            (encode_from_step body n size len fits fuel i c s (omega arith))
        ∙ run_moved fuel (i + size) c (body c s) b _ (omega (arith, fits)) placed hb
            (omega (arith, packet_end q hq))
        ∙ pass.computes c s placed b q t (omega arith) ht
        ∙ determined _ _ (λ b' q' hb'. sym (stripe_first c (view s) b' q' t)) b q hb
    run-stripe (suc fuel) i (suc r) c s placed pos enough here b q t hb hq ht =
        let c' = move_pointers n size c in
        ap (λ (s' : S). byte (view s') (stripe w packetsize c (suc r) b q) t)
          (encode_from_step body n size len fits fuel i c s (omega arith))
        ∙ sym (stripe_next c (view (run fuel (i + size) c' (body c s))) r b q t hb)
        ∙ run-stripe fuel (i + size) r c' (body c s)
            (move_pointers-ArePlaced blocks n w packetsize c placed) pos (omega arith)
            (omega (arith, suc-mul r size)) b q t hb hq ht
        ∙ determined _ _
            (λ b' q' hb'.
              stripe_next c (view (body c s)) r b' q' t hb'
              ∙ pass_before c s b' _ placed hb' (inr (omega (arith, suc-mul r size))))
            b q hb

  Outside-packet :
      (rounds : ℕ) (c : Block Pointer) (b' q b x : ℕ)
      → q < w
      → Outside (suc rounds * size) (c b') b x
      → Outside packetsize (packet c packetsize b' q) b x
  Outside-packet rounds c b' q b x hq (inl ne) = inl ne
  Outside-packet rounds c b' q b x hq (inr (inl lt)) = inr (inl (omega arith))
  Outside-packet rounds c b' q b x hq (inr (inr le)) =
      inr (inr (omega (arith, le, packet_end q hq, suc-mul rounds size)))

  Outside-move_pointers :
      (rounds : ℕ) (c : Block Pointer) (b' b x : ℕ)
      → b' < n
      → Outside (suc rounds * size) (c b') b x
      → Outside (rounds * size) (move_pointers n size c b') b x
  Outside-move_pointers rounds c b' b x hb (inl ne) = inl (rw (move_pointers-buffer n size c b') ne)
  Outside-move_pointers rounds c b' b x hb (inr (inl lt)) =
      inr (inl (omega (arith, move_pointers-offset n size c b' hb)))
  Outside-move_pointers rounds c b' b x hb (inr (inr le)) =
      inr (inr (omega (arith, move_pointers-offset n size c b' hb, suc-mul rounds size)))

  -- Nothing else is written: not the bytes before the first stripe and after the last one, not those
  -- of other buffers.
  pub run-Outside :
      (fuel i rounds : ℕ) (c : Block Pointer) (s : S) (b x : ℕ)
      → i < 2 ^ 31
      → ArePlaced blocks packetsize c
      → len ≤ i + rounds * size
      → ((b' : ℕ) → b' < n → Outside (rounds * size) (c b') b x)
      → ((b' : ℕ) → n ≤ b' → b' < blocks → (c b').buffer ≢ b)
      → view (run fuel i c s) b x ≡ view s b x
  run-Outside zero i rounds c s b x small placed enough away other =
      ap (λ (s' : S). view s' b x) (encode_from_zero body n size len fits i c s)
  run-Outside (suc fuel) i zero c s b x small placed enough away other =
      ap (λ (s' : S). view s' b x)
        (encode_from_stop body n size len fits (suc fuel) i c s small
          (λ lt. absurd (omega (arith, enough, lt, zero-mul size))))
  run-Outside (suc fuel) i (suc rounds) c s b x small placed enough away other =
      elim (dec_lt i len) [
        | no ge ↦
            ap (λ (s' : S). view s' b x)
              (encode_from_stop body n size len fits (suc fuel) i c s small ge)
        | yes lt ↦
            ap (λ (s' : S). view s' b x) (encode_from_step body n size len fits fuel i c s lt)
            ∙ run-Outside fuel (i + size) rounds (move_pointers n size c) (body c s) b x
                (omega (arith, fits, lt)) (move_pointers-ArePlaced blocks n w packetsize c placed)
                (omega (arith, suc-mul rounds size))
                (λ b' hb. Outside-move_pointers rounds c b' b x hb (away b' hb))
                (λ b' lo hi. rw (move_pointers-buffer n size c b') (other b' lo hi))
            ∙ pass.keeps c s b x placed (λ b' q hb hq. elim (dec_lt b' n) [
              | yes lt' ↦ Outside-packet rounds c b' q b x hq (away b' lt')
              | no ge' ↦ inl (other b' (omega (arith, ge')) hb)
            ])
      ]
