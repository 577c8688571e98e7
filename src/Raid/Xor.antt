-- ===== src/Raid/Xor.antt =====
-- `xor_gen_base` and `xor_check_base` of raid/raid_base.c, and the sum of the bytes at a position.
use cerasure.Base.{
  ℕ, zero, suc, ◌+◌, ◌-◌, ◌<◌, ◌≤◌, ◌≡◌, ◌≢◌, refl, sym, ap₂, ◌∙◌, ◌⊎◌, inl, inr, arith, Block,
  for_range, for_range_inv, ℕ_discrete,
}
use cerasure.Bits.{◌⊕◌, zero-xor, xor_self}
use cerasure.Field.Sum.{sum, sum_congr}
use cerasure.Encode.Code.{accumulate-sum}
use cerasure.Encode.Grid.{write_self, write_ne}
use cerasure.Raid.{parity_gen, xor_gen_byte, xor_gen_base, parity_check, fail_from, xor_check_base}

parity_check-sum :
    (vects : ℕ) (src : Block (Block ℕ)) (i : ℕ)
    → parity_check vects src i ≡ sum vects (λ j. src j i)
unfolding parity_check
parity_check-sum vects src i = accumulate-sum vects (λ j. src j i) 0 ∙ zero-xor _

parity_gen-sum :
    (n : ℕ) (src : Block (Block ℕ)) (i : ℕ)
    → parity_gen (suc (suc n)) src i ≡ sum (suc n) (λ j. src j i)
unfolding parity_gen for_range
parity_gen-sum n src i =
    ap₂ (λ (m s : ℕ). for_range m 1 (λ j parity. parity ⊕ src j i) s) {x = suc (suc n) - 2} {y = n}
      (omega arith) (sym (zero-xor (src 0 i)))
    ∙ accumulate-sum (suc n) (λ j. src j i) 0
    ∙ zero-xor _

fail_from-suc :
    (vects : ℕ) (src : Block (Block ℕ)) (left i : ℕ)
    → fail_from vects src (suc left) i ≡ 0
    → (parity_check vects src i ≡ 0) × (fail_from vects src left (suc i) ≡ 0)
unfolding fail_from
fail_from-suc vects src left i e = elim (ℕ_discrete (parity_check vects src i) 0) [
  | yes z ↦ (z, ground arith)
  | no nz ↦ absurd (ground arith)
]

fail_from-zero :
    (vects : ℕ) (src : Block (Block ℕ)) (left i : ℕ)
    → fail_from vects src left i ≡ 0
    → (k : ℕ) → i ≤ k
    → k < i + left
    → sum vects (λ j. src j k) ≡ 0
fail_from-zero vects src zero i e k lo hi = absurd (omega arith)
fail_from-zero vects src (suc left) i e k lo hi =
    let (z, rest) = fail_from-suc vects src left i e in
    elim (ℕ_discrete k i) [
      | yes same ↦ rw same (sym (parity_check-sum vects src i) ∙ z)
      | no other ↦ fail_from-zero vects src left (suc i) rest k (omega (arith, other)) (omega arith)
    ]

fail_from-all :
    (vects : ℕ) (src : Block (Block ℕ)) (left i : ℕ)
    → ((k : ℕ) → i ≤ k → k < i + left → sum vects (λ j. src j k) ≡ 0)
    → fail_from vects src left i ≡ 0
unfolding fail_from
fail_from-all vects src zero i h = refl
fail_from-all vects src (suc left) i h =
    rw (parity_check-sum vects src i, h i (omega arith) (omega arith))
      (fail_from-all vects src left (suc i) (λ k lo hi. h k (omega arith) (omega arith)))

-- The bytes at each of the first len positions add up to 0.
abbrev pub AllZero : ℕ → ℕ → Block (Block ℕ) → Type 0
AllZero vects len array = (i : ℕ) → i < len → sum vects (λ j. array j i) ≡ 0

fail_from-xor_check_base :
    (vects len : ℕ) (array : Block (Block ℕ))
    → xor_check_base vects len array ≡ 0
    → fail_from vects array len 0 ≡ 0
unfolding xor_check_base fail_from
fail_from-xor_check_base vects zero array e = refl
fail_from-xor_check_base vects (suc len) array e = ground arith

zero_or_len :
    (vects len : ℕ) (array : Block (Block ℕ))
    → (xor_check_base vects len array ≡ 0) ⊎ (xor_check_base vects len array ≡ len)
unfolding xor_check_base fail_from
zero_or_len vects zero array = inl refl
zero_or_len vects (suc len) array = elim (ℕ_discrete (fail_from vects array (suc len) 0) 0) [
  | yes z ↦ inl (ground arith)
  | no nz ↦ inr (ground arith)
]

-- For len bytes of vects vectors, `xor_check_base` returns 0 if at every position all bytes add
-- up to 0, returns 0 only then, and otherwise returns len.
pub xor_check_base-sum :
    (vects len : ℕ) (array : Block (Block ℕ))
    → (AllZero vects len array → xor_check_base vects len array ≡ 0)
      × (xor_check_base vects len array ≡ 0 → AllZero vects len array)
      × ((xor_check_base vects len array ≡ 0) ⊎ (xor_check_base vects len array ≡ len))
unfolding xor_check_base
xor_check_base-sum vects len array = (
  λ h. let e = fail_from-all vects array len 0 (λ k lo hi. h k (omega arith)) in rw e refl,
  λ e i hi.
      fail_from-zero vects array len 0 (fail_from-xor_check_base vects len array e) i (omega arith)
        (omega arith),
  zero_or_len vects len array,
)

module _ (n : ℕ) (array : Block (Block ℕ)) where
  record Written (k : ℕ) (now : Block (Block ℕ)) : Type 0 where
    parity : (i : ℕ) → i < k → now (suc n) i ≡ sum (suc n) (λ j. array j i)
    rest : (j i : ℕ) → (j ≢ suc n) ⊎ (k ≤ i) → now j i ≡ array j i

  Written-xor_gen_byte :
      (k : ℕ) (now : Block (Block ℕ))
      → Written k now
      → Written (suc k) (xor_gen_byte (suc (suc n)) k now)
  unfolding xor_gen_byte
  Written-xor_gen_byte k now w =
      let v = parity_gen (suc (suc n)) now k in
      let last : suc (suc n) - 1 ≡ suc n = omega arith in
      rw last (record {
        parity = λ i hi. elim (ℕ_discrete i k) [
          | yes e ↦ rw e (
              write_self (λ l i old. v) (suc n) k now
              ∙ parity_gen-sum n now k
              ∙ sum_congr (suc n) _ _ (λ j hj. w.rest j k (inl (omega arith))))
          | no ne ↦
              write_ne (λ l i old. v) (suc n) k (suc n) i now (inr (omega (arith, ne)))
              ∙ w.parity i (omega (arith, ne))
        ];
        rest = λ j i away. elim away [
          | inl ne ↦
              write_ne (λ l i old. v) (suc n) k j i now (inl (omega (arith, ne)))
              ∙ w.rest j i (inl ne)
          | inr le ↦
              write_ne (λ l i old. v) (suc n) k j i now (inr (omega arith))
              ∙ w.rest j i (inr (omega arith))
        ];
      })

  Written-xor_gen_base : (len : ℕ) → Written len (xor_gen_base (suc (suc n)) len array)
  unfolding xor_gen_base
  Written-xor_gen_base len =
      for_range_inv Written (xor_gen_byte (suc (suc n))) 0 len
        (λ k now lo hi w. Written-xor_gen_byte k now w) len 0 array (omega arith) (omega arith)
        (record { parity = λ i h. absurd (omega arith); rest = λ j i away. refl })

-- With at least 2 vectors, `xor_gen_base` leaves vectors that `xor_check_base` accepts, and writes
-- nothing but len bytes of the last one.
pub xor_check_base-xor_gen_base :
    (vects len : ℕ) (array : Block (Block ℕ))
    → 2 ≤ vects
    → (xor_check_base vects len (xor_gen_base vects len array) ≡ 0)
      × ((j i : ℕ) → (suc j ≢ vects) ⊎ (len ≤ i) → xor_gen_base vects len array j i ≡ array j i)
unfolding sum
xor_check_base-xor_gen_base zero len array h = absurd (omega arith)
xor_check_base-xor_gen_base (suc zero) len array h = absurd (omega arith)
xor_check_base-xor_gen_base (suc (suc n)) len array h = (
  (xor_check_base-sum (suc (suc n)) len (xor_gen_base (suc (suc n)) len array)).0 (λ i hi.
      ap₂ ◌⊕◌ (sum_congr (suc n) _ _ (λ j hj. written.rest j i (inl (omega arith))))
        (written.parity i hi)
      ∙ xor_self _),
  λ j i away. written.rest j i (elim away [ inl ne ↦ inl (omega (arith, ne)) | inr le ↦ inr le ]),
)
  where
    written : Written n array len (xor_gen_base (suc (suc n)) len array)
    written = Written-xor_gen_base n array len
