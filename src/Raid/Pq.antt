-- ===== src/Raid/Pq.antt =====
-- `pq_check_base` of raid/raid_base.c, and the two sums that it compares with the last two vectors.
use cerasure.Base.{
  ℕ, zero, suc, ◌+◌, ◌-◌, ◌/◌, ◌<◌, ◌≤◌, ◌≡◌, ◌≢◌, ◌↔◌, refl, sym, ap, ◌∙◌, arith, Block, bit_or,
  ℕ_discrete, ◌==◌, if◌then◌else◌, ==_iff,
}
use cerasure.Bits.{◌⊕◌, xor_assoc, xor_comm, zero-xor, xor-zero, xor-lt, bit_or_step}
use cerasure.Field.Sum.{sum}
use cerasure.Gf.Double.{double, double-lt, doubles, doubles-xor}
use cerasure.Raid.{Syndromes, pq_down, pq_at, pq_check_from, pq_check_base}

double_last : (j x : ℕ) → doubles j (double x) ≡ doubles (suc j) x
unfolding doubles
double_last zero x = refl
double_last (suc j) x = ap double (double_last j x)

module _ (src : ℕ → ℕ) where
  pq_down-p : (j : ℕ) (s : Syndromes) → (pq_down double src j s).p ≡ s.p ⊕ sum j src
  unfolding pq_down sum
  pq_down-p zero s = sym (xor-zero s.p)
  pq_down-p (suc j) s =
      pq_down-p j _
      ∙ xor_assoc s.p (src j) (sum j src)
      ∙ ap (λ (t : ℕ). s.p ⊕ t) (xor_comm (src j) (sum j src))

  pq_down-q :
      (j : ℕ) (s : Syndromes)
      → ((i : ℕ) → i < j → src i < 256)
      → s.q < 256
      → (pq_down double src j s).q ≡ sum j (λ i. doubles i (src i)) ⊕ doubles j s.q
  unfolding pq_down sum
  pq_down-q zero s hb hq = unfold doubles in sym (zero-xor s.q)
  pq_down-q (suc j) s hb hq =
      pq_down-q j _ (λ i h. hb i (omega arith))
        (xor-lt 8 (src j) (double s.q) (hb j (omega arith)) (double-lt s.q))
      ∙ ap (λ (t : ℕ). sum j (λ i. doubles i (src i)) ⊕ t)
          (doubles-xor j (src j) (double s.q) (hb j (omega arith)) (double-lt s.q)
            ∙ ap (λ (t : ℕ). doubles j (src j) ⊕ t) (double_last j s.q))
      ∙ sym (xor_assoc (sum j (λ i. doubles i (src i))) (doubles j (src j)) _)

-- The two syndromes of the data at position i.
abbrev pub sum_p : ℕ → Block (Block ℕ) → ℕ → ℕ
sum_p vects src i = sum (vects - 2) (λ j. src j i)

abbrev pub sum_q : ℕ → Block (Block ℕ) → ℕ → ℕ
sum_q vects src i = sum (vects - 2) (λ j. doubles j (src j i))

three : (vects : ℕ) → 3 ≤ vects → vects - 2 ≡ suc (vects - 3)
three vects h = omega arith

pq_at-p :
    (vects : ℕ) (src : Block (Block ℕ)) (i : ℕ)
    → 3 ≤ vects
    → (pq_at double vects src i).p ≡ sum_p vects src i
unfolding pq_at sum
pq_at-p vects src i h =
    let last = vects - 3 in
    rw (three vects h) (
      pq_down-p (λ j. src j i) last (record { p = src last i; q = src last i })
      ∙ xor_comm (src last i) _)

pq_at-q :
    (vects : ℕ) (src : Block (Block ℕ)) (i : ℕ)
    → 3 ≤ vects
    → ((j : ℕ) → j < vects - 2 → src j i < 256)
    → (pq_at double vects src i).q ≡ sum_q vects src i
unfolding pq_at sum
pq_at-q vects src i h hb =
    let last = vects - 3 in
    rw (three vects h) (
      pq_down-q (λ j. src j i) last (record { p = src last i; q = src last i })
        (λ j hj. hb j (omega arith)) (hb last (omega arith)))

-- Two tests that pass, or a value other than 0.
both_pass :
    (a b c d rest x y : ℕ)
    → x ≢ 0
    → y ≢ 0
    → (if a == b then (if c == d then rest else x) else y) ≡ 0
    → (a ≡ b) × (c ≡ d) × (rest ≡ 0)
both_pass a b c d rest x y nx ny e = elim (ℕ_discrete a b) [
  | yes ab ↦ elim (ℕ_discrete c d) [
    | yes cd ↦ (ab, cd, ground arith)
    | no ncd ↦ absurd (ground arith)
  ]
  | no nab ↦ absurd (ground arith)
]

module _ (vects : ℕ) (src : Block (Block ℕ)) where
  -- P and Q of position i are right.
  pub record RightAt (i : ℕ) : Type 0 where
    pub p_right : src (vects - 2) i ≡ (pq_at double vects src i).p
    pub q_right : src (vects - 1) i ≡ (pq_at double vects src i).q

  first_return : (i : ℕ) → bit_or i 1 ≢ 0
  first_return i e = absurd (omega (arith, bit_or_step i 1))

  second_return : (i : ℕ) → bit_or i 2 ≢ 0
  second_return i e = absurd (omega (arith, bit_or_step i 2, bit_or_step (i / 2) 1))

  pq_check_from-suc :
      (left i : ℕ)
      → pq_check_from vects src (suc left) i ≡ 0
      → RightAt i × (pq_check_from vects src left (suc i) ≡ 0)
  unfolding pq_check_from
  pq_check_from-suc left i e =
      let (p, q, rest) = both_pass _ _ _ _ _ _ _ (second_return i) (first_return i) e in
      (record { p_right = p; q_right = q }, rest)

  pq_check_from-zero :
      (left i : ℕ) → pq_check_from vects src left i ≡ 0 → (k : ℕ) → i ≤ k → k < i + left → RightAt k
  pq_check_from-zero zero i e k lo hi = absurd (omega arith)
  pq_check_from-zero (suc left) i e k lo hi =
      let (right, rest) = pq_check_from-suc left i e in
      elim (ℕ_discrete k i) [
        | yes same ↦ rw same right
        | no other ↦ pq_check_from-zero left (suc i) rest k (omega (arith, other)) (omega arith)
      ]

  pub pq_check_from-all :
      (left i : ℕ)
      → ((k : ℕ) → i ≤ k → k < i + left → RightAt k)
      → pq_check_from vects src left i ≡ 0
  unfolding pq_check_from
  pq_check_from-all zero i h = refl
  pq_check_from-all (suc left) i h =
      let now = h i (omega arith) (omega arith) in
      let later = pq_check_from-all left (suc i) (λ k lo hi. h k (omega arith) (omega arith)) in
      rw
        (
          (==_iff (src (vects - 2) i) (pq_at double vects src i).p).1 now.p_right,
          (==_iff (src (vects - 1) i) (pq_at double vects src i).q).1 now.q_right,
        )
        later

-- With at least 3 vectors whose data are bytes, `pq_check_base` returns 0 exactly when at each of
-- the first len positions the last vector but one holds the sum of the data, and the last one the
-- sum of the data, vector j doubled j times in GF(2^8).
pub pq_check_base-sum :
    (vects len : ℕ) (array : Block (Block ℕ))
    → 3 ≤ vects
    → ((j i : ℕ) → j < vects - 2 → i < len → array j i < 256)
    → (pq_check_base vects len array ≡ 0) ↔ (
        (i : ℕ)
        → i < len
        → (array (vects - 2) i ≡ sum_p vects array i) × (array (vects - 1) i ≡ sum_q vects array i))
unfolding pq_check_base
pq_check_base-sum vects len array h hb = (
  λ e i hi.
      let right = pq_check_from-zero vects array len 0 e i (omega arith) (omega arith) in
      (
        right.p_right ∙ pq_at-p vects array i h,
        right.q_right ∙ pq_at-q vects array i h (λ j hj. hb j i hj hi),
      ),
  λ all. pq_check_from-all vects array len 0 (λ i lo hi.
      let now = all i (omega arith) in
      record {
        p_right = now.0 ∙ sym (pq_at-p vects array i h);
        q_right = now.1 ∙ sym (pq_at-q vects array i h (λ j hj. hb j i hj (omega arith)));
      }),
)
