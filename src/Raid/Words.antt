-- ===== src/Raid/Words.antt =====
-- `pq_gen_base` of raid/raid_base.c, which works on words of 64 bits, and `pq_check_base` on the
-- bytes of those words.
use cerasure.Base.{
  ℕ, zero, suc, ◌-◌, ◌*◌, ◌/◌, ◌%◌, ◌<◌, ◌≤◌, ◌≡◌, ◌≢◌, refl, sym, ap, ◌∙◌, ◌⊎◌, inl, inr, arith,
  Block, set, for_range_inv, ℕ_discrete,
}
use cerasure.Bits.{◌⊕◌}
use cerasure.Encode.Grid.{write_self, write_ne}
use cerasure.Gf.Double.{double}
use cerasure.Raid.{Syndromes, pq_down, pq_at, double_word, pq_gen_word, pq_gen_base, pq_check_base}
use cerasure.Raid.Lanes.{lane, lane-xor, lane-double_word}
use cerasure.Raid.Pq.{RightAt, pq_check_from-all}

-- The bytes of words that stand in memory with the low byte first.
abbrev pub bytes_of : Block (Block ℕ) → Block (Block ℕ)
bytes_of words j i = lane (i % 8) (words j (i / 8))

-- One byte of P and one of Q come from that byte of each vector.
pq_down-lane :
    (k : ℕ) (src : ℕ → ℕ) (n p q p' q' : ℕ)
    → k < 8
    → lane k p ≡ p'
    → lane k q ≡ q'
    → let s = pq_down double_word src n (record { p = p; q = q }) in
      let t = pq_down double (λ j. lane k (src j)) n (record { p = p'; q = q' }) in
      (lane k s.p ≡ t.p) × (lane k s.q ≡ t.q)
unfolding pq_down
pq_down-lane k src zero p q p' q' hk ep eq = (ep, eq)
pq_down-lane k src (suc n) p q p' q' hk ep eq =
    pq_down-lane k src n (p ⊕ src n) (src n ⊕ double_word q) _ _ hk
      (lane-xor k p (src n) ∙ ap (λ (t : ℕ). t ⊕ lane k (src n)) ep)
      (lane-xor k (src n) (double_word q)
        ∙ ap (λ (t : ℕ). lane k (src n) ⊕ t) (lane-double_word k q hk ∙ ap double eq))

pq_at-lane :
    (vects : ℕ) (words : Block (Block ℕ)) (i : ℕ)
    → let s = pq_at double_word vects words (i / 8) in
      let t = pq_at double vects (bytes_of words) i in
      (lane (i % 8) s.p ≡ t.p) × (lane (i % 8) s.q ≡ t.q)
unfolding pq_at
pq_at-lane vects words i =
    pq_down-lane (i % 8) (λ j. words j (i / 8)) (vects - 3) _ _ _ _ (omega arith) refl refl

-- Only the vectors of data are read.
pq_down_congr :
    (times_two src src' : ℕ → ℕ) (n : ℕ) (s : Syndromes)
    → ((j : ℕ) → j < n → src j ≡ src' j)
    → pq_down times_two src n s ≡ pq_down times_two src' n s
unfolding pq_down
pq_down_congr times_two src src' zero s e = refl
pq_down_congr times_two src src' (suc n) s e =
    rw (e n (omega arith)) (pq_down_congr times_two src src' n _ (λ j h. e j (omega arith)))

module _ (n : ℕ) (array : Block (Block ℕ)) where
  abbrev vects : ℕ
  vects = suc (suc (suc n))

  abbrev parities : Block (Block ℕ) → ℕ → Syndromes
  parities now i = pq_at double_word vects now i

  pq_at_congr :
      (now : Block (Block ℕ)) (i : ℕ)
      → ((j : ℕ) → j ≤ n → now j i ≡ array j i)
      → parities now i ≡ parities array i
  unfolding pq_at
  pq_at_congr now i e =
      let last : vects - 3 ≡ n = omega arith in
      rw (last, e n (omega arith))
        (pq_down_congr double_word (λ j. now j i) (λ j. array j i) n _ (λ j h. e j (omega arith)))

  record Written (k : ℕ) (now : Block (Block ℕ)) : Type 0 where
    p_word : (i : ℕ) → i < k → now (suc n) i ≡ (parities array i).p
    q_word : (i : ℕ) → i < k → now (suc (suc n)) i ≡ (parities array i).q
    rest : (j i : ℕ) → ((j ≢ suc n) × (j ≢ suc (suc n))) ⊎ (k ≤ i) → now j i ≡ array j i

  Written-pq_gen_word :
      (k : ℕ) (now : Block (Block ℕ)) → Written k now → Written (suc k) (pq_gen_word vects k now)
  unfolding pq_gen_word
  Written-pq_gen_word k now w =
      let same = pq_at_congr now k (λ j h. w.rest j k (inr (omega arith))) in
      let s = parities now k in
      let p_last : vects - 2 ≡ suc n = omega arith in
      let q_last : vects - 1 ≡ suc (suc n) = omega arith in
      let mid = set now (suc n) (set (now (suc n)) k s.p) in
      let put_q = λ (l i old : ℕ). s.q in
      let put_p = λ (l i old : ℕ). s.p in
      rw (p_last, q_last)
        (record {
          p_word = λ i hi.
              write_ne put_q (suc (suc n)) k (suc n) i mid (inl (omega arith))
              ∙ elim (ℕ_discrete i k) [
                | yes e ↦ rw e (write_self put_p (suc n) k now ∙ ap (λ (t : Syndromes). t.p) same)
                | no ne ↦
                    write_ne put_p (suc n) k (suc n) i now (inr (omega (arith, ne)))
                    ∙ w.p_word i (omega (arith, ne))
              ];
          q_word = λ i hi. elim (ℕ_discrete i k) [
            | yes e ↦ rw e (write_self put_q (suc (suc n)) k mid ∙ ap (λ (t : Syndromes). t.q) same)
            | no ne ↦
                write_ne put_q (suc (suc n)) k (suc (suc n)) i mid (inr (omega (arith, ne)))
                ∙ write_ne put_p (suc n) k (suc (suc n)) i now (inl (omega arith))
                ∙ w.q_word i (omega (arith, ne))
          ];
          rest = λ j i away.
              write_ne put_q (suc (suc n)) k j i mid
                (elim away [ inl ne ↦ inl (omega (arith, ne.1)) | inr le ↦ inr (omega arith) ])
              ∙ write_ne put_p (suc n) k j i now
                  (elim away [ inl ne ↦ inl (omega (arith, ne.0)) | inr le ↦ inr (omega arith) ])
              ∙ w.rest j i (elim away [ inl ne ↦ inl ne | inr le ↦ inr (omega arith) ]);
        })

  Written-pq_gen_base : (len : ℕ) → Written (len / 8) (pq_gen_base vects len array)
  unfolding pq_gen_base
  Written-pq_gen_base len =
      for_range_inv Written (pq_gen_word vects) 0 (len / 8)
        (λ k now lo hi w. Written-pq_gen_word k now w) (len / 8) 0 array (omega arith) (omega arith)
        (record {
          p_word = λ i h. absurd (omega arith);
          q_word = λ i h. absurd (omega arith);
          rest = λ j i away. refl;
        })

  RightAt-pq_gen_base :
      (len i : ℕ) → i < len / 8 * 8 → RightAt vects (bytes_of (pq_gen_base vects len array)) i
  RightAt-pq_gen_base len i hi =
      let after = pq_gen_base vects len array in
      let w = Written-pq_gen_base len in
      let bytes = pq_at-lane vects after i in
      let same =
        pq_at_congr after (i / 8) (λ j h. w.rest j (i / 8) (inl (omega arith, omega arith))) in
      let p_last : vects - 2 ≡ suc n = omega arith in
      let q_last : vects - 1 ≡ suc (suc n) = omega arith in
      record {
        p_right = rw p_last (
            ap (lane (i % 8))
              (w.p_word (i / 8) (omega arith) ∙ sym (ap (λ (t : Syndromes). t.p) same))
            ∙ bytes.0);
        q_right = rw q_last (
            ap (lane (i % 8))
              (w.q_word (i / 8) (omega arith) ∙ sym (ap (λ (t : Syndromes). t.q) same))
            ∙ bytes.1);
      }

-- With at least 3 vectors of words of 64 bits, the bytes of what `pq_gen_base` leaves after len
-- bytes are accepted by `pq_check_base` for as many of the len bytes as fill whole words, and
-- `pq_gen_base` writes nothing but those words of the last two vectors.
pub pq_check_base-pq_gen_base :
    (vects len : ℕ) (array : Block (Block ℕ))
    → 3 ≤ vects
    → (pq_check_base vects (len / 8 * 8) (bytes_of (pq_gen_base vects len array)) ≡ 0)
      × ((j i : ℕ)
          → ((suc (suc j) ≢ vects) × (suc j ≢ vects)) ⊎ (len / 8 ≤ i)
          → pq_gen_base vects len array j i ≡ array j i)
pq_check_base-pq_gen_base zero len array h = absurd (omega arith)
pq_check_base-pq_gen_base (suc zero) len array h = absurd (omega arith)
pq_check_base-pq_gen_base (suc (suc zero)) len array h = absurd (omega arith)
pq_check_base-pq_gen_base (suc (suc (suc n))) len array h = (
  unfold pq_check_base in
      pq_check_from-all _ _ (len / 8 * 8) 0
        (λ i lo hi. RightAt-pq_gen_base n array len i (omega arith)),
  λ j i away. (Written-pq_gen_base n array len).rest j i (elim away [
    | inl ne ↦ inl ((λ e. ne.0 (omega arith)), (λ e. ne.1 (omega arith)))
    | inr le ↦ inr le
  ]),
)
