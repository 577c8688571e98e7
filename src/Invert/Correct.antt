-- ===== src/Invert/Correct.antt =====
-- The loop over the columns of `gf_invert_matrix`, and its two returns.
use cerasure.Base.{
  ℕ, zero, suc, ◌+◌, ◌*◌, ◌<◌, ◌^◌, ◌≡◌, refl, sym, ap, subst, ◌∙◌, arith, Block, ℕ_discrete, ==_ne,
  ==_refl, ==_iff, Option, none, some,
}
use cerasure.Field.{Field}
use cerasure.Field.Sum.{sum_congr, sum_single, sum-zero, mul-zero, sum_assoc}
use cerasure.Field.Dot.{AllElem, dot, dot_congr}
use cerasure.Invert.{
  Mats, Status, ok, singular, set_identity, choose_pivot, scale_row, clear_column, invert_from,
  invert_matrix,
}
use cerasure.Invert.Rows.{delta, set_identity-delta}
use cerasure.Invert.Invariant.{row, column, IsMatrix}
use cerasure.Invert.Pivot.{Units, Chosen, choose_pivot-Chosen}
use cerasure.Invert.Singular.{IsSingular, IsSingular-witness}
use cerasure.Invert.Clear.{clear_column-Units}

module _ (F : Field) (n : ℕ) where
  open F use {bits, mul, inv, mul_comm, mul-lt, one-mul, zero-mul, one-lt}

  pos : 0 < 2 ^ bits
  pos = omega (arith, one-lt)

  pub delta-lt : (r c : ℕ) → delta r c < 2 ^ bits
  delta-lt r c = elim (ℕ_discrete r c) [
    | yes e ↦ rw ((==_iff r c).1 e) one-lt
    | no ne ↦ rw (==_ne r c ne) pos
  ]

  -- A row of the identity picks one element.
  pub dot-delta : (r : ℕ) (v : ℕ → ℕ) → r < n → AllElem F n v → dot F n (λ k. delta r k) v ≡ v r
  dot-delta r v hr hv =
      sum_single n r _ hr (λ k hk ne. rw (==_ne r k (λ e. ne (sym e))) (zero-mul (v k) (hv k hk)))
      ∙ rw (==_refl r) (one-mul (v r) (hv r hr))

  module _ (given : Block ℕ) (elem : IsMatrix F n given) where
    Units-set_identity :
        (out : Block ℕ)
        → Units F n given 0 (record { in_mat = given; out_mat = set_identity n out })
    Units-set_identity out = record {
      invariant = record {
        in_elem = elem;
        out_elem = λ r c hr hc. rw (set_identity-delta n out r c hr hc) (delta-lt r c);
        product = λ r c hr hc.
            dot_congr F n _ (λ k. delta r k) _ (λ k hk. set_identity-delta n out r k hr hk)
            ∙ dot-delta r (column n given c) hr (λ k hk. elem k c hk hc);
        kernel = λ x hx z. z;
      };
      units = λ r c hr lt. absurd (omega arith);
    }

    -- Either all columns are done, or a vector other than 0 goes to 0.
    abbrev Outcome : Status → Mats → Type 0
    Outcome ok s = Units F n given n s
    Outcome singular s = IsSingular F n given elem

    round-Outcome :
        (left i : ℕ) (hi : i < n) (s : Mats) (chosen : Option Mats)
        → Units F n given i s
        → Chosen F n given i s chosen
        → ((s' : Mats)
            → Units F n given (suc i) s'
            → Outcome
                (invert_from mul inv n left (suc i) s').0
                (invert_from mul inv n left (suc i) s').1)
        → let result : Status × Mats = elim chosen [
          | none ↦ (singular, s)
          | some s' ↦
              invert_from mul inv n left
                (suc i)
                (clear_column mul inv n i (scale_row mul inv n i s'))
        ] in
          Outcome result.0 result.1
    round-Outcome left i hi s none u dead rest = IsSingular-witness F n given elem i hi s u dead
    round-Outcome left i hi s (some s') u (units, nz) rest =
        rest _ (clear_column-Units F n given elem i hi s' units nz)

    invert_from-Outcome :
        (left i : ℕ) (s : Mats)
        → i + left ≡ n
        → Units F n given i s
        → Outcome (invert_from mul inv n left i s).0 (invert_from mul inv n left i s).1
    unfolding invert_from
    invert_from-Outcome zero i s e u =
        let e' : i ≡ n = omega arith in subst (λ k. Units F n given k s) e' u
    invert_from-Outcome (suc left) i s e u =
        round-Outcome left i (omega arith) s (choose_pivot n i s) u
          (choose_pivot-Chosen F n given i s (omega arith) u)
          (λ s' u'. invert_from-Outcome left (suc i) s' (omega arith) u')

    invert_matrix-Outcome :
        (out : Block ℕ)
        → Outcome (invert_matrix mul inv given out n).0 (invert_matrix mul inv given out n).1
    unfolding invert_matrix
    invert_matrix-Outcome out =
        invert_from-Outcome n 0 (record { in_mat = given; out_mat = set_identity n out })
          (omega arith) (Units-set_identity out)

    Outcome-ok : (st : Status) (s : Mats) → Outcome st s → st ≡ ok → Units F n given n s
    Outcome-ok ok s h e = h
    Outcome-ok singular s h e = cc

    Outcome-singular :
        (st : Status) (s : Mats) → Outcome st s → st ≡ singular → IsSingular F n given elem
    Outcome-singular ok s h e = cc
    Outcome-singular singular s h e = h

    pub invert_matrix-ok :
        (out : Block ℕ)
        → (invert_matrix mul inv given out n).0 ≡ ok
        → Units F n given n (invert_matrix mul inv given out n).1
    invert_matrix-ok out = Outcome-ok _ _ (invert_matrix-Outcome out)

    pub invert_matrix-singular :
        (out : Block ℕ)
        → (invert_matrix mul inv given out n).0 ≡ singular
        → IsSingular F n given elem
    invert_matrix-singular out = Outcome-singular _ _ (invert_matrix-Outcome out)

    -- A matrix that has a left inverse sends no vector but 0 to 0.
    pub not-IsSingular :
        (b : Block ℕ)
        → IsMatrix F n b
        → ((r c : ℕ) → r < n → c < n → dot F n (row n b r) (column n given c) ≡ delta r c)
        → ¬ (IsSingular F n given elem)
    not-IsSingular b hb inverse v = v.not_zero (
        sym (dot-delta v.place v.vector v.place-lt v.vector_elem)
        ∙ sum_congr n _ _
            (λ c hc. ap (λ (t : ℕ). mul t (v.vector c)) (sym (inverse v.place c v.place-lt hc)))
        ∙ sum_assoc F n n (row n b v.place) (λ k c. given (k * n + c)) v.vector
            (λ k hk. hb v.place k v.place-lt hk) (λ k c hk hc. elem k c hk hc) v.vector_elem
        ∙ sum_congr n _ (λ k. 0)
            (λ k hk.
              ap (mul (b (v.place * n + k))) (v.sent_to_zero k hk)
              ∙ mul-zero F _ (hb v.place k v.place-lt hk))
        ∙ sum-zero n)

    pub invert_matrix_complete :
        (out b : Block ℕ)
        → IsMatrix F n b
        → ((r c : ℕ) → r < n → c < n → dot F n (row n b r) (column n given c) ≡ delta r c)
        → (invert_matrix mul inv given out n).0 ≡ ok
    invert_matrix_complete out b hb inverse =
        decide _ (λ e. not-IsSingular b hb inverse (invert_matrix-singular out e))
      where
        decide : (st : Status) → ¬ (st ≡ singular) → st ≡ ok
        decide ok h = refl
        decide singular h = absurd (h refl)
