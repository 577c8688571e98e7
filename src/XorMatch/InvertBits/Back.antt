-- ===== src/XorMatch/InvertBits/Back.antt =====
-- The second half of invert_bitmatrix (xorMatch/xorMatchCode.c): the columns below hi are cleared
-- above the diagonal, from the last one down.
use cerasure.Base.{
  ℕ, zero, suc, ◌+◌, ◌*◌, ◌<◌, ◌≤◌, ◌≡◌, refl, ◌∙◌, arith, Block, for_range, for_range_inv,
  ℕ_discrete, dec_lt,
}
use cerasure.Invert.{Mats}
use cerasure.Invert.Rows.{delta}
use cerasure.Invert.Invariant.{IsMatrix, Invariant}
use cerasure.Invert.Pivot.{Units}
use cerasure.XorMatch.InvertBits.{eliminate_row, clear_above, back_from}
use cerasure.XorMatch.InvertBits.Bit.{bit_field}
use cerasure.XorMatch.InvertBits.Steps.{eliminate_row-IsEliminated}
use cerasure.XorMatch.InvertBits.Upper.{IsUpper}

module _ (n : ℕ) (given : Block ℕ) (elem : IsMatrix bit_field n given) (hi : ℕ) (in_range : hi ≤ n)
    (start : Mats) where
  -- The columns from lo to hi are done, and the rows from hi on are as at the start.
  record Reduced (lo : ℕ) (s : Mats) : Type 0 where
    invariant : Invariant bit_field n given s
    lower : (r c : ℕ) → r < n → c < hi → c ≤ r → s.in_mat (r * n + c) ≡ delta r c
    upper : (r c : ℕ) → r < n → lo ≤ c → c < hi → s.in_mat (r * n + c) ≡ delta r c
    below : (r c : ℕ) → c < n → hi ≤ r → s.in_mat (r * n + c) ≡ start.in_mat (r * n + c)

  record Above (i j : ℕ) (s : Mats) : Type 0 where
    reduced : Reduced (suc i) s
    zeros : (r : ℕ) → r < j → s.in_mat (r * n + i) ≡ 0

  -- In columns other than i the pivot's row is 0, so that those columns stay.
  Above-eliminate_row :
      (i j : ℕ) (s : Mats) → j < i → i < hi → Above i j s → Above i (suc j) (eliminate_row n i j s)
  Above-eliminate_row i j s hj hi' w =
      let e =
        eliminate_row-IsEliminated n given elem i j s (omega arith) (omega arith) (omega arith)
          (w.reduced.lower i i (omega arith) hi' (omega arith) ∙ ground arith)
          w.reduced.invariant in
      record {
        reduced = record {
          invariant = e.invariant;
          lower = λ r c hr hc le. elim (ℕ_discrete r j) [
            | yes p ↦ rw p (
                e.same c (omega arith)
                  (w.reduced.lower i c (omega arith) hc (omega (arith, p)) ∙ ground (arith, p))
                ∙ w.reduced.lower j c (omega arith) hc (omega (arith, p)))
            | no p ↦ e.kept r c (omega arith) p ∙ w.reduced.lower r c hr hc le
          ];
          upper = λ r c hr lo hc. elim (ℕ_discrete r j) [
            | yes p ↦ rw p (
                e.same c (omega arith) (w.reduced.upper i c (omega arith) lo hc ∙ ground arith)
                ∙ w.reduced.upper j c (omega arith) lo hc)
            | no p ↦ e.kept r c (omega arith) p ∙ w.reduced.upper r c hr lo hc
          ];
          below = λ r c hc hr. e.kept r c hc (omega arith) ∙ w.reduced.below r c hc hr;
        };
        zeros = λ r hr. elim (ℕ_discrete r j) [
          | yes p ↦ rw p e.cleared
          | no p ↦ e.kept r i (omega arith) p ∙ w.zeros r (omega (arith, p))
        ];
      }

  clear_above-Reduced :
      (i : ℕ) (s : Mats) → i < hi → Reduced (suc i) s → Reduced i (clear_above n i s)
  unfolding clear_above
  clear_above-Reduced i s hi' w =
      let done : Above i i (for_range i 0 (eliminate_row n i) s) =
        for_range_inv (Above i) (eliminate_row n i) 0 i
          (λ j s lo hj v. Above-eliminate_row i j s hj hi' v) i 0 s (omega arith) (omega arith)
          (record { reduced = w; zeros = λ r hr. absurd (omega arith) }) in
      record {
        invariant = done.reduced.invariant;
        lower = done.reduced.lower;
        upper = λ r c hr lo hc. elim (ℕ_discrete c i) [
          | no p ↦ done.reduced.upper r c hr (omega (arith, p)) hc
          | yes p ↦ elim (dec_lt r i) [
            | yes lt ↦ rw p (done.zeros r lt ∙ ground arith)
            | no ge ↦ done.reduced.lower r c hr hc (omega (arith, ge, p))
          ]
        ];
        below = done.reduced.below;
      }

  back_from-Reduced : (i : ℕ) (s : Mats) → i ≤ hi → Reduced i s → Reduced 0 (back_from n i s)
  unfolding back_from
  back_from-Reduced zero s le w = w
  back_from-Reduced (suc i) s le w =
      back_from-Reduced i (clear_above n i s) (omega arith)
        (clear_above-Reduced i s (omega arith) w)

  back_from-start : IsUpper n given elem hi start → Reduced 0 (back_from n hi start)
  back_from-start u = back_from-Reduced hi start (omega arith) (record {
    invariant = u.invariant;
    lower = u.lower;
    upper = λ r c hr lo hc. absurd (omega arith);
    below = λ r c hc hr. refl;
  })

  -- The first hi columns are those of the identity.
  pub back_from-Units :
      IsUpper n given elem hi start → Units bit_field n given hi (back_from n hi start)
  back_from-Units u =
      let done = back_from-start u in
      record { invariant = done.invariant; units = λ r c hr hc. done.upper r c hr (omega arith) hc }

  pub back_from_below :
      IsUpper n given elem hi start
      → (r c : ℕ) → c < n
      → hi ≤ r
      → (back_from n hi start).in_mat (r * n + c) ≡ start.in_mat (r * n + c)
  back_from_below u = (back_from-start u).below
