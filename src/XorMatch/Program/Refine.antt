-- ===== src/XorMatch/Program/Refine.antt =====
-- The schedule that rustslp_to_schedule (xorMatch/slp.c) makes of a program runs the program.
use native.Mathlib.Nat.{div-add-mod'}
use cerasure.Base.{
  ℕ, ◌+◌, ◌*◌, ◌/◌, ◌%◌, ◌^◌, ◌<◌, ◌≡◌, ◌≢◌, ◌⊎◌, inl, inr, refl, sym, ap, ap₂, fun_ext, ◌∙◌, arith,
  List, [], ◌∷◌, length, Block, set_self, set_ne, ℕ_discrete,
}
use cerasure.Field.Sum.{sum, sum_congr}
use cerasure.XorMatch.Machine.{Row, Values, apply_row, apply_rows, apply_row-dest, apply_row-other}
use cerasure.XorMatch.Program.{rustslp_rows, rustslp_to_schedule}
use cerasure.XorMatch.Program.Meaning.{
  Assignment, print, assign, run_program, variables, FitsInt, assignment_row, assignment_row-count,
  assignment_row-dest_block, assignment_row-dest_packet, assignment_row-source_block,
  assignment_row-source_packet, rustslp_rows-map,
}

-- Two packets differ in the block or in the place there.
pub place_unique : (w x y : ℕ) → x ≢ y → (x / w ≢ y / w) ⊎ (x % w ≢ y % w)
place_unique w x y ne = elim (ℕ_discrete (x / w) (y / w)) [
  | no other ↦ inl other
  | yes e ↦
      inr
        (λ e'. ne (omega (arith, div-add-mod' x w, div-add-mod' y w, ap (λ (t : ℕ). t * w) e, e')))
]

module _ (w : ℕ) (fresh : Row) (pos : 0 < w) where
  apply_row-assign :
      (a : Assignment) (v : Values) (x : ℕ)
      → length a.sources < 2 ^ 31
      → variables w (apply_row (assignment_row w fresh a) v) x ≡ assign a (variables w v) x
  unfolding assign
  apply_row-assign a v x fits =
      let row = assignment_row w fresh a in
      let block : row 1 ≡ a.dest / w = assignment_row-dest_block w fresh a in
      let packet : row 2 ≡ a.dest % w = assignment_row-dest_packet w fresh a in
      elim (ℕ_discrete a.dest x) [
        | yes e ↦ rw (← e) (
            ap₂ (apply_row row v) (sym block) (sym packet)
            ∙ apply_row-dest row v
            ∙ ap (λ (n : ℕ). sum n (λ j. v (row (2 * j + 3)) (row (2 * j + 4))))
                (assignment_row-count w fresh a fits)
            ∙ sum_congr (length a.sources) _ _ (λ t ht.
              ap₂ v (assignment_row-source_block w fresh a t ht)
                (assignment_row-source_packet w fresh a t ht))
            ∙ sym (set_self (variables w v) a.dest _))
        | no ne ↦
            apply_row-other row v (x / w) (x % w) (rw (block, packet) (place_unique w a.dest x ne))
            ∙ sym (set_ne (variables w v) a.dest x _ ne)
      ]

  pub rustslp_rows-print :
      (a : Assignment) (program : List Assignment)
      → rustslp_to_schedule w fresh (print (a ∷ program))
        ≡ assignment_row w fresh a ∷ rustslp_to_schedule w fresh (print program)
  unfolding rustslp_to_schedule print rustslp_rows assignment_row
  rustslp_rows-print a program = rustslp_rows-map w fresh a.sources (print program) 2 _

  -- The schedule that rustslp_to_schedule makes of a printed straight-line program, whose counts
  -- of sources fit an int, gives every variable the value that the program gives it, for w other
  -- than 0.
  pub rustslp_to_schedule-run_program :
      (program : List Assignment) (v : Values) (x : ℕ)
      → FitsInt program
      → variables w (apply_rows (rustslp_to_schedule w fresh (print program)) v) x
        ≡ run_program program (variables w v) x
  unfolding apply_rows run_program rustslp_to_schedule rustslp_rows print
  rustslp_to_schedule-run_program [] v x fits = refl
  rustslp_to_schedule-run_program (a ∷ program) v x (fits, later) =
      ap (λ (rows : List Row). variables w (apply_rows rows v) x) (rustslp_rows-print a program)
      ∙ rustslp_to_schedule-run_program program _ x later
      ∙ ap (λ (env : Block ℕ). run_program program env x)
          (fun_ext (λ y. apply_row-assign a v y fits))
