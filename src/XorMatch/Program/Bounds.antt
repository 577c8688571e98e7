-- ===== src/XorMatch/Program/Bounds.antt =====
-- max_var (xorMatch/slp.c) bounds the blocks of a program: the encoders' arrays of value / w + 1
-- pointers hold every pointer that its schedule uses.
use native.Mathlib.Nat.{mod-lt, div-add-mod', div-lt_iff_lt-mul, suc-mul}
use cerasure.Base.{
  ℕ, zero, suc, ◌+◌, ◌/◌, ◌^◌, ◌<◌, ◌≤◌, ◌≡◌, ◌≢◌, arith, List, [], ◌∷◌, ◌++◌, map, length, of_list,
  Option, none, some, ltb, if◌then◌else◌,
}
use cerasure.XorMatch.Machine.{Row, IsRow, AllRows}
use cerasure.XorMatch.Program.{rustslp_rows, rustslp_to_schedule, max_from, max_var}
use cerasure.XorMatch.Program.Meaning.{
  Assignment, print, assignment_row, assignment_row-count, assignment_row-dest_block,
  assignment_row-dest_packet, assignment_row-source_block, assignment_row-source_packet,
}
use cerasure.XorMatch.Program.Refine.{place_unique, rustslp_rows-print}

-- No variable of the list is above a bound.
abbrev Below : ℕ → List (Option ℕ) → Type 0
Below bound [] = Unit
Below bound (none ∷ slp) = Below bound slp
Below bound (some variable ∷ slp) = (variable ≤ bound) × Below bound slp

max_from_le : (slp : List (Option ℕ)) (value : ℕ) → value ≤ max_from slp value
unfolding max_from
max_from_le [] value = omega arith
max_from_le (none ∷ slp) value = max_from_le slp value
max_from_le (some variable ∷ slp) value =
    let larger : value ≤ (if ltb value variable then variable else value) = ground arith in
    omega (arith, larger, max_from_le slp (if ltb value variable then variable else value))

max_from-Below : (slp : List (Option ℕ)) (value : ℕ) → Below (max_from slp value) slp
unfolding max_from
max_from-Below [] value = tt
max_from-Below (none ∷ slp) value = max_from-Below slp value
max_from-Below (some variable ∷ slp) value =
    let larger : variable ≤ (if ltb value variable then variable else value) = ground arith in
    (
      omega (arith, larger, max_from_le slp (if ltb value variable then variable else value)),
      max_from-Below slp _,
    )

Below-sources :
    (bound : ℕ) (xs : List ℕ) (rest : List (Option ℕ))
    → Below bound (map some xs ++ (none ∷ rest))
    → ((t : ℕ) → t < length xs → of_list xs t ≤ bound) × Below bound rest
Below-sources bound [] rest below = ((λ t lt. absurd (omega arith)), below)
Below-sources bound (x ∷ xs) rest (le, below) =
    let later = Below-sources bound xs rest below in
    (
      (λ t lt.
          elim t as (λ n. n < suc (length xs) → of_list (x ∷ xs) n ≤ bound) [
            | zero ↦ λ lt'. le
            | suc t' ↦ λ lt'. later.0 t' (omega arith)
          ]
            lt),
      later.1,
    )

-- Each assignment adds up one or more variables, none of which is the one it assigns.
abbrev pub IsProgram : List Assignment → Type 0
IsProgram [] = Unit
IsProgram (a ∷ program) =
    ((1 ≤ length a.sources)
      × (length a.sources < 2 ^ 31)
      × ((t : ℕ) → t < length a.sources → of_list a.sources t ≢ a.dest))
    × IsProgram program

module _ (w : ℕ) (fresh : Row) (pos : 0 < w) (bound : ℕ) where
  block-lt : (x : ℕ) → x ≤ bound → x / w < bound / w + 1
  block-lt x le =
      (div-lt_iff_lt-mul pos).1
        (omega (arith, le, mod-lt bound pos, div-add-mod' bound w, suc-mul (bound / w) w))

  IsRow-assignment_row :
      (a : Assignment)
      → 1 ≤ length a.sources
      → length a.sources < 2 ^ 31
      → ((t : ℕ) → t < length a.sources → of_list a.sources t ≢ a.dest)
      → a.dest ≤ bound
      → ((t : ℕ) → t < length a.sources → of_list a.sources t ≤ bound)
      → IsRow (bound / w + 1) w (assignment_row w fresh a)
  IsRow-assignment_row a one fits other dest_le source_le =
      let row = assignment_row w fresh a in
      let count : row 0 ≡ length a.sources = assignment_row-count w fresh a fits in
      record {
        some_source = rw count one;
        dest_block = rw (assignment_row-dest_block w fresh a) (block-lt a.dest dest_le);
        dest_packet = rw (assignment_row-dest_packet w fresh a) (mod-lt a.dest pos);
        source_block = λ t ht.
            rw (assignment_row-source_block w fresh a t (rw (← count) ht))
              (block-lt _ (source_le t (rw (← count) ht)));
        source_packet =
            λ t ht. rw (assignment_row-source_packet w fresh a t (rw (← count) ht)) (mod-lt _ pos);
        not_dest = λ t ht.
            rw
              (
                assignment_row-source_block w fresh a t (rw (← count) ht),
                assignment_row-source_packet w fresh a t (rw (← count) ht),
                assignment_row-dest_block w fresh a,
                assignment_row-dest_packet w fresh a,
              )
              (place_unique w _ a.dest (other t (rw (← count) ht)));
      }

  AllRows-Below :
      (program : List Assignment)
      → IsProgram program
      → Below bound (print program)
      → AllRows (bound / w + 1) w (rustslp_to_schedule w fresh (print program))
  unfolding print rustslp_to_schedule rustslp_rows
  AllRows-Below [] ok below = tt
  AllRows-Below (a ∷ program) ((one, fits, other), ok) (dest_le, below) =
      let split = Below-sources bound a.sources (print program) below in
      rw (rustslp_rows-print w fresh pos a program)
        (IsRow-assignment_row a one fits other dest_le split.0, AllRows-Below program ok split.1)

-- For a printed program whose assignments add up one or more variables other than their own, every
-- row of the schedule of rustslp_to_schedule stays within max_var / w + 1 blocks of w packets, for
-- w other than 0, and does not read the packet it writes.
pub rustslp_to_schedule-max_var :
    (w : ℕ) (fresh : Row) (program : List Assignment)
    → 0 < w
    → IsProgram program
    → AllRows (max_var (print program) / w + 1) w (rustslp_to_schedule w fresh (print program))
unfolding max_var
rustslp_to_schedule-max_var w fresh program pos ok =
    AllRows-Below w fresh pos (max_var (print program)) program ok
      (max_from-Below (print program) 0)
