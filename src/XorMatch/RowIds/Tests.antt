-- ===== src/XorMatch/RowIds/Tests.antt =====
-- Two data drives and a parity drive, of which data drive 1 is lost.
use cerasure.Base.{
  ℕ, zero, suc, ◌+◌, ◌<◌, ◌≤◌, ◌≡◌, ◌≢◌, arith, List, [], ◌∷◌, none, some, Block, of_list, true,
  fill, for_range,
}
use cerasure.XorMatch.Erased.Marks.{is_named, named, NamesBelow}
use cerasure.XorMatch.RowIds.{
  IdState, skip_used, place_drive, place_drives, set_up_ids_for_operations,
}
use cerasure.XorMatch.RowIds.Lost.{set_up_ids_for_operations-lost}
use cerasure.XorMatch.RowIds.Search.{place_drive-free}
use cerasure.XorMatch.RowIds.First.{place_drives-first}

abbrev lost : List ℕ
lost = 1 ∷ []

abbrev recover : Block ℕ
recover = of_list (0 ∷ 2 ∷ [])

abbrev fresh : Block ℕ
fresh i = 7

lost-NamesBelow : NamesBelow (2 + 1) lost
lost-NamesBelow zero h = omega arith
lost-NamesBelow (suc e) h = ground (arith, h)

set_up_ids_for_operations-lost_example :
    (1 < named lost (2 + 1) → set_up_ids_for_operations 2 1 lost fresh fresh recover fresh ≡ none)
    × (named lost (2 + 1) ≤ 1
        → (s : IdState) × (set_up_ids_for_operations 2 1 lost fresh fresh recover fresh ≡ some s)
          × ((x : ℕ) → x < 2 → s.row_ids x ≡ (place_drives 2 1 recover fresh fresh).row_ids x)
          × ((drive : ℕ)
              → drive < 2 + 1
              → is_named lost drive ≡ true
              → (s.row_ids (2 + named lost drive) ≡ drive)
                × (s.ind_to_row (2 + named lost drive) ≡ drive)))
set_up_ids_for_operations-lost_example =
    set_up_ids_for_operations-lost 2 1 lost fresh fresh recover fresh lost-NamesBelow

recover_early : (i : ℕ) → i < 1 → recover i < 2
recover_early zero h = omega arith
recover_early (suc i) h = absurd (omega arith)

recover_others : (i : ℕ) → 0 < i → i < 2 → recover i ≢ 0
recover_others zero h h' = absurd (omega arith)
recover_others (suc zero) h h' = omega arith
recover_others (suc (suc i)) h h' = absurd (omega arith)

-- Drive 0 is there to decode from, but place 0 holds the parity drive.
place_drives-first_example : (place_drives 2 1 recover fresh fresh).row_ids 0 ≡ 2
place_drives-first_example =
    place_drives-first 2 1 recover fresh fresh 1 (omega arith) (omega arith) recover_early
      recover_others

place_drive-free_example :
    let start : IdState = record {
      row_ids = fill 0 3 (λ i. 0) fresh;
      ind_to_row = fresh;
      next = 0;
    } in
    let s = for_range 1 0 (place_drive 2 3 recover) start in
    let j = skip_used 3 s.row_ids s.next in (s.row_ids j ≡ 0) × (j < 3)
place_drive-free_example =
    place_drive-free 2 3 recover (omega arith) recover_others fresh fresh 1 (omega arith)
