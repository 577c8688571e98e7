-- ===== src/XorMatch/RowIds.antt =====
-- set_up_ids_for_operations of xorMatch/xorMatchCode.c: which drive stands in each place for
-- decoding. `recover` lists the k drives to decode from.
pub mod Lost
pub mod First
mod Search
mod Tests
use cerasure.Base.{
  ℕ, zero, suc, ◌+◌, List, Option, none, some, Block, set, fill, for_range, ◌==◌, ltb,
  if◌then◌else◌,
}
use cerasure.XorMatch.Erased.{eraseds_to_erased}

pub record IdState : Type 0 where
  pub row_ids : Block ℕ
  pub ind_to_row : Block ℕ
  -- the index j of the second loop and x of the third
  pub next : ℕ

-- while(row_ids[j]) j++;  with the rounds bounded by the fuel
unfoldable pub skip_used : ℕ → Block ℕ → ℕ → ℕ
skip_used zero row_ids j = j
skip_used (suc fuel) row_ids j =
    let further = skip_used fuel row_ids (suc j) in if row_ids j == 0 then j else further

-- row_ids[x]=drive; ind_to_row[x] = drive;
pub put_id : ℕ → ℕ → IdState → IdState
put_id x drive s = record {
  row_ids = set s.row_ids x drive;
  ind_to_row = set s.ind_to_row x drive;
  next = s.next;
}

-- One round of the second loop: a data drive keeps its place, a parity drive takes a free one.
pub place_drive : ℕ → ℕ → Block ℕ → ℕ → IdState → IdState
place_drive k fuel recover i s =
    let j = skip_used fuel s.row_ids s.next in
    let moved : IdState = record { row_ids = s.row_ids; ind_to_row = s.ind_to_row; next = suc j } in
    if ltb (recover i) k then put_id (recover i) (recover i) s else put_id j (recover i) moved

-- One round of the third loop.
pub list_drive : Block ℕ → ℕ → IdState → IdState
list_drive erased i s =
    let moved : IdState = record {
      row_ids = s.row_ids;
      ind_to_row = s.ind_to_row;
      next = suc s.next;
    } in
    if erased i == 1 then put_id s.next i moved else s

pub place_drives : ℕ → ℕ → Block ℕ → Block ℕ → Block ℕ → IdState
place_drives k p recover row_ids ind_to_row =
    let start : IdState = record {
      row_ids = fill 0 (k + p) (λ i. 0) row_ids;
      ind_to_row = ind_to_row;
      next = 0;
    } in
    for_range k 0 (place_drive k (k + p) recover) start

pub list_drives : ℕ → ℕ → Block ℕ → IdState → IdState
list_drives k p erased s =
    let start : IdState = record { row_ids = s.row_ids; ind_to_row = s.ind_to_row; next = k } in
    for_range (k + p) 0 (list_drive erased) start

-- The two arrays that are left, or none for the return of -1. The counts ddf and cdf are not used.
unfoldable pub set_up_ids_for_operations :
    ℕ → ℕ → List ℕ → Block ℕ → Block ℕ → Block ℕ → Block ℕ → Option IdState
set_up_ids_for_operations k p eraseds row_ids ind_to_row recover fresh =
    elim (eraseds_to_erased k p eraseds fresh) [
      | none ↦ none
      | some erased ↦ some (list_drives k p erased (place_drives k p recover row_ids ind_to_row))
    ]
