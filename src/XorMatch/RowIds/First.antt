-- ===== src/XorMatch/RowIds/First.antt =====
-- Place 0 after the second loop of set_up_ids_for_operations (xorMatch/xorMatchCode.c), which takes
-- an entry 0 for a place that is free.
use cerasure.Base.{
  ℕ, zero, suc, ◌+◌, ◌<◌, ◌≤◌, ◌≡◌, ◌≢◌, refl, ap, ◌∙◌, arith, Block, fill, fill_inside, set_self,
  set_ne, for_range_inv, lt→ltb, ltb_no, ℕ_discrete, dec_lt,
}
use cerasure.XorMatch.RowIds.{IdState, skip_used, put_id, place_drive, place_drives}

skip_used-le : (fuel : ℕ) (row_ids : Block ℕ) (j : ℕ) → j ≤ skip_used fuel row_ids j
unfolding skip_used
skip_used-le zero row_ids j = omega arith
skip_used-le (suc fuel) row_ids j = ground (arith, skip_used-le fuel row_ids (suc j))

skip_used-free :
    (fuel : ℕ) (row_ids : Block ℕ) (j : ℕ) → row_ids j ≡ 0 → skip_used fuel row_ids j ≡ j
unfolding skip_used
skip_used-free zero row_ids j z = refl
skip_used-free (suc fuel) row_ids j z = rw z refl

module _ (k fuel : ℕ) (recover : Block ℕ) (first : ℕ) (parity : k ≤ recover first)
    (data_before : (i : ℕ) → i < first → recover i < k)
    (others : (i : ℕ) → 0 < i → i < k → recover i ≢ 0) where
  -- Place 0 is taken when the first parity drive is placed.
  record Taken (i : ℕ) (s : IdState) : Type 0 where
    before : i ≤ first → (s.row_ids 0 ≡ 0) × (s.next ≡ 0)
    after : first < i → (s.row_ids 0 ≡ recover first) × (0 < s.next)

  abbrev data_placed : ℕ → IdState → IdState
  data_placed i s = put_id (recover i) (recover i) s

  Taken-data :
      (i : ℕ) (s : IdState) → i < k → recover i < k → Taken i s → Taken (suc i) (data_placed i s)
  unfolding put_id
  Taken-data i s hi data_drive t =
      let not_first : i ≢ first = λ e. absurd (omega (arith, ap recover e)) in
      record {
        before = λ h.
            let old = t.before (omega arith) in
            (
              elim (ℕ_discrete (recover i) 0) [
                | yes z ↦ rw z (set_self s.row_ids 0 0)
                | no nz ↦ set_ne s.row_ids (recover i) 0 (recover i) nz ∙ old.0
              ],
              old.1,
            );
        after = λ h.
            let old = t.after (omega (arith, not_first)) in
            (
              set_ne s.row_ids (recover i) 0 (recover i) (others i (omega (arith, not_first)) hi)
                  ∙ old.0,
              old.1,
            );
      }

  abbrev parity_placed : ℕ → IdState → IdState
  parity_placed i s =
      let j = skip_used fuel s.row_ids s.next in
      let moved : IdState = record {
        row_ids = s.row_ids;
        ind_to_row = s.ind_to_row;
        next = suc j;
      } in
      put_id j (recover i) moved

  Taken-parity : (i : ℕ) (s : IdState) → first ≤ i → Taken i s → Taken (suc i) (parity_placed i s)
  unfolding put_id
  Taken-parity i s late t = record {
    before = λ h. absurd (omega arith);
    after = λ h. elim (ℕ_discrete i first) [
      | yes e ↦
          let (free, start) = t.before (omega arith) in
          let here = skip_used-free fuel s.row_ids s.next (ap s.row_ids start ∙ free) ∙ start in
          rw (here, e) (set_self s.row_ids 0 (recover first), omega arith)
      | no ne ↦
          let (taken, later) = t.after (omega (arith, ne)) in
          let on = skip_used-le fuel s.row_ids s.next in
          (set_ne s.row_ids _ 0 (recover i) (omega (arith, on, later)) ∙ taken, omega arith)
    ];
  }

  Taken-place_drive :
      (i : ℕ) (s : IdState) → i < k → Taken i s → Taken (suc i) (place_drive k fuel recover i s)
  unfolding place_drive
  Taken-place_drive i s hi t = elim (dec_lt (recover i) k) [
    | yes data_drive ↦ rw (lt→ltb (recover i) k data_drive) (Taken-data i s hi data_drive t)
    | no parity_drive ↦
        let late : first ≤ i = elim (dec_lt i first) [
          | yes early ↦ absurd (parity_drive (data_before i early))
          | no late ↦ omega (arith, late)
        ] in
        rw (ltb_no (recover i) k parity_drive) (Taken-parity i s late t)
  ]

-- When drive 0 can only be the first of the k drives to decode from, and one of these is a parity drive,
-- the second loop of `set_up_ids_for_operations` leaves the first parity drive in place 0, also when
-- drive 0 has been put there before.
pub place_drives-first :
    (k p : ℕ) (recover row_ids ind_to_row : Block ℕ) (first : ℕ)
    → first < k
    → k ≤ recover first
    → ((i : ℕ) → i < first → recover i < k)
    → ((i : ℕ) → 0 < i → i < k → recover i ≢ 0)
    → (place_drives k p recover row_ids ind_to_row).row_ids 0 ≡ recover first
unfolding place_drives
place_drives-first k p recover row_ids ind_to_row first inside parity data_before others =
    let start : IdState = record {
      row_ids = fill 0 (k + p) (λ i. 0) row_ids;
      ind_to_row = ind_to_row;
      next = 0;
    } in
    let taken =
      for_range_inv (Taken k (k + p) recover first parity data_before others)
        (place_drive k (k + p) recover) 0 k
        (λ i s lo hi t.
          Taken-place_drive k (k + p) recover first parity data_before others i s hi t)
        k 0 start (omega arith) (omega arith)
        (record {
          before = λ h. (fill_inside 0 (k + p) (λ i. 0) row_ids 0 (omega arith), refl);
          after = λ h. absurd (omega arith);
        }) in
    (taken.after inside).0
