-- ===== src/XorMatch/RowIds/Lost.antt =====
-- The lost drives, which set_up_ids_for_operations (xorMatch/xorMatchCode.c) lists from place k on.
use cerasure.Base.{
  ℕ, zero, suc, ◌+◌, ◌<◌, ◌≤◌, ◌≡◌, ◌≢◌, inl, inr, refl, sym, ap, ◌∙◌, arith, List, none, some,
  Block, set, set_self, set_ne, for_range_inv, if◌then◌else◌, true, false, ℕ_discrete, Bool-cases,
}
use cerasure.XorMatch.Erased.Marks.{is_named, named, NamesBelow, eraseds_to_erased-named}
use cerasure.XorMatch.RowIds.{
  IdState, put_id, list_drive, list_drives, place_drives, set_up_ids_for_operations,
}

module _ (k n : ℕ) (eraseds : List ℕ) (erased : Block ℕ)
    (marks : (i : ℕ) → i < n → erased i ≡ (if is_named eraseds i then 1 else 0))
    (before : IdState) where
  -- The lost drives below i stand in order from place k on; nothing below k has changed.
  pub record Placed (i : ℕ) (s : IdState) : Type 0 where
    pub place : s.next ≡ k + named eraseds i
    pub in_order :
        (drive : ℕ)
        → drive < i
        → is_named eraseds drive ≡ true
        → (s.row_ids (k + named eraseds drive) ≡ drive)
          × (s.ind_to_row (k + named eraseds drive) ≡ drive)
    pub kept : (x : ℕ) → x < k → s.row_ids x ≡ before.row_ids x

  named-lt : (a b : ℕ) → a < b → is_named eraseds a ≡ true → named eraseds a < named eraseds b
  unfolding named
  named-lt a zero h on = absurd (omega arith)
  named-lt a (suc b) h on = elim (ℕ_discrete a b) [
    | yes e ↦ rw (← e, on) (omega arith)
    | no ne ↦ ground (arith, named-lt a b (omega (arith, ne)) on)
  ]

  Placed-named :
      (i : ℕ) (s : IdState)
      → is_named eraseds i ≡ true
      → Placed i s
      → Placed (suc i) (
          put_id s.next i
            (record { row_ids = s.row_ids; ind_to_row = s.ind_to_row; next = suc s.next }))
  unfolding put_id named
  Placed-named i s on w = record {
    place = rw on (omega (arith, w.place));
    in_order = λ drive hd it. elim (ℕ_discrete drive i) [
      | yes e ↦ rw e (
        ap (set s.row_ids s.next i) (sym w.place) ∙ set_self s.row_ids s.next i,
        ap (set s.ind_to_row s.next i) (sym w.place) ∙ set_self s.ind_to_row s.next i,
      )
      | no ne ↦
          let less = named-lt drive i (omega (arith, ne)) it in
          let old = w.in_order drive (omega (arith, ne)) it in
          let apart : s.next ≢ k + named eraseds drive =
            λ e. absurd (omega (arith, less, w.place, e)) in
          (set_ne s.row_ids _ _ i apart ∙ old.0, set_ne s.ind_to_row _ _ i apart ∙ old.1)
    ];
    kept = λ x hx. set_ne s.row_ids _ x i (omega (arith, w.place)) ∙ w.kept x hx;
  }

  Placed-other : (i : ℕ) (s : IdState) → is_named eraseds i ≡ false → Placed i s → Placed (suc i) s
  unfolding named
  Placed-other i s off w = record {
    place = rw off w.place;
    in_order = λ drive hd it. elim (ℕ_discrete drive i) [
      | yes e ↦ let same = ap (is_named eraseds) e in absurd (ground (arith, same, it, off))
      | no ne ↦ w.in_order drive (omega (arith, ne)) it
    ];
    kept = w.kept;
  }

  Placed-list_drive :
      (i : ℕ) (s : IdState) → i < n → Placed i s → Placed (suc i) (list_drive erased i s)
  unfolding list_drive
  Placed-list_drive i s hi w = elim (Bool-cases (is_named eraseds i)) [
    | inl on ↦ let mark : erased i ≡ 1 = marks i hi ∙ rw on refl in rw mark (Placed-named i s on w)
    | inr off ↦
        let mark : erased i ≡ 0 = marks i hi ∙ rw off refl in rw mark (Placed-other i s off w)
  ]

  Placed-list_drives : (p : ℕ) → k + p ≡ n → Placed n (list_drives k p erased before)
  unfolding list_drives named
  Placed-list_drives p e = rw e (
      for_range_inv Placed (list_drive erased) 0 n (λ i s lo hi w. Placed-list_drive i s hi w) n 0
        (record { row_ids = before.row_ids; ind_to_row = before.ind_to_row; next = k })
        (omega arith) (omega arith)
        (record {
          place = omega arith;
          in_order = λ drive hd it. absurd (omega arith);
          kept = λ x hx. refl;
        }))

-- For lists of drives among the k + p that name at most p of them, `set_up_ids_for_operations`
-- returns the arrays: row_ids has the lost drives in order from place k on, ind_to_row has the same
-- drives at the same places, and below place k row_ids is as the second loop leaves it. For lists
-- that name more it returns -1.
pub set_up_ids_for_operations-lost :
    (k p : ℕ) (eraseds : List ℕ) (row_ids ind_to_row recover fresh : Block ℕ)
    → NamesBelow (k + p) eraseds
    → (p < named eraseds (k + p)
        → set_up_ids_for_operations k p eraseds row_ids ind_to_row recover fresh ≡ none)
      × (named eraseds (k + p) ≤ p
          → (s : IdState) × (set_up_ids_for_operations k p eraseds row_ids ind_to_row recover fresh
              ≡ some s)
            × ((x : ℕ)
                → x < k
                → s.row_ids x ≡ (place_drives k p recover row_ids ind_to_row).row_ids x)
            × ((drive : ℕ)
                → drive < k + p
                → is_named eraseds drive ≡ true
                → (s.row_ids (k + named eraseds drive) ≡ drive)
                  × (s.ind_to_row (k + named eraseds drive) ≡ drive)))
unfolding set_up_ids_for_operations
set_up_ids_for_operations-lost k p eraseds row_ids ind_to_row recover fresh below =
    let known = eraseds_to_erased-named k p eraseds fresh below in
    (
      λ many. rw (set_up_ids_for_operations, known.0 many) refl,
      λ few.
          let (erased, run, marks) = known.1 few in
          let first = place_drives k p recover row_ids ind_to_row in
          let placed = Placed-list_drives k (k + p) eraseds erased marks first p refl in
          (
            list_drives k p erased first,
            rw (set_up_ids_for_operations, run) refl,
            placed.kept,
            placed.in_order,
          ),
    )
