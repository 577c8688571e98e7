-- ===== src/XorMatch/RowIds/Search.antt =====
-- The searches for a free place in the second loop of set_up_ids_for_operations
-- (xorMatch/xorMatchCode.c) end within the k + p places.
use cerasure.Base.{
  ℕ, zero, suc, ◌+◌, ◌<◌, ◌≤◌, ◌≡◌, ◌≢◌, refl, ap, ◌∙◌, arith, Block, fill, fill_inside, set,
  set_self, set_ne, for_range, for_range_inv, lt→ltb, ltb_no, ==_ne, ℕ_discrete, dec_lt,
}
use cerasure.XorMatch.Erased.Marks.{marked, marked_congr, marked-zeros}
use cerasure.XorMatch.RowIds.{IdState, skip_used, put_id, place_drive}

abbrev Used : Block ℕ → ℕ → Type 0
Used row n = (x : ℕ) → x < n → row x ≢ 0

marked-Used : (row : Block ℕ) (n : ℕ) → Used row n → marked row n ≡ n
unfolding marked
marked-Used row zero used = refl
marked-Used row (suc n) used =
    rw (==_ne (row n) 0 (used n (omega arith)))
      (ap suc (marked-Used row n (λ x h. used x (omega arith))))

-- One more cell is at most one more that is not 0.
marked_next : (row : Block ℕ) (e v n : ℕ) → marked (set row e v) n ≤ suc (marked row n)
unfolding marked
marked_next row e v zero = omega arith
marked_next row e v (suc n) = elim (ℕ_discrete e n) [
  | yes same ↦
      let below = marked_congr (set row e v) row n (λ i hi. set_ne row e i v (omega arith)) in
      ground (arith, below)
  | no ne ↦
      let rest = marked_next row e v n in
      let last = set_ne row e n v ne in ground (arith, rest, last)
]

-- With a free place among n, and none before j, the search from j ends at a free one.
skip_used-ends :
    (fuel n : ℕ) (row : Block ℕ) (j : ℕ)
    → j ≤ n
    → n ≤ j + fuel
    → Used row j
    → marked row n < n
    → let found = skip_used fuel row j in (row found ≡ 0) × (found < n) × Used row found
unfolding skip_used
skip_used-ends zero n row j le enough used room =
    let full : j ≡ n = omega arith in
    absurd (omega (arith, marked-Used row n (λ x h. used x (omega (arith, full)))))
skip_used-ends (suc fuel) n row j le enough used room = elim (ℕ_discrete (row j) 0) [
  | yes z ↦
      let inside : j ≢ n =
        λ e. absurd (omega (arith, marked-Used row n (λ x h. used x (omega (arith, e))))) in
      rw z (z, omega (arith, inside), used)
  | no nz ↦
      let inside : j ≢ n =
        λ e. absurd (omega (arith, marked-Used row n (λ x h. used x (omega (arith, e))))) in
      rw (==_ne (row j) 0 nz) (
        skip_used-ends fuel n row (suc j) (omega (arith, inside)) (omega arith)
          (λ x h. elim (ℕ_discrete x j) [ yes e ↦ rw e nz | no ne ↦ used x (omega (arith, ne)) ])
          room)
]

module _ (k n : ℕ) (recover : Block ℕ) (inside : k ≤ n)
    (others : (i : ℕ) → 0 < i → i < k → recover i ≢ 0) where
  -- After i rounds at most i places are taken, and every place that the search has passed is.
  record Searching (i : ℕ) (s : IdState) : Type 0 where
    start : i ≡ 0 → s.next ≡ 0
    passed : Used s.row_ids s.next
    taken : marked s.row_ids n ≤ i
    within : s.next ≤ n

  found :
      (i : ℕ) (s : IdState)
      → i < k
      → Searching i s
      → let j = skip_used n s.row_ids s.next in (s.row_ids j ≡ 0) × (j < n) × Used s.row_ids j
  found i s hi w =
      skip_used-ends n n s.row_ids s.next w.within (omega arith) w.passed (omega (arith, w.taken))

  Searching-data :
      (i : ℕ) (s : IdState)
      → i < k
      → Searching i s
      → Searching (suc i) (put_id (recover i) (recover i) s)
  unfolding put_id
  Searching-data i s hi w = record {
    start = λ e. absurd (omega (arith, e));
    passed = λ x hx. elim (ℕ_discrete (recover i) x) [
      | no ne ↦ λ e. w.passed x hx (rw (set_ne s.row_ids (recover i) x (recover i) ne) at e)
      | yes same ↦ elim (ℕ_discrete i 0) [
        | yes z ↦ absurd (omega (arith, w.start z))
        | no nz ↦ λ e.
            others i (omega (arith, nz)) hi
              (rw (← same, set_self s.row_ids (recover i) (recover i)) at e)
      ]
    ];
    taken = omega (arith, marked_next s.row_ids (recover i) (recover i) n, w.taken);
    within = w.within;
  }

  Searching-parity :
      (i : ℕ) (s : IdState)
      → i < k
      → k ≤ recover i
      → Searching i s
      → let j = skip_used n s.row_ids s.next in
        let moved : IdState = record {
          row_ids = s.row_ids;
          ind_to_row = s.ind_to_row;
          next = suc j;
        } in
        Searching (suc i) (put_id j (recover i) moved)
  unfolding put_id
  Searching-parity i s hi parity w =
      let (free, low, used) = found i s hi w in
      let j = skip_used n s.row_ids s.next in
      record {
        start = λ e. absurd (omega (arith, e));
        passed = λ x hx. elim (ℕ_discrete x j) [
          | yes same ↦ λ e. absurd (
              omega (
                arith,
                ap (set s.row_ids j (recover i)) same,
                set_self s.row_ids j (recover i),
                e,
                parity,
              ))
          | no ne ↦ λ e.
              used x (omega (arith, ne))
                (rw (set_ne s.row_ids j x (recover i) (omega (arith, ne))) at e)
        ];
        taken = omega (arith, marked_next s.row_ids j (recover i) n, w.taken);
        within = omega (arith, low);
      }

  Searching-place_drive :
      (i : ℕ) (s : IdState)
      → i < k
      → Searching i s
      → Searching (suc i) (place_drive k n recover i s)
  unfolding place_drive
  Searching-place_drive i s hi w = elim (dec_lt (recover i) k) [
    | yes data_drive ↦ rw (lt→ltb (recover i) k data_drive) (Searching-data i s hi w)
    | no parity_drive ↦
        rw (ltb_no (recover i) k parity_drive)
          (Searching-parity i s hi (omega (arith, parity_drive)) w)
  ]

  -- When drive 0 can only be the first of the k drives to decode from, and k is at most n, the search
  -- for a free place in every round of the second loop of set_up_ids_for_operations, which has n
  -- rounds, ends at one among the n places.
  pub place_drive-free :
      (row_ids ind_to_row : Block ℕ) (i : ℕ)
      → i < k
      → let start : IdState = record {
        row_ids = fill 0 n (λ i. 0) row_ids;
        ind_to_row = ind_to_row;
        next = 0;
      } in
        let s = for_range i 0 (place_drive k n recover) start in
        let j = skip_used n s.row_ids s.next in (s.row_ids j ≡ 0) × (j < n)
  place_drive-free row_ids ind_to_row i hi =
      let start : IdState = record {
        row_ids = fill 0 n (λ i. 0) row_ids;
        ind_to_row = ind_to_row;
        next = 0;
      } in
      let zeros : (x : ℕ) → x < n → start.row_ids x ≡ 0 = λ x h.
        ap (fill 0 n (λ i. 0) row_ids) {x = x} {y = 0 + x} (omega arith)
        ∙ fill_inside 0 n (λ i. 0) row_ids x h in
      let w =
        for_range_inv Searching (place_drive k n recover) 0 i
          (λ c s lo hc w. Searching-place_drive c s (omega arith) w) i 0 start (omega arith)
          (omega arith)
          (record {
            start = λ e. refl;
            passed = λ x h. absurd (omega arith);
            taken = omega (arith, marked-zeros start.row_ids n zeros);
            within = omega arith;
          }) in
      let (free, low, used) = found i _ hi w in (free, low)
