-- ===== src/XorMatch/Erased/Marks.antt =====
-- What eraseds_to_erased (xorMatch/xorMatchCode.c) returns, against the drives that the list names.
use cerasure.Base.{
  ℕ, zero, suc, ◌+◌, ◌-◌, ◌<◌, ◌≤◌, ◌≡◌, ◌≢◌, refl, sym, ap, ◌∙◌, arith, List, [], ◌∷◌, none, some,
  Block, set, set_self, set_ne, fill, fill_inside, ◌==◌, ==_iff, ==_ne, ==_refl, ltb, if◌then◌else◌,
  Bool, true, false, inl, inr, Bool-cases, ℕ_discrete, dec_lt,
}
use cerasure.XorMatch.Erased.{ErasedState, erase, mark_eraseds, eraseds_to_erased}

abbrev pub is_named : List ℕ → ℕ → Bool
is_named [] i = false
is_named (e ∷ eraseds) i = if e == i then true else is_named eraseds i

-- How many of the first n drives the list names.
unfoldable pub named : List ℕ → ℕ → ℕ
named eraseds zero = 0
named eraseds (suc n) = if is_named eraseds n then suc (named eraseds n) else named eraseds n

abbrev pub NamesBelow : ℕ → List ℕ → Type 0
NamesBelow n eraseds = (e : ℕ) → is_named eraseds e ≡ true → e < n

-- How many of the first n cells are not 0.
unfoldable pub marked : Block ℕ → ℕ → ℕ
marked erased zero = 0
marked erased (suc n) = if erased n == 0 then marked erased n else suc (marked erased n)

pub marked_congr : (a b : Block ℕ) (n : ℕ) → ((i : ℕ) → i < n → a i ≡ b i) → marked a n ≡ marked b n
unfolding marked
marked_congr a b zero e = refl
marked_congr a b (suc n) e =
    let rest = marked_congr a b n (λ i h. e i (omega arith)) in
    let last = e n (omega arith) in ground (arith, rest, last)

-- marked erased n ≤ n, and one more cell counts for one.
marked_le : (erased : Block ℕ) (n : ℕ) → marked erased n ≤ n
unfolding marked
marked_le erased zero = omega arith
marked_le erased (suc n) = ground (arith, marked_le erased n)

marked-set :
    (erased : Block ℕ) (e n : ℕ)
    → erased e ≡ 0
    → e < n
    → marked (set erased e 1) n ≡ suc (marked erased n)
unfolding marked
marked-set erased e zero z h = absurd (omega arith)
marked-set erased e (suc n) z h = elim (ℕ_discrete e n) [
  | yes same ↦
      let below =
        marked_congr (set erased e 1) erased n (λ i hi. set_ne erased e i 1 (omega arith)) in
      let here = ap (set erased e 1) (sym same) ∙ set_self erased e 1 in
      let before = ap erased (sym same) ∙ z in ground (arith, below, here, before)
  | no ne ↦
      let rest = marked-set erased e n z (omega (arith, ne)) in
      let last = set_ne erased e n 1 ne in ground (arith, rest, last)
]

mark : ℕ → Block ℕ → Block ℕ
mark e erased = if erased e == 0 then set erased e 1 else erased

-- Every cell that the list names is 1 in the end.
mark_all : List ℕ → Block ℕ → Block ℕ
mark_all [] erased = erased
mark_all (e ∷ eraseds) erased = mark_all eraseds (mark e erased)

mark_fresh : (e : ℕ) (erased : Block ℕ) → erased e ≡ 0 → mark e erased ≡ set erased e 1
unfolding mark
mark_fresh e erased z = rw z refl

mark_again : (e : ℕ) (erased : Block ℕ) → erased e ≢ 0 → mark e erased ≡ erased
unfolding mark
mark_again e erased nz = rw (==_ne (erased e) 0 nz) refl

mark_other : (e i : ℕ) (erased : Block ℕ) → e ≢ i → mark e erased i ≡ erased i
mark_other e i erased ne = elim (ℕ_discrete (erased e) 0) [
  | yes z ↦ rw (mark_fresh e erased z) (set_ne erased e i 1 ne)
  | no nz ↦ rw (mark_again e erased nz) refl
]

mark_self : (e : ℕ) (erased : Block ℕ) → erased e < 2 → mark e erased e ≡ 1
mark_self e erased bit = elim (ℕ_discrete (erased e) 0) [
  | yes z ↦ rw (mark_fresh e erased z) (set_self erased e 1)
  | no nz ↦ rw (mark_again e erased nz) (omega (arith, nz))
]

mark_all-named :
    (eraseds : List ℕ) (erased : Block ℕ) (i : ℕ)
    → erased i < 2
    → mark_all eraseds erased i ≡ (if is_named eraseds i then 1 else erased i)
unfolding mark_all
mark_all-named [] erased i bit = refl
mark_all-named (e ∷ eraseds) erased i bit = elim (ℕ_discrete e i) [
  | yes same ↦
      let one : mark e erased i ≡ 1 =
        ap (mark e erased) (sym same) ∙ mark_self e erased (rw same bit) in
      let rest = mark_all-named eraseds (mark e erased) i (rw one (omega arith)) in
      rw ((==_iff e i).1 same) (rest ∙ ground (arith, one))
  | no ne ↦
      let keep = mark_other e i erased ne in
      let rest = mark_all-named eraseds (mark e erased) i (rw keep bit) in
      ground (arith, rest, keep)
]

first_below : (n e : ℕ) (eraseds : List ℕ) → NamesBelow n (e ∷ eraseds) → e < n
first_below n e eraseds below = below e (rw (==_refl e) refl)

rest_below : (n e : ℕ) (eraseds : List ℕ) → NamesBelow n (e ∷ eraseds) → NamesBelow n eraseds
rest_below n e eraseds below i h = below i (ground (arith, h))

marked-mark : (erased : Block ℕ) (e n : ℕ) → e < n → marked erased n ≤ marked (mark e erased) n
marked-mark erased e n h = elim (ℕ_discrete (erased e) 0) [
  | yes z ↦ rw (mark_fresh e erased z) (omega (arith, marked-set erased e n z h))
  | no nz ↦ rw (mark_again e erased nz) (omega arith)
]

marked-mark_all :
    (eraseds : List ℕ) (erased : Block ℕ) (n : ℕ)
    → NamesBelow n eraseds
    → marked erased n ≤ marked (mark_all eraseds erased) n
unfolding mark_all
marked-mark_all [] erased n below = omega arith
marked-mark_all (e ∷ eraseds) erased n below =
    let grown = marked-mark erased e n (first_below n e eraseds below) in
    let rest = marked-mark_all eraseds (mark e erased) n (rest_below n e eraseds below) in
    omega (arith, grown, rest)

marked_room : (erased : Block ℕ) (e n : ℕ) → erased e ≡ 0 → e < n → marked erased n < n
marked_room erased e n z h = omega (arith, marked-set erased e n z h, marked_le (set erased e 1) n)

mark_eraseds-marked :
    (k n : ℕ) (eraseds : List ℕ) (s : ErasedState)
    → NamesBelow n eraseds
    → s.t_non_erased + marked s.erased n ≡ n
    → k ≤ s.t_non_erased
    → let all = mark_all eraseds s.erased in
      mark_eraseds k eraseds s ≡ (if ltb n (k + marked all n) then none else some all)
unfolding mark_eraseds mark_all erase
mark_eraseds-marked k n [] s below count enough = ground arith
mark_eraseds-marked k n (e ∷ eraseds) s below count enough =
    let inside = first_below n e eraseds below in
    let tail = rest_below n e eraseds below in
    elim (ℕ_discrete (s.erased e) 0) [
      | no nz ↦
          rw (==_ne (s.erased e) 0 nz, mark_again e s.erased nz)
            (mark_eraseds-marked k n eraseds s tail count enough)
      | yes z ↦
          let more = marked-set s.erased e n z inside in
          let grown = marked-mark_all eraseds (set s.erased e 1) n tail in
          rw (z, mark_fresh e s.erased z)
            (elim (dec_lt (s.t_non_erased - 1) k) [
              | yes few ↦ ground (arith, more, grown)
              | no many ↦
                  let rest =
                    mark_eraseds-marked k n eraseds (erase e s) tail
                      (omega (arith, more, many, marked_room s.erased e n z inside))
                      (omega (arith, many)) in
                  ground (arith, rest)
            ])
    ]

marked-named :
    (eraseds : List ℕ) (erased : Block ℕ) (n : ℕ)
    → ((i : ℕ) → i < n → erased i ≡ 0)
    → marked (mark_all eraseds erased) n ≡ named eraseds n
unfolding marked named
marked-named eraseds erased zero zeros = refl
marked-named eraseds erased (suc n) zeros =
    let z = zeros n (omega arith) in
    let last = mark_all-named eraseds erased n (rw z (omega arith)) in
    let rest = marked-named eraseds erased n (λ i h. zeros i (omega arith)) in
    rw (last, z, rest)
      (elim (Bool-cases (is_named eraseds n)) [ inl on ↦ rw on refl | inr off ↦ rw off refl ])

named_none : (n : ℕ) → named [] n ≡ 0
unfolding named
named_none zero = refl
named_none (suc n) = named_none n

pub marked-zeros :
    (erased : Block ℕ) (n : ℕ) → ((i : ℕ) → i < n → erased i ≡ 0) → marked erased n ≡ 0
unfolding mark_all
marked-zeros erased n zeros = marked-named [] erased n zeros ∙ named_none n

-- For a list of drives among the k + p, eraseds_to_erased returns NULL when the list names more than
-- p of them, and otherwise an array that holds 1 for each drive the list names and 0 for the rest.
pub eraseds_to_erased-named :
    (k p : ℕ) (eraseds : List ℕ) (fresh : Block ℕ)
    → NamesBelow (k + p) eraseds
    → (p < named eraseds (k + p) → eraseds_to_erased k p eraseds fresh ≡ none)
      × (named eraseds (k + p) ≤ p
          → (erased : Block ℕ) × (eraseds_to_erased k p eraseds fresh ≡ some erased)
            × ((i : ℕ) → i < k + p → erased i ≡ (if is_named eraseds i then 1 else 0)))
unfolding eraseds_to_erased
eraseds_to_erased-named k p eraseds fresh below =
    let n = k + p in
    let zero_cells = fill 0 n (λ i. 0) fresh in
    let start : ErasedState = record { erased = zero_cells; t_non_erased = n } in
    let zeros : (i : ℕ) → i < n → zero_cells i ≡ 0 =
      λ i h. ap zero_cells {x = i} {y = 0 + i} (omega arith) ∙ fill_inside 0 n (λ i. 0) fresh i h in
    let all = mark_all eraseds zero_cells in
    let total = marked-named eraseds zero_cells n zeros in
    let run =
      mark_eraseds-marked k n eraseds start below (omega (arith, marked-zeros zero_cells n zeros))
        (omega arith) in
    (
      λ many. run ∙ ground (arith, total, many),
      λ few. (
        all,
        run ∙ ground (arith, total, few),
        λ i h.
            let z = zeros i h in
            mark_all-named eraseds zero_cells i (rw z (omega arith)) ∙ rw z refl,
      ),
    )
