-- ===== src/Invert/Rows.antt =====
-- What each row loop leaves in each cell.
use cerasure.Base.{
  ℕ, zero, suc, ◌+◌, ◌*◌, ◌<◌, ◌≤◌, ◌≡◌, refl, sym, ap₂, ◌∙◌, ◌≢◌, ◌⊎◌, inl, inr, arith, ◌==◌,
  if◌then◌else◌, Block, set, set_self, set_ne, for_range, for_range_inv, row_unique, column_unique,
  offset-lt, ℕ_discrete, ltb,
}
use cerasure.Invert.{Mats, set_identity, swap_cell}

-- Both arrays change by a body of their own.
pub for_range_pair :
    (f g : ℕ → Block ℕ → Block ℕ) (n i : ℕ) (s : Mats)
    → for_range n i (λ k s. record { in_mat = f k s.in_mat; out_mat = g k s.out_mat }) s
      ≡ record { in_mat = for_range n i f s.in_mat; out_mat = for_range n i g s.out_mat }
unfolding for_range
for_range_pair f g zero i s = refl
for_range_pair f g (suc n) i s =
    for_range_pair f g n (suc i) (record { in_mat = f i s.in_mat; out_mat = g i s.out_mat })

pub offsets_ne : (n j k r c : ℕ) → k < n → c < n → (r ≢ j) ⊎ (c ≢ k) → j * n + k ≢ r * n + c
offsets_ne n j k r c hk hc (inl ne) e = ne (sym (row_unique n j k r c hk hc e))
offsets_ne n j k r c hk hc (inr ne) e = ne (sym (column_unique n j k r c hk hc e))

module _ (n i j : ℕ) (g : ℕ → ℕ → ℕ) (m : Block ℕ) where
  abbrev write : ℕ → Block ℕ → Block ℕ
  write k m = set m (j * n + k) (g (m (j * n + k)) (m (i * n + k)))

  -- The first k cells of row j are written and all else is as before.
  record Written (k : ℕ) (m' : Block ℕ) : Type 0 where
    before : (c : ℕ) → c < n → c < k → m' (j * n + c) ≡ g (m (j * n + c)) (m (i * n + c))
    after : (r c : ℕ) → c < n → (r ≢ j) ⊎ (k ≤ c) → m' (r * n + c) ≡ m (r * n + c)

  write_here :
      (k : ℕ) (m' : Block ℕ)
      → k < n
      → Written k m'
      → write k m' (j * n + k) ≡ g (m (j * n + k)) (m (i * n + k))
  write_here k m' hk w =
      set_self m' _ _
      ∙ ap₂ g (w.after j k hk (inr (omega arith))) (w.after i k hk (inr (omega arith)))

  Written-write : (k : ℕ) (m' : Block ℕ) → k < n → Written k m' → Written (suc k) (write k m')
  Written-write k m' hk w = record {
    before = λ c hc lt. elim (ℕ_discrete c k) [
      | yes e ↦ rw e (write_here k m' hk w)
      | no ne ↦
          set_ne m' _ _ _ (offsets_ne n j k j c hk hc (inr ne)) ∙ w.before c hc (omega (arith, ne))
    ];
    after = λ r c hc away. elim away [
      | inl ne ↦ set_ne m' _ _ _ (offsets_ne n j k r c hk hc (inl ne)) ∙ w.after r c hc (inl ne)
      | inr le ↦
          set_ne m' _ _ _ (offsets_ne n j k r c hk hc (inr (omega arith)))
          ∙ w.after r c hc (inr (omega arith))
    ];
  }

  Written-loop : Written n (for_range n 0 write m)
  Written-loop =
      for_range_inv Written write 0 n (λ k m' lo hi w. Written-write k m' hi w) n 0 m (omega arith)
        (omega arith)
        (record { before = λ c hc lt. absurd (omega arith); after = λ r c hc away. refl })

  -- The loop rewrites row j, cell by cell, from rows j and i, and no other row.
  pub row_written :
      (c : ℕ) → c < n → for_range n 0 write m (j * n + c) ≡ g (m (j * n + c)) (m (i * n + c))
  row_written c hc = Written-loop.before c hc hc

  pub row_kept : (r c : ℕ) → c < n → r ≢ j → for_range n 0 write m (r * n + c) ≡ m (r * n + c)
  row_kept r c hc ne = Written-loop.after r c hc (inl ne)

module _ (n i j : ℕ) (apart : i ≢ j) (m : Block ℕ) where
  -- The first k columns of rows i and j have changed places.
  record Swapped (k : ℕ) (m' : Block ℕ) : Type 0 where
    first : (c : ℕ) → c < n → c < k → m' (i * n + c) ≡ m (j * n + c)
    second : (c : ℕ) → c < n → c < k → m' (j * n + c) ≡ m (i * n + c)
    after : (r c : ℕ) → c < n → ((r ≢ i) × (r ≢ j)) ⊎ (k ≤ c) → m' (r * n + c) ≡ m (r * n + c)

  swap_cell_other :
      (k r c : ℕ) (m' : Block ℕ)
      → k < n
      → c < n
      → ((r ≢ i) × (r ≢ j)) ⊎ (c ≢ k)
      → swap_cell n i j k m' (r * n + c) ≡ m' (r * n + c)
  unfolding swap_cell
  swap_cell_other k r c m' hk hc (inl (ni, nj)) =
      set_ne _ _ _ _ (offsets_ne n j k r c hk hc (inl nj))
      ∙ set_ne _ _ _ _ (offsets_ne n i k r c hk hc (inl ni))
  swap_cell_other k r c m' hk hc (inr ne) =
      set_ne _ _ _ _ (offsets_ne n j k r c hk hc (inr ne))
      ∙ set_ne _ _ _ _ (offsets_ne n i k r c hk hc (inr ne))

  swap_cell_first :
      (k : ℕ) (m' : Block ℕ) → k < n → swap_cell n i j k m' (i * n + k) ≡ m' (j * n + k)
  unfolding swap_cell
  swap_cell_first k m' hk =
      set_ne _ _ _ _ (offsets_ne n j k i k hk hk (inl apart)) ∙ set_self m' _ _

  swap_cell_second :
      (k : ℕ) (m' : Block ℕ) → k < n → swap_cell n i j k m' (j * n + k) ≡ m' (i * n + k)
  unfolding swap_cell
  swap_cell_second k m' hk = set_self _ _ _

  Swapped-swap_cell :
      (k : ℕ) (m' : Block ℕ) → k < n → Swapped k m' → Swapped (suc k) (swap_cell n i j k m')
  Swapped-swap_cell k m' hk w = record {
    first = λ c hc lt. elim (ℕ_discrete c k) [
      | yes e ↦ rw e (swap_cell_first k m' hk ∙ w.after j k hk (inr (omega arith)))
      | no ne ↦ swap_cell_other k i c m' hk hc (inr ne) ∙ w.first c hc (omega (arith, ne))
    ];
    second = λ c hc lt. elim (ℕ_discrete c k) [
      | yes e ↦ rw e (swap_cell_second k m' hk ∙ w.after i k hk (inr (omega arith)))
      | no ne ↦ swap_cell_other k j c m' hk hc (inr ne) ∙ w.second c hc (omega (arith, ne))
    ];
    after = λ r c hc away. elim away [
      | inl ne ↦ swap_cell_other k r c m' hk hc (inl ne) ∙ w.after r c hc (inl ne)
      | inr le ↦
          swap_cell_other k r c m' hk hc (inr (omega arith)) ∙ w.after r c hc (inr (omega arith))
    ];
  }

  Swapped-loop : Swapped n (for_range n 0 (swap_cell n i j) m)
  Swapped-loop =
      for_range_inv Swapped (swap_cell n i j) 0 n (λ k m' lo hi w. Swapped-swap_cell k m' hi w) n 0
        m (omega arith) (omega arith)
        (record {
          first = λ c hc lt. absurd (omega arith);
          second = λ c hc lt. absurd (omega arith);
          after = λ r c hc away. refl;
        })

  pub swapped_first :
      (c : ℕ) → c < n → for_range n 0 (swap_cell n i j) m (i * n + c) ≡ m (j * n + c)
  swapped_first c hc = Swapped-loop.first c hc hc

  pub swapped_second :
      (c : ℕ) → c < n → for_range n 0 (swap_cell n i j) m (j * n + c) ≡ m (i * n + c)
  swapped_second c hc = Swapped-loop.second c hc hc

  pub swapped_kept :
      (r c : ℕ)
      → c < n
      → r ≢ i
      → r ≢ j
      → for_range n 0 (swap_cell n i j) m (r * n + c) ≡ m (r * n + c)
  swapped_kept r c hc ni nj = Swapped-loop.after r c hc (inl (ni, nj))

-- The identity matrix.
abbrev pub delta : ℕ → ℕ → ℕ
delta r c = if r == c then 1 else 0

module _ (n : ℕ) where
  zeroed : (m : Block ℕ) (p : ℕ) → p < n * n → for_range (n * n) 0 (λ i m. set m i 0) m p ≡ 0
  zeroed m =
      for_range_inv (λ k m'. (p : ℕ) → p < k → m' p ≡ 0) (λ i m. set m i 0) 0 (n * n)
        (λ i m' lo hi w p lt. elim (ℕ_discrete p i) [
          | yes e ↦ rw e (set_self m' i 0)
          | no ne ↦ set_ne m' i p 0 (λ e. ne (sym e)) ∙ w p (omega (arith, ne))
        ])
        (n * n) 0 m (omega arith) (omega arith) (λ p lt. absurd (omega arith))

  abbrev Diagonal : ℕ → Block ℕ → Type 0
  Diagonal k m =
      (r c : ℕ) → r < n → c < n → m (r * n + c) ≡ (if r == c then (if ltb r k then 1 else 0) else 0)

  Diagonal-set :
      (i : ℕ) (m : Block ℕ) → i < n → Diagonal i m → Diagonal (suc i) (set m (i * n + i) 1)
  Diagonal-set i m hi w r c hr hc = elim (ℕ_discrete r i) [
    | yes e ↦ elim (ℕ_discrete c i) [
      | yes f ↦ rw (e, f) (set_self m _ _ ∙ ground arith)
      | no nf ↦ set_ne m _ _ _ (offsets_ne n i i r c hi hc (inr nf)) ∙ w r c hr hc ∙ ground arith
    ]
    | no ne ↦ set_ne m _ _ _ (offsets_ne n i i r c hi hc (inl ne)) ∙ w r c hr hc ∙ ground arith
  ]

  pub set_identity-delta :
      (m : Block ℕ) (r c : ℕ) → r < n → c < n → set_identity n m (r * n + c) ≡ delta r c
  unfolding set_identity
  set_identity-delta m r c hr hc =
      for_range_inv Diagonal (λ i m. set m (i * n + i) 1) 0 n
        (λ i m' lo hi w. Diagonal-set i m' hi w) n 0 _ (omega arith) (omega arith)
        (λ r c hr hc. zeroed m (r * n + c) (offset-lt n n r c hr hc) ∙ ground arith) r c hr hc
      ∙ ground arith
