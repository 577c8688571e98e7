-- ===== src/Encode/Init.antt =====
-- The tables of `ec_init_tables`, one for each coefficient, 32 bytes each.
use cerasure.Base.{
  ℕ, suc, ◌+◌, ◌*◌, ◌<◌, ◌≤◌, ◌≡◌, ◌∙◌, inl, inr, arith, Block, for_range, for_range_inv, subst,
  refl, offset-lt, ℕ_discrete,
}
use cerasure.Encode.{Cursor, init_table, ec_init_tables}
use cerasure.Encode.Tables.{table_entry, gf_vect_mul_init_inside, gf_vect_mul_init_outside}

module _ (k rows : ℕ) (a g_tbls : Block ℕ) (bytes : (i : ℕ) → i < rows * k → a i < 256) where
  -- After `count` coefficients.
  record Laid (count : ℕ) (s : Cursor) : Type 0 where
    read : s.a ≡ count
    written : s.at ≡ 32 * count
    tables : (i p : ℕ) → i < count → p < 32 → s.g_tbls (32 * i + p) ≡ table_entry (a i) p
    beyond : (q : ℕ) → 32 * count ≤ q → s.g_tbls q ≡ g_tbls q

  Laid-init_table :
      (count j : ℕ) (s : Cursor)
      → count < rows * k
      → Laid count s
      → Laid (suc count) (init_table a j s)
  unfolding init_table
  Laid-init_table count j s lt w = record {
    read = omega (arith, w.read);
    written = omega (arith, w.written);
    tables = λ i p hi hp. elim (ℕ_discrete i count) [
      | yes e ↦
          rw (e, w.read, w.written)
            (gf_vect_mul_init_inside (a count) (32 * count) s.g_tbls p (bytes count lt) hp)
      | no ne ↦
          gf_vect_mul_init_outside _ _ _ (32 * i + p) (inl (omega (arith, w.written, ne)))
          ∙ w.tables i p (omega (arith, ne)) hp
    ];
    beyond = λ q hq.
        gf_vect_mul_init_outside _ _ _ q (inr (omega (arith, w.written)))
        ∙ w.beyond q (omega arith);
  }

  recount : {m n : ℕ} (s : Cursor) → m ≡ n → Laid m s → Laid n s
  recount s e = subst (λ (t : ℕ). Laid t s) e

  Laid-row :
      (i : ℕ) (s : Cursor)
      → i < rows
      → Laid (i * k) s
      → Laid (suc i * k) (for_range k 0 (init_table a) s)
  Laid-row i s hi w = recount {m = i * k + k} (for_range k 0 (init_table a) s) (omega arith) (
      for_range_inv (λ j s. Laid (i * k + j) s) (init_table a) 0 k
        (λ j s' lo hj w'.
          recount {m = suc (i * k + j)} _ (omega arith)
            (Laid-init_table (i * k + j) j s' (offset-lt rows k i j hi hj) w'))
        k 0 s (omega arith) (omega arith) (recount {m = i * k} s (omega arith) w))

  Laid-all : Laid (rows * k) (
      for_range rows 0
        (λ i. for_range k 0 (init_table a))
        (record { a = 0; at = 0; g_tbls = g_tbls }))
  Laid-all =
      for_range_inv (λ i s. Laid (i * k) s) (λ i. for_range k 0 (init_table a)) 0 rows
        (λ i s lo hi w. Laid-row i s hi w) rows 0 _ (omega arith) (omega arith)
        (record {
          read = omega arith;
          written = omega arith;
          tables = λ i p hi hp. absurd (omega arith);
          beyond = λ q hq. refl;
        })

  -- Table i is that of coefficient i, and nothing past the last table is written.
  pub ec_init_tables-table_entry :
      ((i p : ℕ)
        → i < rows * k
        → p < 32
        → ec_init_tables k rows a g_tbls (32 * i + p) ≡ table_entry (a i) p)
      × ((q : ℕ) → 32 * (rows * k) ≤ q → ec_init_tables k rows a g_tbls q ≡ g_tbls q)
  unfolding ec_init_tables
  ec_init_tables-table_entry = (Laid-all.tables, Laid-all.beyond)
