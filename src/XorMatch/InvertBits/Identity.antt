-- ===== src/XorMatch/InvertBits/Identity.antt =====
-- The loop of invert_bitmatrix (xorMatch/xorMatchCode.c) that sets inv to the identity.
use native.Mathlib.Nat.{suc-mul}
use cerasure.Base.{
  ℕ, suc, ◌+◌, ◌*◌, ◌<◌, ◌≡◌, inl, ◌∙◌, arith, ◌==◌, if◌then◌else◌, Block, set, set_self, set_ne,
  for_range, for_range_inv, ℕ_discrete,
}
use cerasure.Invert.Rows.{delta, offsets_ne}
use cerasure.XorMatch.InvertBits.{IdentityState, write_identity}

module _ (n : ℕ) where
  -- Row i is written up to column j.
  record Written (i j : ℕ) (s : IdentityState) : Type 0 where
    next : s.k ≡ i * n + j
    rows : (r c : ℕ) → r < i → c < n → s.inv (r * n + c) ≡ delta r c
    columns : (c : ℕ) → c < j → s.inv (i * n + c) ≡ delta i c

  Written-step :
      (i j : ℕ) (s : IdentityState)
      → j < n
      → Written i j s
      → Written i (suc j) (record { k = s.k + 1; inv = set s.inv s.k (if i == j then 1 else 0) })
  Written-step i j s hj before = record {
    next = omega (arith, before.next);
    rows = λ r c hr hc.
        set_ne s.inv s.k (r * n + c) _
          (rw before.next (offsets_ne n i j r c hj hc (inl (omega arith))))
        ∙ before.rows r c hr hc;
    columns = λ c hc. elim (ℕ_discrete j c) [
      | yes e ↦ rw (← e, before.next) (set_self s.inv (i * n + j) _)
      | no ne ↦
          set_ne s.inv s.k (i * n + c) _ (omega (arith, before.next, ne))
          ∙ before.columns c (omega (arith, ne))
    ];
  }

  Written-row :
      (i : ℕ) (s : IdentityState)
      → Written i 0 s
      → Written (suc i) 0 (
          for_range n 0
            (λ j s. record { k = s.k + 1; inv = set s.inv s.k (if i == j then 1 else 0) })
            s)
  Written-row i s before =
      let done =
        for_range_inv (Written i)
          (λ j s. record { k = s.k + 1; inv = set s.inv s.k (if i == j then 1 else 0) }) 0 n
          (λ j s lo hi w. Written-step i j s hi w) n 0 s (omega arith) (omega arith) before in
      record {
        next = omega (arith, done.next, suc-mul i n);
        rows = λ r c hr hc. elim (ℕ_discrete r i) [
          | yes e ↦ rw e (done.columns c hc)
          | no ne ↦ done.rows r c (omega (arith, ne)) hc
        ];
        columns = λ c hc. absurd (omega arith);
      }

  pub write_identity-delta :
      (inv : Block ℕ) (r c : ℕ) → r < n → c < n → write_identity n inv (r * n + c) ≡ delta r c
  unfolding write_identity
  write_identity-delta inv =
      (for_range_inv (λ i. Written i 0)
        (λ i.
          for_range n 0
            (λ j s. record { k = s.k + 1; inv = set s.inv s.k (if i == j then 1 else 0) }))
        0 n (λ i s lo hi w. Written-row i s w) n 0 (record { k = 0; inv = inv }) (omega arith)
        (omega arith)
        (record {
          next = omega arith;
          rows = λ r c hr hc. absurd (omega arith);
          columns = λ c hc. absurd (omega arith);
        })).rows
