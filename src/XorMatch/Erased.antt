-- ===== src/XorMatch/Erased.antt =====
-- eraseds_to_erased of xorMatch/xorMatchCode.c: which of the k + p drives a list names. The list
-- ends with -1: here, the end of the list. The memory for the result is had.
pub mod Marks
mod Tests
use cerasure.Base.{
  ℕ, ◌+◌, ◌-◌, List, [], ◌∷◌, Option, none, some, Block, set, fill, ◌==◌, ltb, if◌then◌else◌,
}

pub record ErasedState : Type 0 where
  pub erased : Block ℕ
  pub t_non_erased : ℕ

-- erased[eraseds[i]] = 1; t_non_erased--;
pub erase : ℕ → ErasedState → ErasedState
erase e s = record { erased = set s.erased e 1; t_non_erased = s.t_non_erased - 1 }

-- The loop over the list, which gives up when fewer than k drives are left.
pub mark_eraseds : ℕ → List ℕ → ErasedState → Option (Block ℕ)
mark_eraseds k [] s = some s.erased
mark_eraseds k (e ∷ eraseds) s =
    let next = mark_eraseds k eraseds (erase e s) in
    let rest = mark_eraseds k eraseds s in
    if s.erased e == 0 then (if ltb (s.t_non_erased - 1) k then none else next) else rest

unfoldable pub eraseds_to_erased : ℕ → ℕ → List ℕ → Block ℕ → Option (Block ℕ)
eraseds_to_erased k p eraseds fresh =
    mark_eraseds k eraseds (record { erased = fill 0 (k + p) (λ i. 0) fresh; t_non_erased = k + p })
