-- ===== src/XorMatch/Erased/Tests.antt =====
-- Drives that a list names, of two data drives and two parity drives.
use cerasure.Base.{
  ℕ, zero, suc, ◌+◌, ◌<◌, ◌≤◌, ◌≡◌, refl, arith, List, [], ◌∷◌, none, some, Block, set, fill,
  for_range, if◌then◌else◌,
}
use cerasure.XorMatch.Erased.{eraseds_to_erased, mark_eraseds, erase}
use cerasure.XorMatch.Erased.Marks.{is_named, named, NamesBelow, eraseds_to_erased-named}

-- Drive 3 is named twice.
abbrev drives : List ℕ
drives = 3 ∷ 0 ∷ 3 ∷ []

drives-NamesBelow : NamesBelow (2 + 2) drives
drives-NamesBelow zero h = omega arith
drives-NamesBelow (suc e) h = ground (arith, h)

abbrev fresh : Block ℕ
fresh i = 7

too_many : eraseds_to_erased 2 2 (3 ∷ 0 ∷ 1 ∷ []) fresh ≡ none
unfolding eraseds_to_erased mark_eraseds erase fill set for_range
too_many = refl

eraseds_to_erased-named_example :
    (2 < named drives (2 + 2) → eraseds_to_erased 2 2 drives fresh ≡ none)
    × (named drives (2 + 2) ≤ 2
        → (erased : Block ℕ) × (eraseds_to_erased 2 2 drives fresh ≡ some erased)
          × ((i : ℕ) → i < 2 + 2 → erased i ≡ (if is_named drives i then 1 else 0)))
eraseds_to_erased-named_example = eraseds_to_erased-named 2 2 drives fresh drives-NamesBelow

drives_count : named drives (2 + 2) ≡ 2
unfolding named
drives_count = refl
