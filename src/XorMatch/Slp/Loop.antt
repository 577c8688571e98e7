-- ===== src/XorMatch/Slp/Loop.antt =====
-- The loop over stripes of xorMatch/slp.c, round by round.
use cerasure.Base.{
  ℕ, zero, suc, ◌+◌, ◌^◌, ◌<◌, ◌≤◌, ◌≡◌, refl, sym, ◌∙◌, arith, Block, dec_lt, ltb, lt→ltb, ltb_no,
}
use cerasure.XorMatch.Memory.{Pointer}
use cerasure.XorMatch.Slp.{less_int, add_int, move_pointers, encode_from}

less_int-eq : (i len : ℕ) → i < 2 ^ 31 → less_int i len ≡ ltb i len
unfolding less_int
less_int-eq i len small = rw (lt→ltb i (2 ^ 31) small) refl

add_int-eq : (i size : ℕ) → i + size < 2 ^ 32 → add_int i size ≡ i + size
unfolding add_int
add_int-eq i size small = omega arith

-- Where i + size never overflows an int.
module _ {ℓ} {S : Type ℓ} (body : Block Pointer → S → S) (n size len : ℕ)
    (fits : len + size ≤ 2 ^ 31) where
  pub encode_from_zero :
      (i : ℕ) (c : Block Pointer) (s : S) → encode_from body n size len 0 i c s ≡ s
  unfolding encode_from
  encode_from_zero i c s = refl

  pub encode_from_stop :
      (fuel i : ℕ) (c : Block Pointer) (s : S)
      → i < 2 ^ 31
      → ¬ (i < len)
      → encode_from body n size len fuel i c s ≡ s
  unfolding encode_from
  encode_from_stop zero i c s small ge = refl
  encode_from_stop (suc fuel) i c s small ge = rw (less_int-eq i len small, ltb_no i len ge) refl

  pub encode_from_step :
      (fuel i : ℕ) (c : Block Pointer) (s : S)
      → i < len
      → encode_from body n size len (suc fuel) i c s
        ≡ encode_from body n size len fuel (i + size) (move_pointers n size c) (body c s)
  unfolding encode_from
  encode_from_step fuel i c s lt =
      rw
        (
          less_int-eq i len (omega (arith, fits)),
          lt→ltb i len lt,
          add_int-eq i size (omega (arith, fits)),
        )
        refl

  -- With stripes of one byte or more, fuel for the bytes left is enough.
  encode_from_enough :
      (fuel more i : ℕ) (c : Block Pointer) (s : S)
      → 1 ≤ size
      → i < 2 ^ 31
      → len ≤ i + fuel
      → fuel ≤ more
      → encode_from body n size len more i c s ≡ encode_from body n size len fuel i c s
  encode_from_enough zero more i c s pos small enough le =
      encode_from_stop more i c s small (λ lt. absurd (omega (arith, enough, lt)))
      ∙ sym (encode_from_stop zero i c s small (λ lt. absurd (omega (arith, enough, lt))))
  encode_from_enough (suc fuel) zero i c s pos small enough le = absurd (omega arith)
  encode_from_enough (suc fuel) (suc more) i c s pos small enough le = elim (dec_lt i len) [
    | no ge ↦
        encode_from_stop (suc more) i c s small ge
        ∙ sym (encode_from_stop (suc fuel) i c s small ge)
    | yes lt ↦
        encode_from_step more i c s lt
        ∙ encode_from_enough fuel more (i + size) (move_pointers n size c) (body c s) pos
            (omega (arith, fits, lt)) (omega arith) (omega arith)
        ∙ sym (encode_from_step fuel i c s lt)
  ]
