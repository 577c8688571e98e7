-- ===== src/Igzip/Adler/Sums.antt =====
-- The sums of `adler32_base` (igzip/adler32_base.c) over one buffer: they stay within 64 bits, and
-- their remainders are the sums of the definition.
use native.Mathlib.Nat.{mul-add, add-mul, mul-le-mul_left, mul-le-mul_right}
use cerasure.Base.{ℕ, zero, suc, ◌+◌, ◌*◌, ◌%◌, ◌^◌, ◌<◌, ◌≤◌, ◌≡◌, refl, arith, Block, for_range}
use cerasure.Igzip.Adler.{max_adler_buf, adler_mod, Adler, add_byte, ref_byte}

triangle : ℕ → ℕ
triangle zero = 0
triangle (suc n) = triangle n + suc n

triangle-mul : (n : ℕ) → 2 * triangle n ≡ n * suc n
unfolding triangle
triangle-mul zero = refl
triangle-mul (suc n) =
    omega (arith, triangle-mul n, mul-add (suc n) (suc n) 1, mul-add n n 1, add-mul n 1 (suc n))

triangle_bound : (n : ℕ) → n ≤ max_adler_buf → triangle n ≤ 2 ^ 27 * (2 ^ 28 + 1)
triangle_bound n h = omega (
  arith,
  triangle-mul n,
  mul-le-mul_right {m = n} {n = 2 ^ 28} (suc n) h,
  mul-le-mul_left {m = suc n} {n = 2 ^ 28 + 1} (2 ^ 28) (omega arith),
)

-- The sums after k bytes of a buffer.
record Within (k : ℕ) (s : Adler) : Type 0 where
  a_bound : s.a ≤ 65535 + 255 * k
  b_bound : s.b ≤ 65535 + 65535 * k + 255 * triangle k

-- Their remainders.
pub record Same (s t : Adler) : Type 0 where
  pub a_same : t.a ≡ s.a % adler_mod
  pub b_same : t.b ≡ s.b % adler_mod

module _ (start : Block ℕ) (bytes : (i : ℕ) → start i < 256) where
  Within-add_byte :
      (k next : ℕ) (s : Adler)
      → k < max_adler_buf
      → Within k s
      → Within (suc k) (add_byte start next s)
  unfolding add_byte triangle
  Within-add_byte k next s h w =
      let room = triangle_bound (suc k) (omega arith) in
      let byte = bytes next in
      record {
        a_bound = omega (arith, w.a_bound, byte);
        b_bound = omega (arith, w.a_bound, w.b_bound, byte, room);
      }

  Same-add_byte :
      (k next : ℕ) (s t : Adler)
      → k < max_adler_buf
      → Within k s
      → Same s t
      → Same (add_byte start next s) (ref_byte start next t)
  unfolding add_byte ref_byte triangle
  Same-add_byte k next s t h w e =
      let room = triangle_bound (suc k) (omega arith) in
      let byte = bytes next in
      record {
        a_same = omega (arith, w.a_bound, byte, e.a_same);
        b_same = omega (arith, w.a_bound, w.b_bound, byte, room, e.a_same, e.b_same);
      }

  run-Same :
      (n k next : ℕ) (s t : Adler)
      → k + n ≤ max_adler_buf
      → Within k s
      → Same s t
      → Same (for_range n next (add_byte start) s) (for_range n next (ref_byte start) t)
  unfolding for_range
  run-Same zero k next s t h w e = e
  run-Same (suc n) k next s t h w e =
      run-Same n (suc k) (suc next) (add_byte start next s) (ref_byte start next t) (omega arith)
        (Within-add_byte k next s (omega arith) w) (Same-add_byte k next s t (omega arith) w e)

  -- At most max_adler_buf bytes, from sums of 16 bits.
  pub buffer-Same :
      (n next : ℕ) (s t : Adler)
      → n ≤ max_adler_buf
      → s.a ≤ 65535
      → s.b ≤ 65535
      → Same s t
      → Same (for_range n next (add_byte start) s) (for_range n next (ref_byte start) t)
  unfolding triangle
  buffer-Same n next s t h ha hb e =
      run-Same n 0 next s t (omega arith) (record { a_bound = omega arith; b_bound = omega arith })
        e
