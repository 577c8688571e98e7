-- ===== src/Raid/Lanes.antt =====
-- The expression of `pq_gen_base` of raid/raid_base.c that doubles eight bytes in one word.
use native.Mathlib.Nat.{pow-suc, mul_assoc, mul-add}
use Prim.Native.Nat.{min}
use cerasure.Base.{
  ℕ, zero, suc, ◌+◌, ◌*◌, ◌/◌, ◌%◌, ◌^◌, bit_and, ◌<◌, ◌≡◌, refl, sym, ap, ap₂, ◌∙◌, arith,
  eq_below, all_below,
}
use cerasure.Bits.{
  ◌⊕◌, bit_and_step, bit_and-zero, bit_and_mask, xor-div, xor-mod, next_power, xor_fields,
}
use cerasure.Gf.Double.{double, double-lt}
use cerasure.Raid.{double_word}

and_fields :
    (k q r s t : ℕ)
    → r < 2 ^ k
    → t < 2 ^ k
    → bit_and (q * 2 ^ k + r) (s * 2 ^ k + t) ≡ bit_and q s * 2 ^ k + bit_and r t
and_fields zero q r s t hr ht =
    let r0 : r ≡ 0 = omega arith in
    let t0 : t ≡ 0 = omega arith in
    let l : q * 1 + 0 ≡ q = omega arith in
    let m : s * 1 + 0 ≡ s = omega arith in rw (r0, t0, l, m) (omega arith)
and_fields (suc k) q r s t hr ht = omega (
  arith,
  bit_and_step (q * 2 ^ suc k + r) (s * 2 ^ suc k + t),
  bit_and_step r t,
  ap₂ min {x = (q * 2 ^ suc k + r) % 2} {y = r % 2} {u = (s * 2 ^ suc k + t) % 2} {v = t % 2}
      (omega (arith, next_power q k)) (omega (arith, next_power s k)),
  next_power (bit_and q s) k,
  halves,
  and_fields k q (r / 2) s (t / 2) (omega (arith, pow-suc 2 k)) (omega (arith, pow-suc 2 k)),
)
  where
    halves :
        bit_and ((q * 2 ^ suc k + r) / 2) ((s * 2 ^ suc k + t) / 2)
        ≡ bit_and (q * 2 ^ k + r / 2) (s * 2 ^ k + t / 2)
    halves = ap₂ bit_and (omega (arith, next_power q k)) (omega (arith, next_power s k))

-- Byte k of a word, and the word of n bytes whose bytes f gives from those of another word.
unfoldable pub lane : ℕ → ℕ → ℕ
lane zero q = q % 256
lane (suc k) q = lane k (q / 256)

lanes : ℕ → (ℕ → ℕ) → ℕ → ℕ
lanes zero f q = 0
lanes (suc n) f q = lanes n f (q / 256) * 2 ^ 8 + f (q % 256)

abbrev Bytes : (ℕ → ℕ) → Type 0
Bytes f = (b : ℕ) → b < 256 → f b < 256

lanes_congr :
    (n : ℕ) (f g : ℕ → ℕ) (q : ℕ) → ((b : ℕ) → b < 256 → f b ≡ g b) → lanes n f q ≡ lanes n g q
unfolding lanes
lanes_congr zero f g q e = refl
lanes_congr (suc n) f g q e =
    ap₂ (λ (s t : ℕ). s * 2 ^ 8 + t) (lanes_congr n f g (q / 256) e) (e (q % 256) (omega arith))

regroup : (c a b : ℕ) → c * a * 2 ^ 8 + c * b ≡ c * (a * 2 ^ 8 + b)
regroup c a b = omega (arith, mul_assoc c a 256, mul-add c (a * 256) b)

lanes-scale : (n c : ℕ) (f : ℕ → ℕ) (q : ℕ) → lanes n (λ b. c * f b) q ≡ c * lanes n f q
unfolding lanes
lanes-scale zero c f q = omega arith
lanes-scale (suc n) c f q =
    ap (λ (t : ℕ). t * 2 ^ 8 + c * f (q % 256)) (lanes-scale n c f (q / 256))
    ∙ regroup c (lanes n f (q / 256)) (f (q % 256))

lanes-xor :
    (n : ℕ) (f g : ℕ → ℕ) (q : ℕ)
    → Bytes f
    → Bytes g
    → lanes n f q ⊕ lanes n g q ≡ lanes n (λ b. f b ⊕ g b) q
unfolding lanes
lanes-xor zero f g q hf hg = refl
lanes-xor (suc n) f g q hf hg =
    xor_fields 8 (lanes n f (q / 256)) (f (q % 256)) (lanes n g (q / 256)) (g (q % 256))
      (hf _ (omega arith)) (hg _ (omega arith))
    ∙ ap (λ (t : ℕ). t * 2 ^ 8 + (f (q % 256) ⊕ g (q % 256))) (lanes-xor n f g (q / 256) hf hg)

-- A mask that repeats one byte.
lanes-and :
    (n m : ℕ) (f : ℕ → ℕ) (q : ℕ)
    → m < 256
    → Bytes f
    → bit_and (lanes n f q) (lanes n (λ b. m) 0) ≡ lanes n (λ b. bit_and (f b) m) q
unfolding lanes
lanes-and zero m f q hm hf = refl
lanes-and (suc n) m f q hm hf =
    and_fields 8 (lanes n f (q / 256)) (f (q % 256)) (lanes n (λ b. m) 0) m (hf _ (omega arith)) hm
    ∙ ap (λ (t : ℕ). t * 2 ^ 8 + bit_and (f (q % 256)) m) (lanes-and n m f (q / 256) hm hf)

word-and : (n m q : ℕ) → m < 256 → bit_and q (lanes n (λ b. m) 0) ≡ lanes n (λ b. bit_and b m) q
unfolding lanes
word-and zero m q hm = bit_and-zero q
word-and (suc n) m q hm =
    ap (λ (t : ℕ). bit_and t (lanes n (λ b. m) 0 * 2 ^ 8 + m)) {x = q} (omega arith)
    ∙ and_fields 8 (q / 256) (q % 256) (lanes n (λ b. m) 0) m (omega arith) hm
    ∙ ap (λ (t : ℕ). t * 2 ^ 8 + bit_and (q % 256) m) (word-and n m (q / 256) hm)

lane-lanes : (n k : ℕ) (f : ℕ → ℕ) (q : ℕ) → k < n → Bytes f → lane k (lanes n f q) ≡ f (lane k q)
unfolding lane lanes
lane-lanes zero k f q hk hf = absurd (omega arith)
lane-lanes (suc n) zero f q hk hf = omega (arith, hf (q % 256) (omega arith))
lane-lanes (suc n) (suc k) f q hk hf =
    ap (lane k) (omega (arith, hf (q % 256) (omega arith)))
    ∙ lane-lanes n k f (q / 256) (omega arith) hf

lanes-lt : (n : ℕ) (f : ℕ → ℕ) (q : ℕ) → Bytes f → lanes n f q < 256 ^ n
unfolding lanes
lanes-lt zero f q hf = omega arith
lanes-lt (suc n) f q hf =
    omega (arith, pow-suc 256 n, lanes-lt n f (q / 256) hf, hf (q % 256) (omega arith))

-- Neither mask has the bit that leaves the word.
low_word : (q : ℕ) → bit_and (q * 2 % 2 ^ 64 / 2) 0x7f7f7f7f7f7f7f7f ≡ bit_and q 0x7f7f7f7f7f7f7f7f
low_word q =
    ap (λ (t : ℕ). bit_and t 0x7f7f7f7f7f7f7f7f) {x = q * 2 % 2 ^ 64 / 2} {y = q % 2 ^ 63}
      (omega arith)
    ∙ sym (
        ap (λ (t : ℕ). bit_and t 0x7f7f7f7f7f7f7f7f) {x = q} {y = q / 2 ^ 63 * 2 ^ 63 + q % 2 ^ 63}
          (omega arith)
        ∙ and_fields 63 (q / 2 ^ 63) (q % 2 ^ 63) 0 0x7f7f7f7f7f7f7f7f (omega arith) (omega arith)
        ∙ omega (arith, bit_and-zero (q / 2 ^ 63)))

shifted :
    (q : ℕ) → bit_and (q * 2 % 2 ^ 64) 0xfefefefefefefefe ≡ lanes 8 (λ b. 2 * bit_and b 0x7f) q
shifted q =
    let step = bit_and_step (q * 2 % 2 ^ 64) 0xfefefefefefefefe in
    let seven : bit_and q 0x7f7f7f7f7f7f7f7f ≡ lanes 8 (λ b. bit_and b 0x7f) q =
      unfold lanes in word-and 8 0x7f q (omega arith) in
    omega (arith, step, low_word q, seven, lanes-scale 8 2 (λ b. bit_and b 0x7f) q)

top_bit : (b : ℕ) → b < 256 → bit_and b 0x80 ≡ 128 * (b / 128)
top_bit = eq_below 256 (λ b. bit_and b 0x80) (λ b. 128 * (b / 128)) (unfold all_below in refl)

high : (q : ℕ) → bit_and q 0x8080808080808080 ≡ 128 * lanes 8 (λ b. b / 128) q
high q =
    let eight : bit_and q 0x8080808080808080 ≡ lanes 8 (λ b. bit_and b 0x80) q =
      unfold lanes in word-and 8 0x80 q (omega arith) in
    eight ∙ lanes_congr 8 _ _ q top_bit ∙ lanes-scale 8 128 (λ b. b / 128) q

polynomial :
    (q : ℕ)
    → bit_and (lanes 8 (λ b. 255 * (b / 128)) q) 0x1d1d1d1d1d1d1d1d
      ≡ lanes 8 (λ b. bit_and (255 * (b / 128)) 0x1d) q
polynomial q =
    unfold lanes in lanes-and 8 0x1d (λ b. 255 * (b / 128)) q (omega arith) (λ b h. omega arith)

double_bits : (b : ℕ) → b < 256 → (2 * bit_and b 0x7f) ⊕ bit_and (255 * (b / 128)) 0x1d ≡ double b
double_bits =
    eq_below 256 (λ b. (2 * bit_and b 0x7f) ⊕ bit_and (255 * (b / 128)) 0x1d) double
      (unfold all_below double in refl)

low_seven : (b : ℕ) → bit_and b 0x7f < 128
low_seven b = omega (arith, bit_and_mask 7 b)

poly_byte : Bytes (λ b. bit_and (255 * (b / 128)) 0x1d)
poly_byte b h =
    let table =
      eq_below 256 (λ b. bit_and (255 * (b / 128)) 0x1d) (λ b. b / 128 * 0x1d)
        (unfold all_below in refl) in
    omega (arith, table b h)

double_word-lanes : (q : ℕ) → double_word q ≡ lanes 8 double q
unfolding double_word
double_word-lanes q =
    let ones = lanes 8 (λ b. b / 128) q in
    let full = lanes-scale 8 255 (λ b. b / 128) q in
    let small : 255 * ones < 2 ^ 64 =
      omega (arith, full, lanes-lt 8 (λ b. 255 * (b / 128)) q (λ b h. omega arith)) in
    rw (shifted q, high q)
      (ap (λ (t : ℕ). lanes 8 (λ b. 2 * bit_and b 0x7f) q ⊕ bit_and t 0x1d1d1d1d1d1d1d1d)
          {y = lanes 8 (λ b. 255 * (b / 128)) q} (omega (arith, full, small))
        ∙ ap (λ (t : ℕ). lanes 8 (λ b. 2 * bit_and b 0x7f) q ⊕ t) (polynomial q)
        ∙ lanes-xor 8 _ _ q (λ b h. omega (arith, low_seven b)) poly_byte
        ∙ lanes_congr 8 _ _ q double_bits)

-- Each byte of the doubled word is the doubled byte.
pub lane-double_word : (k q : ℕ) → k < 8 → lane k (double_word q) ≡ double (lane k q)
lane-double_word k q hk =
    ap (lane k) (double_word-lanes q) ∙ lane-lanes 8 k double q hk (λ b h. double-lt b)

pub lane-xor : (k a b : ℕ) → lane k (a ⊕ b) ≡ lane k a ⊕ lane k b
unfolding lane
lane-xor zero a b = xor-mod 8 a b
lane-xor (suc k) a b = ap (lane k) (xor-div 8 a b) ∙ lane-xor k (a / 256) (b / 256)

pub lane-lt : (k q : ℕ) → lane k q < 256
unfolding lane
lane-lt zero q = omega arith
lane-lt (suc k) q = lane-lt k (q / 256)
