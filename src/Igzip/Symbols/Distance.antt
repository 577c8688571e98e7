-- ===== src/Igzip/Symbols/Distance.antt =====
-- The symbol and the extra bits of a distance (igzip/huffman.h, igzip/huff_codes.c), against the
-- table of igzip/igzip_inflate.c.
use native.Mathlib.Nat.{pow-suc, div-add-mod', mod-lt, one-le-pow, pow-le-pow_right}
use cerasure.Base.{
  ℕ, zero, suc, ◌+◌, ◌-◌, ◌*◌, ◌/◌, ◌%◌, ◌^◌, ◌<◌, ◌≤◌, ◌≡◌, ◌⊎◌, inl, inr, refl, sym, ap, ◌∙◌,
  arith, bit_and, get_or, eq_below, all_below, row_of_offset, ltb, lt→ltb, ltb_no, leb_yes, leb_no,
  if◌then◌else◌, ==_ne, dec_lt, ℕ_discrete,
}
use cerasure.Bits.{bit_and_mask}
use cerasure.Igzip.Symbols.{
  bsr_from, bsr, DistCode, compute_dist_icf_code, get_dist_icf_code, convert_dist_to_dist_sym,
  dist_start, dist_extra_bit_count,
}

-- The place of the highest bit.
record IsTop (v m : ℕ) : Type 0 where
  at_least : 2 ^ m ≤ v
  below : v < 2 ^ suc m

bsr_from-zero : (left : ℕ) → bsr_from left 0 ≡ 0
unfolding bsr_from
bsr_from-zero zero = refl
bsr_from-zero (suc left) = refl

bsr_from-IsTop :
    (left v : ℕ)
    → 0 < v
    → v < 2 ^ left
    → (m : ℕ) × (m < left) × (bsr_from left v ≡ suc m) × IsTop v m
unfolding bsr_from
bsr_from-IsTop zero v pos h = absurd (omega arith)
bsr_from-IsTop (suc left) v pos h = rw (==_ne v 0 (omega arith)) (elim (ℕ_discrete (v / 2) 0) [
  | yes z ↦ (
    0,
    omega arith,
    ap suc (ap (bsr_from left) z ∙ bsr_from-zero left),
    record { at_least = omega arith; below = omega (arith, z) },
  )
  | no nz ↦
      let (m, inside, e, top) =
        bsr_from-IsTop left (v / 2) (omega (arith, nz)) (omega (arith, pow-suc 2 left)) in
      (
        suc m,
        omega arith,
        ap suc e,
        record {
          at_least = omega (arith, pow-suc 2 m, top.at_least);
          below = omega (arith, pow-suc 2 (suc m), top.below);
        },
      )
])

-- A word between 2 and 4 times a power.
record IsSplit (d e q r : ℕ) : Type 0 where
  quotient : d / 2 ^ e ≡ q
  two_or_three : (q ≡ 2) ⊎ (q ≡ 3)
  remainder : bit_and d (2 ^ e - 1) ≡ r
  inside : r < 2 ^ e
  whole : q * 2 ^ e + r ≡ d

IsSplit-IsTop : (d e : ℕ) → IsTop d (suc e) → IsSplit d e (d / 2 ^ e) (d % 2 ^ e)
IsSplit-IsTop d e t = record {
  quotient = refl;
  two_or_three = elim (dec_lt d (3 * 2 ^ e)) [
    | yes less ↦ inl (
        ap (λ (t : ℕ). t / 2 ^ e) {x = d} {y = 2 * 2 ^ e + (d - 2 * 2 ^ e)}
          (omega (arith, pow-suc 2 e, t.at_least))
        ∙ row_of_offset (2 ^ e) 2 (d - 2 * 2 ^ e) (omega (arith, pow-suc 2 e, t.at_least)))
    | no more ↦ inr (
        ap (λ (t : ℕ). t / 2 ^ e) {x = d} {y = 3 * 2 ^ e + (d - 3 * 2 ^ e)} (omega (arith, more))
        ∙ row_of_offset (2 ^ e) 3 (d - 3 * 2 ^ e)
            (omega (arith, more, pow-suc 2 e, pow-suc 2 (suc e), t.below)))
  ];
  remainder = bit_and_mask e d;
  inside = mod-lt d (one-le-pow e 2 (omega arith));
  whole = div-add-mod' d (2 ^ e);
}

start_of_two : (e : ℕ) → e < 14 → get_or dist_start (2 + 2 * e) 0 ≡ 2 * 2 ^ e + 1
start_of_two =
    eq_below 14 (λ e. get_or dist_start (2 + 2 * e) 0) (λ e. 2 * 2 ^ e + 1)
      (unfold all_below in refl)

start_of_three : (e : ℕ) → e < 14 → get_or dist_start (3 + 2 * e) 0 ≡ 3 * 2 ^ e + 1
start_of_three =
    eq_below 14 (λ e. get_or dist_start (3 + 2 * e) 0) (λ e. 3 * 2 ^ e + 1)
      (unfold all_below in refl)

extra_of_two : (e : ℕ) → e < 14 → get_or dist_extra_bit_count (2 + 2 * e) 0 ≡ e
extra_of_two =
    eq_below 14 (λ e. get_or dist_extra_bit_count (2 + 2 * e) 0) (λ e. e) (unfold all_below in refl)

extra_of_three : (e : ℕ) → e < 14 → get_or dist_extra_bit_count (3 + 2 * e) 0 ≡ e
extra_of_three =
    eq_below 14 (λ e. get_or dist_extra_bit_count (3 + 2 * e) 0) (λ e. e) (unfold all_below in refl)

-- The symbol stands for the distances from one on, as many as its extra bits can tell apart.
starts :
    (e q : ℕ)
    → e < 14
    → (q ≡ 2) ⊎ (q ≡ 3)
    → (get_or dist_start (q + 2 * e) 0 ≡ q * 2 ^ e + 1)
      × (get_or dist_extra_bit_count (q + 2 * e) 0 ≡ e)
starts e q h (inl two) = rw two (start_of_two e h, extra_of_two e h)
starts e q h (inr three) = rw three (start_of_three e h, extra_of_three e h)

top_shape : (d m : ℕ) → 2 ≤ d → d < 2 ^ 15 → IsTop d m → (e : ℕ) × (e < 14) × (m ≡ suc e)
top_shape d zero lo hi t = absurd (omega (arith, t.below))
top_shape d (suc e) lo hi t = elim (dec_lt e 14) [
  | yes h ↦ (e, h, refl)
  | no more ↦ absurd (
      omega (
        arith,
        t.at_least,
        pow-le-pow_right {n = 2} (omega arith) {i = 15} {j = suc e} (omega (arith, more)),
      ))
]

-- A distance of 3 or more, less one.
record Shape (d : ℕ) : Type 0 where
  bits : ℕ
  few : bits < 14
  width : bsr d - 2 ≡ bits
  top : IsTop d (suc bits)

shape : (d : ℕ) → 2 ≤ d → d < 2 ^ 15 → Shape d
shape d lo hi =
    let (m, inside, e, t) = bsr_from-IsTop 32 d (omega arith) (omega arith) in
    let (bits, few, m_is) = top_shape d m lo hi t in
    record { bits = bits; few = few; width = omega (arith, e, m_is); top = rw m_is at t }

small_shape : (d bits : ℕ) → d ≤ 3 → IsTop d (suc bits) → bits ≡ 0
small_shape d zero h t = refl
small_shape d (suc bits) h t = absurd (
    omega (
      arith,
      t.at_least,
      pow-le-pow_right {n = 2} (omega arith) {i = 2} {j = suc (suc bits)} (omega arith),
    ))

-- What is claimed of a distance and its code.
abbrev pub IsRead : ℕ → DistCode → Type 0
IsRead dist c =
    (get_or dist_start c.code 0 + c.extra_bits ≡ dist)
    × (c.extra_bits < 2 ^ get_or dist_extra_bit_count c.code 0)
    × (c.code < 30)

compute-IsRead : (d : ℕ) → 2 ≤ d → d < 2 ^ 15 → IsRead (suc d) (compute_dist_icf_code (suc d))
unfolding compute_dist_icf_code
compute-IsRead d lo hi =
    let s = shape d lo hi in
    let split = IsSplit-IsTop d s.bits s.top in
    let (start, extra) = starts s.bits (d / 2 ^ s.bits) s.few split.two_or_three in
    let back : suc d - 1 ≡ d = omega arith in
    rw (back, s.width, split.remainder, start, extra)
      (
        omega (arith, split.whole),
        split.inside,
        elim split.two_or_three [
          | inl two ↦ omega (arith, two, s.few)
          | inr three ↦ omega (arith, three, s.few)
        ],
      )

-- The shift of convert_dist_to_dist_sym is the number of extra bits.
shift : (d : ℕ) (s : Shape d) → (if ltb 4 (suc d) then bsr d - 2 else 0) ≡ s.bits
shift d s = elim (dec_lt 4 (suc d)) [
  | yes more ↦ rw (lt→ltb 4 (suc d) more) s.width
  | no few ↦ rw (ltb_no 4 (suc d) few) (sym (small_shape d s.bits (omega (arith, few)) s.top))
]

convert-code :
    (d : ℕ)
    → 2 ≤ d
    → d < 2 ^ 15
    → convert_dist_to_dist_sym (suc d) ≡ (compute_dist_icf_code (suc d)).code
unfolding compute_dist_icf_code convert_dist_to_dist_sym
convert-code d lo hi =
    let s = shape d lo hi in
    let back : suc d - 1 ≡ d = omega arith in
    rw (back, shift d s, s.width, leb_yes (suc d) 32768 (omega arith)) (omega arith)

-- For every distance from 1 to 32768, the code and the extra bits of `get_dist_icf_code` are ones that
-- inflate reads back as that distance: the first distance of the code plus the extra bits, which
-- fit the bits of the code. The code is less than 30, and is what `convert_dist_to_dist_sym` gives.
pub get_dist_icf_code-dist_start :
    (dist : ℕ)
    → 1 ≤ dist
    → dist ≤ 32768
    → IsRead dist (get_dist_icf_code dist)
      × (convert_dist_to_dist_sym dist ≡ (get_dist_icf_code dist).code)
get_dist_icf_code-dist_start zero lo hi = absurd (omega arith)
get_dist_icf_code-dist_start (suc zero) lo hi =
    unfold get_dist_icf_code convert_dist_to_dist_sym in ((refl, omega arith, omega arith), refl)
get_dist_icf_code-dist_start (suc (suc zero)) lo hi =
    unfold get_dist_icf_code convert_dist_to_dist_sym in ((refl, omega arith, omega arith), refl)
get_dist_icf_code-dist_start (suc (suc (suc n))) lo hi =
    let d = suc (suc n) in
    let large : get_dist_icf_code (suc d) ≡ compute_dist_icf_code (suc d) =
      unfold get_dist_icf_code in rw (leb_no (suc d) 2 (omega arith)) refl in
    rw large
      (compute-IsRead d (omega arith) (omega arith), convert-code d (omega arith) (omega arith))
