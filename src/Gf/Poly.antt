-- ===== src/Gf/Poly.antt =====
-- The product of two polynomials over GF(2), reduced by x^8 + x^4 + x^3 + x^2 + 1.
use cerasure.Base.{
  ℕ, zero, suc, ◌/◌, ◌%◌, ◌<◌, ◌≡◌, refl, ap, ap₂, ◌∙◌, sym, arith, ◌==◌, if◌then◌else◌, all_below,
  eq_below, Bool, true, false,
}
use cerasure.Bits.{◌⊕◌, xor-lt}
use cerasure.Gf.{gf_mul, gflog}
use cerasure.Gf.Double.{double, double-lt, doubles, doubles-xor, doubles-zero}
use cerasure.Gf.Power.{gf_mul-doubles, doubles-gflog}
use cerasure.Gf.Laws.{zero-gf_mul}

-- The digits of `b`, lowest first, choose which of the doubles of `a` are added.
pub poly_mul : ℕ → ℕ → ℕ → ℕ
poly_mul zero a b = 0
poly_mul (suc n) a b = (if b % 2 == 0 then 0 else a) ⊕ poly_mul n (double a) (b / 2)

poly_mul-lt : (n a b : ℕ) → a < 256 → poly_mul n a b < 256
unfolding poly_mul
poly_mul-lt zero a b h = omega arith
poly_mul-lt (suc n) a b h =
    xor-lt 8 (if b % 2 == 0 then 0 else a) (poly_mul n (double a) (b / 2)) (ground arith)
      (poly_mul-lt n (double a) (b / 2) (double-lt a))

doubles-choose :
    (l a : ℕ) (t : Bool) → doubles l (if t then 0 else a) ≡ (if t then 0 else doubles l a)
doubles-choose l a true = doubles-zero l
doubles-choose l a false = refl

double-doubles : (l a : ℕ) → double (doubles l a) ≡ doubles l (double a)
unfolding doubles
double-doubles zero a = refl
double-doubles (suc l) a = ap double (double-doubles l a)

poly_mul-doubles : (n l a b : ℕ) → a < 256 → poly_mul n (doubles l a) b ≡ doubles l (poly_mul n a b)
unfolding poly_mul
poly_mul-doubles zero l a b h = sym (doubles-zero l)
poly_mul-doubles (suc n) l a b h =
    ap₂ ◌⊕◌ (sym (doubles-choose l a (b % 2 == 0))) (
      ap (λ (t : ℕ). poly_mul n t (b / 2)) (double-doubles l a)
      ∙ poly_mul-doubles n l (double a) (b / 2) (double-lt a))
    ∙ sym (doubles-xor l _ _ (ground arith) (poly_mul-lt n (double a) (b / 2) (double-lt a)))

double-zero : double 0 ≡ 0
unfolding double
double-zero = refl

poly_mul-zero : (n b : ℕ) → poly_mul n 0 b ≡ 0
unfolding poly_mul
poly_mul-zero zero b = refl
poly_mul-zero (suc n) b =
    ap₂ ◌⊕◌ {x = if b % 2 == 0 then 0 else 0} {y = 0} (ground arith)
      (ap (λ (t : ℕ). poly_mul n t (b / 2)) double-zero ∙ poly_mul-zero n (b / 2))

one-poly_mul : (b : ℕ) → b < 256 → poly_mul 8 1 b ≡ b
one-poly_mul = eq_below 256 (poly_mul 8 1) (λ b. b) (unfold all_below poly_mul double in refl)

-- The table product of two bytes is their product as polynomials over GF(2) modulo
-- x^8 + x^4 + x^3 + x^2 + 1.
pub gf_mul-poly_mul : (a b : ℕ) → a < 256 → b < 256 → gf_mul a b ≡ poly_mul 8 a b
gf_mul-poly_mul zero b ha hb = zero-gf_mul b ∙ sym (poly_mul-zero 8 b)
gf_mul-poly_mul (suc a) b ha hb =
    gf_mul-doubles (suc a) b (omega arith) ha hb
    ∙ ap (doubles (gflog (suc a))) (sym (one-poly_mul b hb))
    ∙ sym (poly_mul-doubles 8 (gflog (suc a)) 1 b (omega arith))
    ∙ ap (λ (t : ℕ). poly_mul 8 t b) (doubles-gflog (suc a) (omega arith) ha)
