-- ===== src/Gf/Power.antt =====
-- The tables of erasure_code/ec_base.h as powers of 2 and their exponents, and a product as a
-- repeated doubling of one factor.
use cerasure.Base.{
  ℕ, zero, suc, ◌+◌, ◌-◌, ◌<◌, ◌≡◌, refl, ap, ◌∙◌, sym, arith, ◌≢◌, ltb, if◌then◌else◌, all_below,
  all_below-true, eq_below, ltb→lt, dec_lt, ◌≡⟨◌⟩◌, ◌∎,
}
use cerasure.Gf.{gff, gflog, gf_mul}
use cerasure.Gf.Double.{double, doubles, doubles-add, doubles-lt, doubles-zero}

gff_step : (i : ℕ) → i < 255 → gff (suc i) ≡ double (gff i)
gff_step =
    eq_below 255 (λ i. gff (suc i)) (λ i. double (gff i)) (unfold all_below double gff in refl)

pub gff-doubles : (i : ℕ) → i < 256 → gff i ≡ doubles i 1
unfolding doubles
gff-doubles zero h = unfold gff in refl
gff-doubles (suc i) h = gff_step i (omega arith) ∙ ap double (gff-doubles i (omega arith))

pub gflog-lt : (a : ℕ) → a ≢ 0 → a < 256 → gflog a < 256
gflog-lt zero ne h = absurd (ne refl)
gflog-lt (suc a) ne h = ltb→lt _ _ (
    all_below-true 255 (λ a. ltb (gflog (suc a)) 256) a (unfold all_below gflog in refl)
      (omega arith))

gff-gflog : (a : ℕ) → a ≢ 0 → a < 256 → gff (gflog a) ≡ a
gff-gflog zero ne h = absurd (ne refl)
gff-gflog (suc a) ne h =
    eq_below 255 (λ a. gff (gflog (suc a))) (λ a. suc a) (unfold all_below gff gflog in refl) a
      (omega arith)

-- A byte other than 0 is the power of 2 that its logarithm says.
pub doubles-gflog : (a : ℕ) → a ≢ 0 → a < 256 → doubles (gflog a) 1 ≡ a
doubles-gflog a ne h =
    sym (gff-doubles (gflog a) (omega (arith, gflog-lt a ne h))) ∙ gff-gflog a ne h

-- The powers repeat after 255 steps.
pub doubles_period : (x : ℕ) → x < 256 → doubles 255 x ≡ x
doubles_period zero h = doubles-zero 255
doubles_period (suc x) h =
    doubles 255 (suc x)
    ≡⟨ ap (doubles 255) (sym (doubles-gflog (suc x) (omega arith) h)) ⟩ doubles 255 (doubles l 1)
    ≡⟨ sym (doubles-add 255 l 1) ⟩ doubles (255 + l) 1
    ≡⟨ ap (λ (t : ℕ). doubles t 1) {x = 255 + l} (omega arith) ⟩ doubles (l + 255) 1
    ≡⟨ doubles-add l 255 1 ⟩ doubles l (doubles 255 1)
    ≡⟨ ap (doubles l) (sym (gff-doubles 255 (omega arith))) ⟩ doubles l (gff 255)
    ≡⟨ ap (doubles l) gff_last ⟩ doubles l 1
    ≡⟨ doubles-gflog (suc x) (omega arith) h ⟩ suc x ∎
  where
    l : ℕ
    l = gflog (suc x)

    gff_last : gff 255 ≡ 1
    gff_last = unfold gff in refl

gf_mul_index :
    (a b : ℕ)
    → a ≢ 0
    → b ≢ 0
    → gf_mul a b
      ≡ gff (if ltb 254 (gflog a + gflog b) then gflog a + gflog b - 255 else gflog a + gflog b)
unfolding gf_mul
gf_mul_index a b na nb = ground arith

gf_mul_wraps :
    (a b : ℕ) → a ≢ 0 → b ≢ 0 → 254 < gflog a + gflog b → gf_mul a b ≡ gff (gflog a + gflog b - 255)
gf_mul_wraps a b na nb h = gf_mul_index a b na nb ∙ ground arith

gf_mul_direct :
    (a b : ℕ) → a ≢ 0 → b ≢ 0 → ¬ (254 < gflog a + gflog b) → gf_mul a b ≡ gff (gflog a + gflog b)
gf_mul_direct a b na nb h = gf_mul_index a b na nb ∙ ground arith

-- The product doubles one factor as often as the logarithm of the other says.
pub gf_mul-doubles : (a b : ℕ) → a ≢ 0 → a < 256 → b < 256 → gf_mul a b ≡ doubles (gflog a) b
gf_mul-doubles a zero na ha hb = unfold gf_mul in ground (arith, doubles-zero (gflog a))
gf_mul-doubles a (suc b) na ha hb = elim (dec_lt 254 (gflog a + gflog (suc b))) [
  | yes big ↦
      gf_mul a (suc b)
      ≡⟨ gf_mul_wraps a (suc b) na (omega arith) big ⟩ gff (gflog a + gflog (suc b) - 255)
      ≡⟨ gff-doubles _ (omega (arith, gflog-lt a na ha, gflog-lt (suc b) (omega arith) hb)) ⟩
        doubles (gflog a + gflog (suc b) - 255) 1
      ≡⟨ sym (doubles_period _ (doubles-lt _ 1 (omega arith))) ⟩
        doubles 255 (doubles (gflog a + gflog (suc b) - 255) 1)
      ≡⟨ sym (doubles-add 255 _ 1) ⟩ doubles (255 + (gflog a + gflog (suc b) - 255)) 1
      ≡⟨ ap (λ (t : ℕ). doubles t 1) (omega arith) ⟩ doubles (gflog a + gflog (suc b)) 1
      ≡⟨ sum_of_logs ⟩ doubles (gflog a) (suc b) ∎
  | no small ↦
      gf_mul a (suc b)
      ≡⟨ gf_mul_direct a (suc b) na (omega arith) small ⟩ gff (gflog a + gflog (suc b))
      ≡⟨ gff-doubles _ (omega (arith, small)) ⟩ doubles (gflog a + gflog (suc b)) 1
      ≡⟨ sum_of_logs ⟩ doubles (gflog a) (suc b) ∎
]
  where
    sum_of_logs : doubles (gflog a + gflog (suc b)) 1 ≡ doubles (gflog a) (suc b)
    sum_of_logs =
        doubles-add (gflog a) (gflog (suc b)) 1
        ∙ ap (doubles (gflog a)) (doubles-gflog (suc b) (omega arith) hb)
