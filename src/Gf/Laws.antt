-- ===== src/Gf/Laws.antt =====
-- The laws of `gf_mul` and `gf_inv` on bytes, as the matrix code asks for them.
use cerasure.Base.{
  ℕ, zero, suc, ◌+◌, ◌-◌, ◌<◌, ◌^◌, ◌≡◌, refl, ap, ◌∙◌, sym, arith, ◌≢◌, ◌≡⟨◌⟩◌, ◌∎, ==_ne,
}
use cerasure.Bits.{◌⊕◌, xor-lt}
use cerasure.Field.{Field}
use cerasure.Gf.{gff, gflog, gf_mul, gf_inv}
use cerasure.Gf.Double.{doubles, doubles-add, doubles-lt, doubles-xor}
use cerasure.Gf.Power.{gf_mul-doubles, gff-doubles, gflog-lt, doubles_period}

pub zero-gf_mul : (b : ℕ) → gf_mul 0 b ≡ 0
unfolding gf_mul
zero-gf_mul b = ground arith

pub gf_mul-zero : (a : ℕ) → gf_mul a 0 ≡ 0
unfolding gf_mul
gf_mul-zero a = ground arith

pub gf_mul_comm : (a b : ℕ) → gf_mul a b ≡ gf_mul b a
unfolding gf_mul
gf_mul_comm a b = ground arith

pub gf_mul-lt : (a b : ℕ) → a < 256 → b < 256 → gf_mul a b < 256
gf_mul-lt zero b ha hb = omega (arith, zero-gf_mul b)
gf_mul-lt (suc a) b ha hb =
    omega (arith, gf_mul-doubles (suc a) b (omega arith) ha hb, doubles-lt (gflog (suc a)) b hb)

-- On bytes the product distributes over exclusive or.
pub gf_mul-xor :
    (a b c : ℕ) → a < 256 → b < 256 → c < 256 → gf_mul a (b ⊕ c) ≡ gf_mul a b ⊕ gf_mul a c
gf_mul-xor zero b c ha hb hc = simp zero-gf_mul
gf_mul-xor (suc a) b c ha hb hc =
    simp
      (
        gf_mul-doubles (suc a) (b ⊕ c) (omega arith) ha (xor-lt 8 b c hb hc),
        gf_mul-doubles (suc a) b (omega arith) ha hb,
        gf_mul-doubles (suc a) c (omega arith) ha hc,
      )
      (doubles-xor (gflog (suc a)) b c hb hc)

doubles_comm : (n m x : ℕ) → doubles n (doubles m x) ≡ doubles m (doubles n x)
doubles_comm n m x =
    sym (doubles-add n m x)
    ∙ ap (λ (t : ℕ). doubles t x) {x = n + m} {y = m + n} (omega arith)
    ∙ doubles-add m n x

-- Two multiplications by fixed factors commute, which with commutativity is associativity.
gf_mul_left_comm :
    (a b c : ℕ) → a < 256 → b < 256 → c < 256 → gf_mul a (gf_mul b c) ≡ gf_mul b (gf_mul a c)
gf_mul_left_comm zero b c ha hb hc = simp (zero-gf_mul, gf_mul-zero)
gf_mul_left_comm (suc a) zero c ha hb hc = simp (zero-gf_mul, gf_mul-zero)
gf_mul_left_comm (suc a) (suc b) c ha hb hc =
    gf_mul-doubles (suc a) _ (omega arith) ha (gf_mul-lt (suc b) c hb hc)
    ∙ ap (doubles (gflog (suc a))) (gf_mul-doubles (suc b) c (omega arith) hb hc)
    ∙ doubles_comm (gflog (suc a)) (gflog (suc b)) c
    ∙ ap (doubles (gflog (suc b))) (sym (gf_mul-doubles (suc a) c (omega arith) ha hc))
    ∙ sym (gf_mul-doubles (suc b) _ (omega arith) hb (gf_mul-lt (suc a) c ha hc))

-- On bytes the product is associative.
pub gf_mul_assoc :
    (a b c : ℕ) → a < 256 → b < 256 → c < 256 → gf_mul (gf_mul a b) c ≡ gf_mul a (gf_mul b c)
gf_mul_assoc a b c ha hb hc =
    gf_mul_comm (gf_mul a b) c ∙ gf_mul_left_comm c a b hc ha hb ∙ ap (gf_mul a) (gf_mul_comm c b)

-- On bytes, gf_mul is associative, commutes, and distributes over exclusive or.
pub gf_mul_ring :
    (a b c : ℕ)
    → a < 256
    → b < 256
    → c < 256
    → (gf_mul (gf_mul a b) c ≡ gf_mul a (gf_mul b c))
      × (gf_mul a b ≡ gf_mul b a)
      × (gf_mul a (b ⊕ c) ≡ gf_mul a b ⊕ gf_mul a c)
gf_mul_ring a b c ha hb hc =
    (gf_mul_assoc a b c ha hb hc, gf_mul_comm a b, gf_mul-xor a b c ha hb hc)

pub one-gf_mul : (b : ℕ) → b < 256 → gf_mul 1 b ≡ b
one-gf_mul b hb =
    gf_mul-doubles 1 b (omega arith) (omega arith) hb ∙ log_of_one ∙ doubles_period b hb
  where
    log_of_one : doubles (gflog 1) b ≡ doubles 255 b
    log_of_one = unfold gflog in refl

gf_inv-gff : (a : ℕ) → a ≢ 0 → gf_inv a ≡ gff (255 - gflog a)
unfolding gf_inv
gf_inv-gff a na = rw (==_ne a 0 na)

pub gf_inv-lt : (a : ℕ) → gf_inv a < 256
gf_inv-lt zero = unfold gf_inv in omega arith
gf_inv-lt (suc a) = omega (
  arith,
  gf_inv-gff (suc a) (omega arith),
  gff-doubles (255 - gflog (suc a)) (omega arith),
  doubles-lt (255 - gflog (suc a)) 1 (omega arith),
)

-- The product of a byte other than 0 and what `gf_inv` gives for it is 1.
pub gf_mul-gf_inv : (a : ℕ) → a ≢ 0 → a < 256 → gf_mul a (gf_inv a) ≡ 1
gf_mul-gf_inv a na ha =
    gf_mul a (gf_inv a)
    ≡⟨ gf_mul-doubles a (gf_inv a) na ha (gf_inv-lt a) ⟩ doubles l (gf_inv a)
    ≡⟨ ap (doubles l) inverse_power ⟩ doubles l (doubles (255 - l) 1)
    ≡⟨ sym (doubles-add l (255 - l) 1) ⟩ doubles (l + (255 - l)) 1
    ≡⟨ ap (λ (t : ℕ). doubles t 1) {x = l + (255 - l)} (omega (arith, gflog-lt a na ha)) ⟩
      doubles 255 1
    ≡⟨ doubles_period 1 (omega arith) ⟩ 1 ∎
  where
    l : ℕ
    l = gflog a

    inverse_power : gf_inv a ≡ doubles (255 - l) 1
    inverse_power = gf_inv-gff a na ∙ gff-doubles (255 - l) (omega arith)

-- The interface of the matrix code, filled.
abbrev pub gf_field : Field
gf_field = record {
  bits = 8;
  mul = gf_mul;
  inv = gf_inv;
  one-lt = one_byte;
  mul-lt = gf_mul-lt;
  inv-lt = λ a na h. gf_inv-lt a;
  mul_comm = λ a b ha hb. gf_mul_comm a b;
  mul_assoc = gf_mul_assoc;
  mul-xor = gf_mul-xor;
  zero-mul = λ b hb. zero-gf_mul b;
  one-mul = one-gf_mul;
  mul-inv = gf_mul-gf_inv;
}
  where
    one_byte : 1 < 2 ^ 8
    one_byte = omega arith
