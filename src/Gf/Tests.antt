-- ===== src/Gf/Tests.antt =====
-- The arithmetic at single bytes, and the theorems about it at inputs that meet their hypotheses.
use cerasure.Base.{◌≡◌, refl, arith}
use cerasure.Bits.{◌⊕◌}
use cerasure.Gf.{gf_mul, gf_inv}
use cerasure.Gf.Laws.{gf_mul-gf_inv, gf_mul_ring}
use cerasure.Gf.Poly.{gf_mul-poly_mul, poly_mul}

products : (gf_mul 0x80 2 ≡ 0x1d) × (gf_mul 1 1 ≡ 1) × (gf_mul 0x53 0xca ≡ 143) × (gf_inv 1 ≡ 1)
unfolding gf_mul gf_inv
products = (refl, refl, refl, refl)

gf_mul-poly_mul_example : gf_mul 0x53 0xca ≡ poly_mul 8 0x53 0xca
gf_mul-poly_mul_example = gf_mul-poly_mul 0x53 0xca (omega arith) (omega arith)

gf_mul-gf_inv_example : gf_mul 0x53 (gf_inv 0x53) ≡ 1
gf_mul-gf_inv_example = gf_mul-gf_inv 0x53 (omega arith) (omega arith)

gf_mul_ring_example :
    (gf_mul (gf_mul 0x53 0xca) 7 ≡ gf_mul 0x53 (gf_mul 0xca 7))
    × (gf_mul 0x53 0xca ≡ gf_mul 0xca 0x53)
    × (gf_mul 0x53 (0xca ⊕ 7) ≡ gf_mul 0x53 0xca ⊕ gf_mul 0x53 7)
gf_mul_ring_example = gf_mul_ring 0x53 0xca 7 (omega arith) (omega arith) (omega arith)
