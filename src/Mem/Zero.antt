-- ===== src/Mem/Zero.antt =====
-- The result of mem_zero_detect_base (mem/mem_zero_detect_base.c) against the bytes.
use cerasure.Base.{
  ℕ, zero, suc, ◌+◌, ◌-◌, ◌/◌, ◌<◌, ◌≤◌, ◌≡◌, ◌↔◌, refl, ap₂, subst, arith, Block, bit_or, ==_ne,
  ℕ_discrete, dec_lt,
}
use cerasure.Bits.{or_zero}
use cerasure.Mem.{
  Detected, all_zero, not_zero, load, Tail, or_byte, or_load, or_tail, scan_tail, scan_words,
  mem_zero_detect_base,
}

-- The bytes from one offset up to another are 0.
abbrev pub AllZero : Block ℕ → ℕ → ℕ → Type 0
AllZero buf from to = (i : ℕ) → from ≤ i → i < to → buf i ≡ 0

module _ (buf : Block ℕ) where
  -- A value that is 0 exactly when the bytes are.
  record Tells (from to a : ℕ) : Type 0 where
    zeros : a ≡ 0 → AllZero buf from to
    is_zero : AllZero buf from to → a ≡ 0

  Tells-load : (width c : ℕ) → Tells c (c + width) (load width buf c)
  unfolding load
  Tells-load zero c = record { zeros = λ e i lo hi. absurd (omega arith); is_zero = λ all. refl }
  Tells-load (suc width) c =
      let rest = Tells-load width (c + 1) in
      record {
        zeros = λ e i lo hi. elim (ℕ_discrete c i) [
          | yes same ↦ rw (← same) (omega (arith, e))
          | no ne ↦ rest.zeros (omega (arith, e)) i (omega (arith, ne)) (omega arith)
        ];
        is_zero = λ all. omega (
          arith,
          all c (omega arith) (omega arith),
          rest.is_zero (λ i lo hi. all i (omega arith) (omega arith)),
        );
      }

  Tells-byte : (c : ℕ) → Tells c (c + 1) (buf c)
  Tells-byte c = record {
    zeros = λ e i lo hi. let same : c ≡ i = omega arith in rw (← same) e;
    is_zero = λ all. all c (omega arith) (omega arith);
  }

  Tells-or :
      (from mid to a x : ℕ)
      → from ≤ mid
      → mid ≤ to
      → Tells from mid a
      → Tells mid to x
      → Tells from to (bit_or a x)
  Tells-or from mid to a x lo hi t u = record {
    zeros = λ e i hl hh.
        let both = or_zero a x e in
        elim (dec_lt i mid) [
          | yes lt ↦ t.zeros both.0 i hl lt
          | no ge ↦ u.zeros both.1 i (omega (arith, ge)) hh
        ];
    is_zero = λ all.
        ap₂ bit_or (t.is_zero (λ i hl hh. all i hl (omega arith)))
          (u.is_zero (λ i hl hh. all i (omega arith) hh));
  }

  Tells-or_byte :
      (from : ℕ) (s : Tail)
      → from ≤ s.c
      → Tells from s.c s.a
      → Tells from (or_byte buf s).c (or_byte buf s).a
  unfolding or_byte
  Tells-or_byte from s lo t =
      Tells-or from s.c (s.c + 1) s.a (buf s.c) lo (omega arith) t (Tells-byte s.c)

  Tells-or_load :
      (from width : ℕ) (s : Tail)
      → from ≤ s.c
      → Tells from s.c s.a
      → Tells from (s.c + width) (or_load width buf s).a
  unfolding or_load
  Tells-or_load from width s lo t =
      Tells-or from s.c (s.c + width) s.a (load width buf s.c) lo (omega arith) t
        (Tells-load width s.c)

  -- Nothing seen yet.
  Tells-nothing : (c : ℕ) → Tells c c 0
  Tells-nothing c = record { zeros = λ e i lo hi. absurd (omega arith); is_zero = λ all. refl }

  Tells-end : {from to to' a : ℕ} → to ≡ to' → Tells from to a → Tells from to' a
  Tells-end {from} {to} {to'} {a} e t = subst (λ (x : ℕ). Tells from x a) e t

  abbrev start : ℕ → Tail
  start c = record { c = c; a = 0 }

  Tells-or_tail : (n c : ℕ) → n < 8 → Tells c (c + n) (or_tail buf n (record { c = c; a = 0 })).a
  unfolding or_tail or_byte or_load
  Tells-or_tail zero c h = Tells-end (omega arith) (Tells-nothing c)
  Tells-or_tail (suc zero) c h = Tells-or_byte c (start c) (omega arith) (Tells-nothing c)
  Tells-or_tail (suc (suc zero)) c h =
      Tells-end (omega arith) (Tells-or_load c 2 (start c) (omega arith) (Tells-nothing c))
  Tells-or_tail (suc (suc (suc zero))) c h = Tells-end (omega arith) (
      Tells-or_load c 2 (or_byte buf (start c)) (omega arith)
        (Tells-or_byte c (start c) (omega arith) (Tells-nothing c)))
  Tells-or_tail (suc (suc (suc (suc zero)))) c h =
      Tells-end (omega arith) (Tells-or_load c 4 (start c) (omega arith) (Tells-nothing c))
  Tells-or_tail (suc (suc (suc (suc (suc zero))))) c h = Tells-end (omega arith) (
      Tells-or_load c 4 (or_byte buf (start c)) (omega arith)
        (Tells-or_byte c (start c) (omega arith) (Tells-nothing c)))
  Tells-or_tail (suc (suc (suc (suc (suc (suc zero)))))) c h = Tells-end (omega arith) (
      Tells-or_load c 4 (or_byte buf (or_byte buf (start c))) (omega arith) (
        Tells-or_byte c (or_byte buf (start c)) (omega arith)
          (Tells-or_byte c (start c) (omega arith) (Tells-nothing c))))
  Tells-or_tail (suc (suc (suc (suc (suc (suc (suc zero))))))) c h = Tells-end (omega arith) (
      Tells-or_load c 4 (or_byte buf (or_byte buf (or_byte buf (start c)))) (omega arith) (
        Tells-or_byte c (or_byte buf (or_byte buf (start c))) (omega arith) (
          Tells-or_byte c (or_byte buf (start c)) (omega arith)
            (Tells-or_byte c (start c) (omega arith) (Tells-nothing c)))))
  Tells-or_tail (suc (suc (suc (suc (suc (suc (suc (suc n)))))))) c h = absurd (omega arith)

  -- What each return says of the bytes from c on.
  abbrev Says : ℕ → ℕ → Detected → Type 0
  Says c n all_zero = AllZero buf c (c + n)
  Says c n not_zero = ¬ (AllZero buf c (c + n))

  Says-scan_tail : (n c : ℕ) → n < 8 → Says c n (scan_tail buf n c)
  unfolding scan_tail
  Says-scan_tail n c h =
      let t = Tells-or_tail n c h in
      elim (ℕ_discrete (or_tail buf n (record { c = c; a = 0 })).a 0) [
        | yes e ↦ rw e (t.zeros e)
        | no ne ↦ rw (==_ne _ 0 ne) (λ all. ne (t.is_zero all))
      ]

  Says-later :
      (n c : ℕ) (result : Detected)
      → 8 ≤ n
      → AllZero buf c (c + 8)
      → Says (c + 8) (n - 8) result
      → Says c n result
  Says-later n c all_zero le first rest = λ i lo hi. elim (dec_lt i (c + 8)) [
    | yes lt ↦ first i lo lt
    | no ge ↦ rest i (omega (arith, ge)) (omega arith)
  ]
  Says-later n c not_zero le first rest = λ all. rest (λ i lo hi. all i (omega arith) (omega arith))

  Says-scan_words : (rounds n c : ℕ) → n / 8 ≡ rounds → Says c n (scan_words buf rounds n c)
  unfolding scan_words
  Says-scan_words zero n c e = Says-scan_tail n c (omega arith)
  Says-scan_words (suc rounds) n c e =
      let t = Tells-load 8 c in
      elim (ℕ_discrete (load 8 buf c) 0) [
        | yes z ↦ rw z (
            Says-later n c _ (omega arith) (t.zeros z)
              (Says-scan_words rounds (n - 8) (c + 8) (omega arith)))
        | no nz ↦ rw (==_ne _ 0 nz) (λ all. nz (t.is_zero (λ i lo hi. all i lo (omega arith))))
      ]

  Says-result :
      (n : ℕ) (result : Detected)
      → Says 0 n result
      → (result ≡ all_zero) ↔ ((i : ℕ) → i < n → buf i ≡ 0)
  Says-result n all_zero says = ((λ e i hi. says i (omega arith) (omega arith)), (λ all. refl))
  Says-result n not_zero says = ((λ e. cc), (λ all. absurd (says (λ i lo hi. all i (omega arith)))))

  -- mem_zero_detect_base returns 0 exactly when the first n bytes are 0.
  pub mem_zero_detect_base-zero :
      (n : ℕ) → (mem_zero_detect_base buf n ≡ all_zero) ↔ ((i : ℕ) → i < n → buf i ≡ 0)
  unfolding mem_zero_detect_base
  mem_zero_detect_base-zero n = Says-result n _ (Says-scan_words (n / 8) n 0 refl)
