-- ===== src/XorMatch/Matching/Pending.antt =====
-- What the loop of bitmatrix_to_schedule_PGC_macthing (xorMatch/xorMatchCode.c) keeps from one row
-- of the bit matrix to the next.
use cerasure.Base.{
  ℕ, suc, ◌+◌, ◌*◌, ◌/◌, ◌%◌, ◌<◌, ◌≤◌, ◌≡◌, ◌≢◌, ◌⊎◌, inl, inr, refl, sym, ap, ◌∙◌, arith, Block,
  set, set_self, set_ne, ℕ_discrete,
}
use cerasure.XorMatch.Machine.{Row, Values}
use cerasure.XorMatch.Schedule.Rows.{product}
use cerasure.XorMatch.Program.Refine.{place_unique}
use cerasure.XorMatch.Matching.{
  Match, unmatched, scheduled, partner, count_where, in_both, pair_row,
}
use cerasure.XorMatch.Matching.Listed.{count_where-hits}
use cerasure.XorMatch.Matching.Pair.{pair_row-PairMeaning}
use cerasure.XorMatch.Matching.Run.{put, put_self, put_other, apply_split, pair_row-product}

pub Match-cases : (x : Match) → (x ≡ unmatched) ⊎ ((x ≡ scheduled) ⊎ ((l : ℕ) × (x ≡ partner l)))
Match-cases unmatched = inl refl
Match-cases scheduled = inr (inl refl)
Match-cases (partner l) = inr (inr (l, refl))

partner_of : Match → ℕ
partner_of (partner l) = l
partner_of unmatched = 0
partner_of scheduled = 0

partner_injective : (l l' : ℕ) → partner l ≡ partner l' → l ≡ l'
unfolding partner_of
partner_injective l l' e = ap partner_of e

module _ (k w count : ℕ) (bitmatrix : Block ℕ) where
  -- Rows are matched in pairs that share a packet.
  pub record IsMatching (match : Block Match) : Type 0 where
    pub not_scheduled : (i : ℕ) → i < count → match i ≢ scheduled
    pub partner-lt : (i l : ℕ) → i < count → match i ≡ partner l → l < count
    pub other : (i l : ℕ) → i < count → match i ≡ partner l → l ≢ i
    pub back : (i l : ℕ) → i < count → match i ≡ partner l → match l ≡ partner i
    pub shared :
        (i l : ℕ)
        → i < count
        → match i ≡ partner l
        → count_where (in_both k w bitmatrix i l) (k * w) ≢ 0

  module _ (fresh : Row) (pos : 0 < w)
      (bits : (i c : ℕ) → i < count → c < k * w → bitmatrix (i * k * w + c) < 2) (d : Values) where
    abbrev pub Done : Values → ℕ → Type 0
    Done v r = v (r / w) (r % w) ≡ product k w bitmatrix d r

    put-Done :
        (v : Values) (i r : ℕ)
        → (r ≢ i → Done v r)
        → Done (put v (i / w) (i % w) (product k w bitmatrix d i)) r
    put-Done v i r done = elim (ℕ_discrete i r) [
      | yes e ↦ rw (← e) (put_self v (i / w) (i % w) _)
      | no ne ↦
          put_other v (i / w) (i % w) _ (r / w) (r % w) (place_unique w i r ne)
          ∙ done (omega (arith, ne))
    ]

    -- Before round i the rows below i are done and the rest are matched among themselves.
    pub record Pending (i : ℕ) (match : Block Match) (v : Values) : Type 0 where
      pub finished : (r : ℕ) → r < i → Done v r
      pub marked : (r : ℕ) → r < count → match r ≡ scheduled → Done v r
      pub later :
          (r l : ℕ)
          → i ≤ r
          → r < count
          → match r ≡ partner l
          → (i ≤ l) × (l < count) × (l ≢ r) × (match l ≡ partner r)
      pub shared :
          (r l : ℕ)
          → r < count
          → match r ≡ partner l
          → count_where (in_both k w bitmatrix r l) (k * w) ≢ 0

    -- A row that is not matched now leaves the matching of the rest as it is.
    later_kept :
        (i : ℕ) (match : Block Match) (v : Values)
        → ((l : ℕ) → match i ≢ partner l)
        → Pending i match v
        → (r l : ℕ) → suc i ≤ r
        → r < count
        → match r ≡ partner l
        → (suc i ≤ l) × (l < count) × (l ≢ r) × (match l ≡ partner r)
    later_kept i match v alone p r l lo hr e =
        let (le, lt, ne, back) = p.later r l (omega arith) hr e in
        let away : l ≢ i = λ same. alone r (ap match (sym same) ∙ back) in
        (omega (arith, le, away), lt, ne, back)

    pub Pending-unmatched :
        (i : ℕ) (match : Block Match) (v : Values)
        → match i ≡ unmatched
        → Pending i match v
        → Pending (suc i) match (put v (i / w) (i % w) (product k w bitmatrix d i))
    Pending-unmatched i match v e p = record {
      finished = λ r hr. put-Done v i r (λ ne. p.finished r (omega (arith, ne)));
      marked = λ r hr s. put-Done v i r (λ ne. p.marked r hr s);
      later = later_kept i match v (λ l e'. cc) p;
      shared = p.shared;
    }

    pub Pending-scheduled :
        (i : ℕ) (match : Block Match) (v : Values)
        → i < count
        → match i ≡ scheduled
        → Pending i match v
        → Pending (suc i) match v
    Pending-scheduled i match v hi e p = record {
      finished = λ r hr. elim (ℕ_discrete r i) [
        | yes same ↦ rw same (p.marked i hi e)
        | no ne ↦ p.finished r (omega (arith, ne))
      ];
      marked = p.marked;
      later = later_kept i match v (λ l e'. cc) p;
      shared = p.shared;
    }

    module _ (i l : ℕ) (match : Block Match) where
      abbrev pub paired : Block Match
      paired = set (set match i scheduled) l scheduled

      -- The entries that change are those of the pair.
      paired-cases : (r : ℕ) → ((r ≡ i) ⊎ (r ≡ l)) ⊎ ((r ≢ i) × (r ≢ l) × (paired r ≡ match r))
      paired-cases r = elim (ℕ_discrete r i) [
        | yes e ↦ inl (inl e)
        | no ne ↦ elim (ℕ_discrete r l) [
          | yes e' ↦ inl (inr e')
          | no ne' ↦ inr (
            ne,
            ne',
            set_ne _ l r scheduled (λ e. ne' (sym e))
                ∙ set_ne match i r scheduled (λ e. ne (sym e)),
          )
        ]
      ]

      paired-first : paired i ≡ scheduled
      paired-first = elim (ℕ_discrete l i) [
        | yes e ↦ rw e (set_self _ i scheduled)
        | no ne ↦ set_ne _ l i scheduled ne ∙ set_self match i scheduled
      ]

      paired-partner :
          (r l' : ℕ) → paired r ≡ partner l' → (r ≢ i) × (r ≢ l) × (match r ≡ partner l')
      paired-partner r l' e = elim (paired-cases r) [
        | inr (ne, ne', same) ↦ (ne, ne', sym same ∙ e)
        | inl (inl at) ↦ absurd (let s = ap paired at ∙ paired-first in cc)
        | inl (inr at) ↦
            absurd (let s = ap paired at ∙ set_self (set match i scheduled) l scheduled in cc)
      ]

      later_paired :
          (v : Values)
          → match i ≡ partner l
          → i < count
          → Pending i match v
          → (r l' : ℕ) → suc i ≤ r
          → r < count
          → paired r ≡ partner l'
          → (suc i ≤ l') × (l' < count) × (l' ≢ r) × (paired l' ≡ partner r)
      later_paired v e hi p r l' lo hr e' =
          let (ri, rl, old) = paired-partner r l' e' in
          let (le, lt, ne, back) = p.later r l' (omega arith) hr old in
          let (le', lt', ne', back') = p.later i l (omega arith) hi e in
          let away_i : l' ≢ i = λ same. rl (partner_injective r l (sym back ∙ ap match same ∙ e)) in
          let away_l : l' ≢ l =
            λ same. ri (partner_injective r i (sym back ∙ ap match same ∙ back')) in
          (
            omega (arith, le, away_i),
            lt,
            ne,
            elim (paired-cases l') [
              | inr (a, b, same) ↦ same ∙ back
              | inl (inl at) ↦ absurd (away_i at)
              | inl (inr at) ↦ absurd (away_l at)
            ],
          )

      pub both_done : Values → Values
      both_done v =
          put (put v (i / w) (i % w) (product k w bitmatrix d i)) (l / w) (l % w)
            (product k w bitmatrix d l)

      both_done-Done : (v : Values) (r : ℕ) → (r ≢ i → r ≢ l → Done v r) → Done (both_done v) r
      unfolding both_done
      both_done-Done v r done = put-Done _ l r (λ rl. put-Done v i r (λ ri. done ri rl))

      pub Pending-partner :
          (v : Values)
          → i < count
          → match i ≡ partner l
          → Pending i match v
          → Pending (suc i) paired (both_done v)
      Pending-partner v hi e p = record {
        finished = λ r hr. both_done-Done v r (λ ri rl. p.finished r (omega (arith, ri)));
        marked = λ r hr s. both_done-Done v r (λ ri rl. elim (paired-cases r) [
          | inr (a, b, same) ↦ p.marked r hr (sym same ∙ s)
          | inl (inl at) ↦ absurd (ri at)
          | inl (inr at) ↦ absurd (rl at)
        ]);
        later = later_paired v e hi p;
        shared = λ r l' hr e'. p.shared r l' hr (paired-partner r l' e').2;
      }

      pair_row-shares :
          count_where (in_both k w bitmatrix i l) (k * w) ≢ 0
          → pair_row k w bitmatrix fresh i l 0 ≢ 0
      pair_row-shares ne e =
          let m = pair_row-PairMeaning k w bitmatrix fresh i l in
          ne (
            count_where-hits (in_both k w bitmatrix i l) w (k * w)
            ∙ sym m.common_hits
            ∙ sym m.count_common
            ∙ e)

      pub pair_row-both_done :
          (v : Values)
          → i < count
          → l < count
          → count_where (in_both k w bitmatrix i l) (k * w) ≢ 0
          → apply_split (pair_row k w bitmatrix fresh i l) d v ≡ both_done v
      unfolding both_done
      pair_row-both_done v hi hl ne =
          pair_row-product k w bitmatrix fresh d i l v (λ c hc. bits i c hi hc)
            (λ c hc. bits l c hl hc) (pair_row-shares ne)
