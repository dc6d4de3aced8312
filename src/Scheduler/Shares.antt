-- ===== src/Scheduler/Shares.antt =====
-- No model of a group gets more than its share by smooth weighted round robin (`scheduler.py`).
use zhongzhuan.Base.{
  ℕ, zero, suc, ◌+◌, ◌*◌, ◌<◌, ◌≡◌, refl, sym, ap, ◌∙◌, true, List, [], ◌∷◌, ◌==◌, ==_iff, arith,
  Bool-cases, ◌⊎◌, inl, inr, All,
}
use zhongzhuan.Base.Eq.{nat_eq}
use zhongzhuan.Base.Int.{ℤ, pos, ◌+ℤ◌, ◌-ℤ◌, negsuc, ◌≤ℤ◌, int_laws, pos_part, neg_part}
use zhongzhuan.Base.Dict.{Dict, insert}
use zhongzhuan.Scheduler.Swrr.{
  Candidate, current_weight, add_weights, best, total_weight, has_id, swrr_next,
}
use zhongzhuan.Scheduler.Fairness.{
  weight_of, current_weight-add_weights, has_id-best, current_weight-swrr_next, rounds, picks,
  picks_account,
}
use zhongzhuan.Scheduler.Sums.{
  Distinct, sum_weights, sum_weights-add, sum_shares-total, sum_weights-insert, sum_weights-keep,
  best_greatest, sum_nonpos, every_id,
}

sum_positive : (a : ℤ) (t : ℕ) → 0 < t → a ≡ pos 0 +ℤ pos t → a ≤ℤ pos 0 → ⊥
sum_positive a t h e le = omega (int_laws, ap pos_part e, ap neg_part e)

not_above : (a : ℤ) → (pos 1 ≤ℤ a) ⊎ (a ≤ℤ pos 0)
not_above (pos ℕ.zero) = inr (omega arith)
not_above (pos (ℕ.suc n)) = inl (omega arith)
not_above (negsuc n) = inr (omega arith)

zero_again :
    (new old a v : ℤ) (t : ℕ)
    → new +ℤ a ≡ old +ℤ v
    → v ≡ a -ℤ pos t
    → old ≡ pos 0 +ℤ pos t
    → new ≡ pos 0
zero_again new old a v t p q r = omega (
  int_laws,
  ap pos_part p,
  ap neg_part p,
  ap pos_part q,
  ap neg_part q,
  ap pos_part r,
  ap neg_part r,
)

low_chosen :
    (new old grown : ℤ) (t w : ℕ)
    → new +ℤ pos t ≡ old +ℤ pos w
    → grown ≡ old +ℤ pos w
    → pos 1 ≤ℤ grown
    → pos 1 ≤ℤ new +ℤ pos t
low_chosen new old grown t w p q h =
    omega (int_laws, ap pos_part p, ap neg_part p, ap pos_part q, ap neg_part q)

low_other :
    (new old : ℤ) (t w : ℕ)
    → new +ℤ pos 0 ≡ old +ℤ pos w
    → pos 1 ≤ℤ old +ℤ pos t
    → pos 1 ≤ℤ new +ℤ pos t
low_other new old t w p h = omega (int_laws, ap pos_part p, ap neg_part p)

low_same :
    (t : ℕ) (state : Dict ℕ ℤ) (j k : ℕ)
    → j ≡ k
    → pos 1 ≤ℤ current_weight state j +ℤ pos t
    → pos 1 ≤ℤ current_weight state k +ℤ pos t
low_same t state j k e h = rw e at h

share_bound :
    (end : ℤ) (p t n w : ℕ)
    → end +ℤ pos (p * t) ≡ pos 0 +ℤ pos (n * w)
    → pos 1 ≤ℤ end +ℤ pos t
    → p * t < n * w + t
share_bound end p t n w e h = omega (int_laws, ap pos_part e, ap neg_part e)

module _ {H : Type 0} where
  -- A model's weight is above the total's negative.
  abbrev Low : ℕ → Dict ℕ ℤ → Candidate H → Type 0
  Low t state d = pos 1 ≤ℤ current_weight state d.0 +ℤ pos t

  -- Between two choices the weights sum to 0 and none is low.
  record Settled (c : Candidate H) (cs : List (Candidate H)) (state : Dict ℕ ℤ) : Type 0 where
    pub zero_sum : sum_weights state (c ∷ cs) ≡ pos 0
    pub low : All (Low (total_weight (c ∷ cs)) state) (c ∷ cs)

  module _ (c : Candidate H) (cs : List (Candidate H)) (state : Dict ℕ ℤ)
      (distinct : Distinct (c ∷ cs)) (positive : 0 < total_weight (c ∷ cs))
      (s : Settled c cs state) where
    sum_added :
        sum_weights (add_weights (c ∷ cs) state) (c ∷ cs) ≡ pos 0 +ℤ pos (total_weight (c ∷ cs))
    sum_added =
        sum_weights-add (c ∷ cs) (c ∷ cs) state
        ∙ rw (s.zero_sum, sum_shares-total (c ∷ cs) distinct) refl

    best_positive :
        let added = add_weights (c ∷ cs) state in pos 1 ≤ℤ current_weight added (best added c cs).0
    best_positive =
        let added = add_weights (c ∷ cs) state in
        elim (not_above (current_weight added (best added c cs).0)) [
          | inl h ↦ h
          | inr h ↦ absurd (
              sum_positive (sum_weights added (c ∷ cs)) (total_weight (c ∷ cs)) positive sum_added (
                sum_nonpos added (current_weight added (best added c cs).0) (c ∷ cs) h
                  (best_greatest added c cs)))
        ]

    next_zero_sum : sum_weights (swrr_next c cs state).1 (c ∷ cs) ≡ pos 0
    unfolding swrr_next
    next_zero_sum =
        let added = add_weights (c ∷ cs) state in
        let b = (best added c cs).0 in
        let t = total_weight (c ∷ cs) in
        let v = current_weight added b -ℤ pos t in
        sum_weights-keep (c ∷ cs) (c ∷ cs) (insert b v added) (every_id (c ∷ cs))
        ∙ zero_again (sum_weights (insert b v added) (c ∷ cs)) (sum_weights added (c ∷ cs))
            (current_weight added b) v t
            (sum_weights-insert b v added (c ∷ cs) distinct (has_id-best added c cs)) refl sum_added

    next-Low_at :
        (d : Candidate H)
        → has_id d.0 (c ∷ cs) ≡ true
        → Low (total_weight (c ∷ cs)) state d
        → Low (total_weight (c ∷ cs)) (swrr_next c cs state).1 d
    unfolding swrr_next
    next-Low_at d h low =
        let added = add_weights (c ∷ cs) state in
        let b = (best added c cs).0 in
        let t = total_weight (c ∷ cs) in
        let w = weight_of d.0 (c ∷ cs) in
        let moved = current_weight-swrr_next c cs state d.0 h in
        elim (Bool-cases (b == d.0)) [
          | inl e ↦
              let same = ap (λ k. current_weight added k) (sym ((==_iff b d.0).0 e)) in
              low_chosen (current_weight (swrr_next c cs state).1 d.0) (current_weight state d.0)
                (current_weight added b) t w (rw e at moved)
                (sym same ∙ current_weight-add_weights (c ∷ cs) state d.0) best_positive
          | inr e ↦
              low_other (current_weight (swrr_next c cs state).1 d.0) (current_weight state d.0) t w
                (rw e at moved) low
        ]

    next-Low :
        (ds : List (Candidate H))
        → All (λ (d : Candidate H). has_id d.0 (c ∷ cs) ≡ true) ds
        → All (Low (total_weight (c ∷ cs)) state) ds
        → All (Low (total_weight (c ∷ cs)) (swrr_next c cs state).1) ds
    next-Low [] h a = tt
    next-Low (d ∷ ds) h a = (next-Low_at d h.0 a.0, next-Low ds h.1 a.1)

    swrr_next-Settled : Settled c cs (swrr_next c cs state).1
    swrr_next-Settled = record {
      zero_sum = next_zero_sum;
      low = next-Low (c ∷ cs) (every_id (c ∷ cs)) s.low;
    }

  rounds-Settled :
      (n : ℕ) (c : Candidate H) (cs : List (Candidate H)) (state : Dict ℕ ℤ)
      → Distinct (c ∷ cs)
      → 0 < total_weight (c ∷ cs)
      → Settled c cs state
      → Settled c cs (rounds n c cs state)
  unfolding rounds
  rounds-Settled zero c cs state distinct positive s = s
  rounds-Settled (suc n) c cs state distinct positive s =
      rounds-Settled n c cs (swrr_next c cs state).1 distinct positive
        (swrr_next-Settled c cs state distinct positive s)

  empty_sum : (cs : List (Candidate H)) → sum_weights [] cs ≡ pos 0
  empty_sum [] = refl
  empty_sum (c ∷ cs) = rw (empty_sum cs) (omega int_laws)

  empty-Low : (t : ℕ) (cs : List (Candidate H)) → 0 < t → All (Low t []) cs
  empty-Low t [] h = tt
  empty-Low t (c ∷ cs) h = (omega int_laws, empty-Low t cs h)

  low_at :
      (t mid : ℕ) (state : Dict ℕ ℤ) (cs : List (Candidate H))
      → has_id mid cs ≡ true
      → All (Low t state) cs
      → pos 1 ≤ℤ current_weight state mid +ℤ pos t
  low_at t mid state [] h a = cc
  low_at t mid state (c ∷ cs) h a = elim (Bool-cases (c.0 == mid)) [
    | inl e ↦ low_same t state c.0 mid ((==_iff c.0 mid).0 e) a.0
    | inr e ↦ low_at t mid state cs (rw e at h) a.1
  ]

  -- In any number of choices among different models with a positive total weight, from no state, a
  -- model is chosen less than one time more often than its share of the weight.
  pub picks_bounded :
      (n : ℕ) (c : Candidate H) (cs : List (Candidate H)) (mid : ℕ)
      → Distinct (c ∷ cs)
      → 0 < total_weight (c ∷ cs)
      → has_id mid (c ∷ cs) ≡ true
      → picks n mid c cs [] * total_weight (c ∷ cs)
        < n * weight_of mid (c ∷ cs) + total_weight (c ∷ cs)
  picks_bounded n c cs mid distinct positive h =
      let t = total_weight (c ∷ cs) in
      let start : Settled c cs [] = record {
        zero_sum = empty_sum (c ∷ cs);
        low = empty-Low t (c ∷ cs) positive;
      } in
      let end = rounds-Settled n c cs [] distinct positive start in
      share_bound (current_weight (rounds n c cs []) mid) (picks n mid c cs []) t n
        (weight_of mid (c ∷ cs)) (picks_account n c cs [] mid h)
        (low_at t mid (rounds n c cs []) (c ∷ cs) h end.low)
