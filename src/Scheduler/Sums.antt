-- ===== src/Scheduler/Sums.antt =====
-- Sums and greatest current weights in smooth weighted round robin (`src/zhongzhuan/proxy/scheduler.py`).
use zhongzhuan.Base.{
  ℕ, ◌+◌, ◌≡◌, refl, sym, ap, ◌∙◌, true, false, List, [], ◌∷◌, ◌==◌, ==_iff, arith, Bool-cases, inl,
  inr, All,
}
use zhongzhuan.Base.Eq.{nat_eq}
use zhongzhuan.Base.Int.{ℤ, pos, ◌+ℤ◌, ◌≤ℤ◌, ltb_ℤ, int_laws, pos_part, neg_part}
use zhongzhuan.Base.Dict.{Dict, insert}
use zhongzhuan.Scheduler.Swrr.{
  Candidate, current_weight, add_weights, best, total_weight, has_id, keep_candidates,
}
use zhongzhuan.Scheduler.Fairness.{
  current_weight-insert, weight_of, current_weight-add_weights, current_weight-keep_candidates,
  best_next, best_same,
}

module _ {H : Type 0} where
  -- The models of the candidates are different.
  abbrev pub Distinct : List (Candidate H) → Type 0
  Distinct [] = Unit
  Distinct (c ∷ cs) = (has_id c.0 cs ≡ false) × Distinct cs

  abbrev pub sum_weights : Dict ℕ ℤ → List (Candidate H) → ℤ
  sum_weights state [] = pos 0
  sum_weights state (c ∷ cs) = current_weight state c.0 +ℤ sum_weights state cs

  -- Each candidate's weight in a round.
  abbrev pub sum_shares : List (Candidate H) → List (Candidate H) → ℕ
  sum_shares all [] = 0
  sum_shares all (c ∷ cs) = weight_of c.0 all + sum_shares all cs

  pub sum_weights-add :
      (all cs : List (Candidate H)) (state : Dict ℕ ℤ)
      → sum_weights (add_weights all state) cs ≡ sum_weights state cs +ℤ pos (sum_shares all cs)
  sum_weights-add all [] state = omega int_laws
  sum_weights-add all (c ∷ cs) state =
      rw (current_weight-add_weights all state c.0, sum_weights-add all cs state) (omega int_laws)

  pub weight_of_absent :
      (mid : ℕ) (cs : List (Candidate H)) → has_id mid cs ≡ false → weight_of mid cs ≡ 0
  weight_of_absent mid [] h = refl
  weight_of_absent mid (c ∷ cs) h = ground (arith, weight_of_absent mid cs)

  -- A candidate before those that are summed adds nothing to their shares.
  pub sum_shares_skip :
      (c : Candidate H) (all cs : List (Candidate H))
      → has_id c.0 cs ≡ false
      → sum_shares (c ∷ all) cs ≡ sum_shares all cs
  sum_shares_skip c all [] h = refl
  sum_shares_skip c all (d ∷ cs) h =
      ground (arith, sum_shares_skip c all cs, ==_iff c.0 d.0, ==_iff d.0 c.0)

  pub sum_shares-total :
      (cs : List (Candidate H)) → Distinct cs → sum_shares cs cs ≡ total_weight cs
  sum_shares-total [] h = refl
  sum_shares-total (c ∷ cs) h = ground (
    arith,
    ==_iff c.0 c.0,
    weight_of_absent c.0 cs h.0,
    sum_shares_skip c cs cs h.0,
    sum_shares-total cs h.1,
  )

  pub sum_weights-insert_absent :
      (mid : ℕ) (v : ℤ) (state : Dict ℕ ℤ) (cs : List (Candidate H))
      → has_id mid cs ≡ false
      → sum_weights (insert mid v state) cs ≡ sum_weights state cs
  sum_weights-insert_absent mid v state [] h = refl
  sum_weights-insert_absent mid v state (c ∷ cs) h = ground (
    arith,
    current_weight-insert state mid c.0 v,
    sum_weights-insert_absent mid v state cs,
    ==_iff c.0 mid,
    ==_iff mid c.0,
  )

  pub sum_weights-insert :
      (mid : ℕ) (v : ℤ) (state : Dict ℕ ℤ) (cs : List (Candidate H))
      → Distinct cs
      → has_id mid cs ≡ true
      → sum_weights (insert mid v state) cs +ℤ current_weight state mid ≡ sum_weights state cs +ℤ v
  sum_weights-insert mid v state [] d h = cc
  sum_weights-insert mid v state (c ∷ cs) d h = elim (Bool-cases (c.0 == mid)) [
    | inl e ↦
        let same : c.0 ≡ mid = (==_iff c.0 mid).0 e in
        let absent : has_id mid cs ≡ false = ap (λ k. has_id k cs) (sym same) ∙ d.0 in
        let now : current_weight (insert mid v state) c.0 ≡ v =
          ground (arith, current_weight-insert state mid c.0 v, ==_iff mid c.0) in
        let at_mid : current_weight state c.0 ≡ current_weight state mid =
          ap (λ k. current_weight state k) same in
        rw (now, at_mid, sum_weights-insert_absent mid v state cs absent) (omega int_laws)
    | inr e ↦
        let now : current_weight (insert mid v state) c.0 ≡ current_weight state c.0 =
          ground (arith, current_weight-insert state mid c.0 v, ==_iff c.0 mid, ==_iff mid c.0) in
        let ih = sum_weights-insert mid v state cs d.1 (rw e at h) in
        rw now (omega (int_laws, ap pos_part ih, ap neg_part ih))
  ]

  pub sum_weights-keep :
      (all cs : List (Candidate H)) (state : Dict ℕ ℤ)
      → All (λ c. has_id c.0 all ≡ true) cs
      → sum_weights (keep_candidates all state) cs ≡ sum_weights state cs
  sum_weights-keep all [] state h = refl
  sum_weights-keep all (c ∷ cs) state h =
      rw (current_weight-keep_candidates all state c.0 h.0, sum_weights-keep all cs state h.1)

  pub bounded_same :
      (state : Dict ℕ ℤ) (v v' : ℤ)
      → v' ≡ v
      → (cs : List (Candidate H)) → All (λ (d : Candidate H). current_weight state d.0 ≤ℤ v) cs
      → All (λ (d : Candidate H). current_weight state d.0 ≤ℤ v') cs
  bounded_same state v v' e [] a = tt
  bounded_same state v v' e (c ∷ cs) a = (rw e a.0, bounded_same state v v' e cs a.1)

  -- The greatest weight is that of the best candidate, so it bounds the sum.
  pub best_greatest :
      (state : Dict ℕ ℤ) (c : Candidate H) (cs : List (Candidate H))
      → All
          (λ (d : Candidate H).
            current_weight state d.0 ≤ℤ current_weight state (best state c cs).0)
          (c ∷ cs)
  best_greatest state c [] = unfold best in (omega int_laws, tt)
  best_greatest state c (d ∷ cs) =
      elim (Bool-cases (ltb_ℤ (current_weight state c.0) (current_weight state d.0))) [
        | inl e ↦
            let rest = best_greatest state d cs in
            let le : current_weight state c.0 ≤ℤ current_weight state d.0 = ground (arith, e) in
            let up = rest.0 in
            let b = best state d cs in
            let same =
              ap (λ (k : Candidate H). current_weight state k.0) (best_next state c d cs e) in
            bounded_same state (current_weight state b.0)
              (current_weight state (best state c (d ∷ cs)).0) same (c ∷ d ∷ cs)
              (omega arith, (up, rest.1))
        | inr e ↦
            let rest = best_greatest state c cs in
            let le : current_weight state d.0 ≤ℤ current_weight state c.0 = ground (arith, e) in
            let up = rest.0 in
            let b = best state c cs in
            let same =
              ap (λ (k : Candidate H). current_weight state k.0) (best_same state c d cs e) in
            bounded_same state (current_weight state b.0)
              (current_weight state (best state c (d ∷ cs)).0) same (c ∷ d ∷ cs)
              (up, (omega arith, rest.1))
      ]

  pub sum_nonpos :
      (state : Dict ℕ ℤ) (v : ℤ) (cs : List (Candidate H))
      → v ≤ℤ pos 0
      → All (λ (d : Candidate H). current_weight state d.0 ≤ℤ v) cs
      → sum_weights state cs ≤ℤ pos 0
  sum_nonpos state v [] h a = omega int_laws
  sum_nonpos state v (c ∷ cs) h a =
      let ih = sum_nonpos state v cs h a.1 in let le = a.0 in omega int_laws

  pub own_ids :
      (all cs : List (Candidate H))
      → All (λ (c : Candidate H). has_id c.0 all ≡ true) cs
      → (d : Candidate H) → All (λ (c : Candidate H). has_id c.0 (d ∷ all) ≡ true) cs
  own_ids all [] h d = tt
  own_ids all (c ∷ cs) h d = (ground (arith, h.0), own_ids all cs h.1 d)

  pub every_id : (cs : List (Candidate H)) → All (λ (c : Candidate H). has_id c.0 cs ≡ true) cs
  every_id [] = tt
  every_id (c ∷ cs) = (ground (arith, ==_iff c.0 c.0), own_ids cs cs (every_id cs) c)
