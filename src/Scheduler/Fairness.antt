-- ===== src/Scheduler/Fairness.antt =====
-- The shares of smooth weighted round robin (`_swrr_pick` of `scheduler.py`).
use zhongzhuan.Base.{
  [], ℕ, zero, suc, ◌+◌, ◌*◌, ◌≡◌, refl, ap, ◌∙◌, Bool, true, false, List, ◌∷◌, ◌==◌, ==_iff, ◌||◌,
  if◌then◌else◌, arith, Bool-cases, inl, inr,
}
use zhongzhuan.Base.Eq.{nat_eq}
use zhongzhuan.Base.Int.{ℤ, pos, ◌+ℤ◌, ◌-ℤ◌, ltb_ℤ, int_laws, pos_part, neg_part}
use zhongzhuan.Base.Dict.{Dict, insert, lookup-insert}
use zhongzhuan.Scheduler.Swrr.{
  Candidate, current_weight, add_weights, best, total_weight, has_id, keep_candidates, swrr_next,
}

pub current_weight-insert :
    (state : Dict ℕ ℤ) (k j : ℕ) (v : ℤ)
    → current_weight (insert k v state) j ≡ (if k == j then v else current_weight state j)
current_weight-insert state k j v = ground (arith, lookup-insert k j v state)

or_intro : (a b : Bool) → b ≡ true → (a || b) ≡ true
or_intro a b h = ground arith

skip_second : (a b d : Bool) → (a || d) ≡ true → (a || (b || d)) ≡ true
skip_second a b d h = ground arith

-- The two ways in which a model's weight moves in a round.
chosen_weight : (v a b : ℤ) (t w : ℕ) → v ≡ a -ℤ pos t → a ≡ b +ℤ pos w → v +ℤ pos t ≡ b +ℤ pos w
chosen_weight v a b t w p q = rw (p, q) (omega int_laws)

other_weight : (v a b : ℤ) (w : ℕ) → v ≡ a → a ≡ b +ℤ pos w → v +ℤ pos 0 ≡ b +ℤ pos w
other_weight v a b w p q = rw (p, q) (omega int_laws)

one_more :
    (end mid start : ℤ) (t p n w : ℕ)
    → mid +ℤ pos t ≡ start +ℤ pos w
    → end +ℤ pos (p * t) ≡ mid +ℤ pos (n * w)
    → end +ℤ pos ((1 + p) * t) ≡ start +ℤ pos (suc n * w)
one_more end mid start t p n w a b =
    omega (int_laws, ap pos_part a, ap neg_part a, ap pos_part b, ap neg_part b)

none_more :
    (end mid start : ℤ) (t p n w : ℕ)
    → mid +ℤ pos 0 ≡ start +ℤ pos w
    → end +ℤ pos (p * t) ≡ mid +ℤ pos (n * w)
    → end +ℤ pos ((0 + p) * t) ≡ start +ℤ pos (suc n * w)
none_more end mid start t p n w a b =
    omega (int_laws, ap pos_part a, ap neg_part a, ap pos_part b, ap neg_part b)

module _ {H : Type 0} where
  -- The weight that the candidates give to a model.
  abbrev pub weight_of : ℕ → List (Candidate H) → ℕ
  weight_of mid [] = 0
  weight_of mid (c ∷ cs) = (if c.0 == mid then c.2 else 0) + weight_of mid cs

  pub current_weight-add_weights :
      (cs : List (Candidate H)) (state : Dict ℕ ℤ) (mid : ℕ)
      → current_weight (add_weights cs state) mid
        ≡ current_weight state mid +ℤ pos (weight_of mid cs)
  unfolding add_weights
  current_weight-add_weights [] state mid = omega int_laws
  current_weight-add_weights ((i, h, w) ∷ cs) state mid =
      let added = insert i (current_weight state i +ℤ pos w) state in
      elim (Bool-cases (i == mid)) [
        | inl e ↦
            let same : i ≡ mid = (==_iff i mid).0 e in
            let now : current_weight added mid ≡ current_weight state mid +ℤ pos w =
              current_weight-insert state i mid _
              ∙ rw e (ap (λ k. current_weight state k +ℤ pos w) same) in
            rw e (
              omega (
                int_laws,
                ap pos_part now,
                ap neg_part now,
                ap pos_part (current_weight-add_weights cs added mid),
                ap neg_part (current_weight-add_weights cs added mid),
              ))
        | inr e ↦
            let now : current_weight added mid ≡ current_weight state mid =
              current_weight-insert state i mid _ ∙ rw e in
            rw e (
              omega (
                int_laws,
                ap pos_part now,
                ap neg_part now,
                ap pos_part (current_weight-add_weights cs added mid),
                ap neg_part (current_weight-add_weights cs added mid),
              ))
      ]

  pub current_weight-keep_candidates :
      (cs : List (Candidate H)) (state : Dict ℕ ℤ) (mid : ℕ)
      → has_id mid cs ≡ true
      → current_weight (keep_candidates cs state) mid ≡ current_weight state mid
  unfolding keep_candidates
  current_weight-keep_candidates cs [] mid h = refl
  current_weight-keep_candidates cs ((i, v) ∷ state) mid h = ground (
    arith,
    ==_iff i mid,
    ap (λ k. has_id k cs) {x = i} {y = mid},
    current_weight-keep_candidates cs state mid h,
  )

  pub best_next :
      (state : Dict ℕ ℤ) (c d : Candidate H) (cs : List (Candidate H))
      → ltb_ℤ (current_weight state c.0) (current_weight state d.0) ≡ true
      → best state c (d ∷ cs) ≡ best state d cs
  unfolding best
  best_next state c d cs e = rw e

  pub best_same :
      (state : Dict ℕ ℤ) (c d : Candidate H) (cs : List (Candidate H))
      → ltb_ℤ (current_weight state c.0) (current_weight state d.0) ≡ false
      → best state c (d ∷ cs) ≡ best state c cs
  unfolding best
  best_same state c d cs e = rw e

  has_id_same :
      (b b' : Candidate H) (cs : List (Candidate H))
      → b' ≡ b
      → has_id b.0 cs ≡ true
      → has_id b'.0 cs ≡ true
  has_id_same b b' cs e h = ap (λ (k : Candidate H). has_id k.0 cs) e ∙ h

  pub has_id-best :
      (state : Dict ℕ ℤ) (c : Candidate H) (cs : List (Candidate H))
      → has_id (best state c cs).0 (c ∷ cs) ≡ true
  has_id-best state c [] = unfold best in ground arith
  has_id-best state c (d ∷ cs) =
      elim (Bool-cases (ltb_ℤ (current_weight state c.0) (current_weight state d.0))) [
        | inl e ↦
            let b = best state d cs in
            has_id_same b (best state c (d ∷ cs)) (c ∷ d ∷ cs) (best_next state c d cs e)
              (or_intro (c.0 == b.0) (has_id b.0 (d ∷ cs)) (has_id-best state d cs))
        | inr e ↦
            let b = best state c cs in
            has_id_same b (best state c (d ∷ cs)) (c ∷ d ∷ cs) (best_same state c d cs e)
              (skip_second (c.0 == b.0) (d.0 == b.0) (has_id b.0 cs) (has_id-best state c cs))
      ]

  -- The chosen model's weight falls by the total, and every model's rises by its own weight.
  pub current_weight-swrr_next :
      (c : Candidate H) (cs : List (Candidate H)) (state : Dict ℕ ℤ) (mid : ℕ)
      → has_id mid (c ∷ cs) ≡ true
      → let (chosen, state') = swrr_next c cs state in
        current_weight state' mid +ℤ pos (if chosen == mid then total_weight (c ∷ cs) else 0)
        ≡ current_weight state mid +ℤ pos (weight_of mid (c ∷ cs))
  unfolding swrr_next
  current_weight-swrr_next c cs state mid h =
      let added = add_weights (c ∷ cs) state in
      let chosen = (best added c cs).0 in
      let t = total_weight (c ∷ cs) in
      let v = current_weight added chosen -ℤ pos t in
      let kept = current_weight-keep_candidates (c ∷ cs) (insert chosen v added) mid h in
      let put = current_weight-insert added chosen mid v in
      let grown = current_weight-add_weights (c ∷ cs) state mid in
      elim (Bool-cases (chosen == mid)) [
        | inl e ↦
            let same = (==_iff chosen mid).0 e in
            rw e (
              chosen_weight _ (current_weight added mid) (current_weight state mid) t
                (weight_of mid (c ∷ cs))
                (kept ∙ put ∙ rw e (ap (λ k. current_weight added k -ℤ pos t) same)) grown)
        | inr e ↦ rw e (
            other_weight _ (current_weight added mid) (current_weight state mid)
              (weight_of mid (c ∷ cs)) (kept ∙ put ∙ rw e) grown)
      ]

  -- The state after `n` choices, and how often a model was chosen.
  unfoldable pub rounds : ℕ → Candidate H → List (Candidate H) → Dict ℕ ℤ → Dict ℕ ℤ
  rounds zero c cs state = state
  rounds (suc n) c cs state = rounds n c cs (swrr_next c cs state).1

  unfoldable pub picks : ℕ → ℕ → Candidate H → List (Candidate H) → Dict ℕ ℤ → ℕ
  picks zero mid c cs state = 0
  picks (suc n) mid c cs state =
      let (chosen, state') = swrr_next c cs state in
      (if chosen == mid then 1 else 0) + picks n mid c cs state'

  -- After any number of choices, the current weight of a candidate is what it started with and its
  -- weight in each round, less the total for each time that it was chosen.
  pub picks_account :
      (n : ℕ) (c : Candidate H) (cs : List (Candidate H)) (state : Dict ℕ ℤ) (mid : ℕ)
      → has_id mid (c ∷ cs) ≡ true
      → current_weight (rounds n c cs state) mid
          +ℤ pos (picks n mid c cs state * total_weight (c ∷ cs))
        ≡ current_weight state mid +ℤ pos (n * weight_of mid (c ∷ cs))
  unfolding rounds picks
  picks_account zero c cs state mid h = omega int_laws
  picks_account (suc n) c cs state mid h =
      let (chosen, state') = swrr_next c cs state in
      let t = total_weight (c ∷ cs) in
      elim (Bool-cases (chosen == mid)) [
        | inl e ↦ rw e (
            one_more _ _ _ t (picks n mid c cs state') n (weight_of mid (c ∷ cs))
              (rw e at (current_weight-swrr_next c cs state mid h))
              (picks_account n c cs state' mid h))
        | inr e ↦ rw e (
            none_more _ _ _ t (picks n mid c cs state') n (weight_of mid (c ∷ cs))
              (rw e at (current_weight-swrr_next c cs state mid h))
              (picks_account n c cs state' mid h))
      ]
