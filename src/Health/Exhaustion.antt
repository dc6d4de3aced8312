-- ===== src/Health/Exhaustion.antt =====
-- `reason_for_exhaustion` of `src/zhongzhuan/proxy/retry.py`.
use zhongzhuan.Base.{[], ◌≡◌, ◌≢◌, ◌↔◌, ◌⊎◌, inl, inr, refl, Bool, true, false, List, ◌∷◌, arith}
use mathlib.Core.Bool.{false≢true}
use zhongzhuan.Health.{Status, rate_limited, invalid, error, KeyHealth, is_invalid}
use zhongzhuan.Health.Failure.{
  Reason, no_keys, all_invalid, all_rate_limited, all_error, all_exhausted, any_status,
  is_rate_limited, is_error, reason_of, reason_for_exhaustion,
}

-- Some key has the status.
abbrev pub Some : Status → List KeyHealth → Type 0
Some s [] = ⊥
Some s (k ∷ keys) = (k.status ≡ s) ⊎ Some s keys

any_invalid_iff : (keys : List KeyHealth) → (any_status is_invalid keys ≡ true) ↔ Some invalid keys
any_invalid_iff [] = ((λ h. cc), (λ h. absurd h))
any_invalid_iff (k ∷ keys) = ground (arith, any_invalid_iff keys)

any_rate_limited_iff :
    (keys : List KeyHealth) → (any_status is_rate_limited keys ≡ true) ↔ Some rate_limited keys
any_rate_limited_iff [] = ((λ h. cc), (λ h. absurd h))
any_rate_limited_iff (k ∷ keys) = ground (arith, any_rate_limited_iff keys)

any_error_iff : (keys : List KeyHealth) → (any_status is_error keys ≡ true) ↔ Some error keys
any_error_iff [] = ((λ h. cc), (λ h. absurd h))
any_error_iff (k ∷ keys) = ground (arith, any_error_iff keys)

-- What each reason says of the keys.
abbrev pub Explains : Reason → List KeyHealth → Type 0
Explains no_keys keys = keys ≡ []
Explains all_invalid keys = Some invalid keys × ¬ Some rate_limited keys × ¬ Some error keys
Explains all_rate_limited keys = Some rate_limited keys × ¬ Some invalid keys × ¬ Some error keys
Explains all_error keys = Some error keys × ¬ Some invalid keys × ¬ Some rate_limited keys
Explains all_exhausted keys =
    (keys ≢ [])
    × (Some invalid keys → Some rate_limited keys ⊎ Some error keys)
    × (Some rate_limited keys → Some invalid keys ⊎ Some error keys)
    × (Some error keys → Some invalid keys ⊎ Some rate_limited keys)

-- The three tests decide the reason.
reason_of-Explains :
    (k : KeyHealth) (keys : List KeyHealth) (i r e : Bool)
    → ((i ≡ true) ↔ Some invalid (k ∷ keys))
    → ((r ≡ true) ↔ Some rate_limited (k ∷ keys))
    → ((e ≡ true) ↔ Some error (k ∷ keys))
    → Explains (reason_of i r e) (k ∷ keys)
unfolding reason_of
reason_of-Explains k keys true true true a b c =
    ((λ h. cc), (λ h. inl (b.0 refl)), (λ h. inl (a.0 refl)), (λ h. inl (a.0 refl)))
reason_of-Explains k keys true true false a b c =
    ((λ h. cc), (λ h. inl (b.0 refl)), (λ h. inl (a.0 refl)), (λ h. absurd (false≢true (c.1 h))))
reason_of-Explains k keys true false true a b c =
    ((λ h. cc), (λ h. inr (c.0 refl)), (λ h. absurd (false≢true (b.1 h))), (λ h. inl (a.0 refl)))
reason_of-Explains k keys true false false a b c =
    (a.0 refl, (λ h. false≢true (b.1 h)), (λ h. false≢true (c.1 h)))
reason_of-Explains k keys false true true a b c =
    ((λ h. cc), (λ h. absurd (false≢true (a.1 h))), (λ h. inr (c.0 refl)), (λ h. inr (b.0 refl)))
reason_of-Explains k keys false true false a b c =
    (b.0 refl, (λ h. false≢true (a.1 h)), (λ h. false≢true (c.1 h)))
reason_of-Explains k keys false false true a b c =
    (c.0 refl, (λ h. false≢true (a.1 h)), (λ h. false≢true (b.1 h)))
reason_of-Explains k keys false false false a b c = (
  (λ h. cc),
  (λ h. absurd (false≢true (a.1 h))),
  (λ h. absurd (false≢true (b.1 h))),
  (λ h. absurd (false≢true (c.1 h))),
)

-- The reason that is returned says what it names: that there are no keys, that exactly one of the
-- three failed statuses occurs among them, or that none does or more than one.
pub reason_for_exhaustion-Explains :
    (keys : List KeyHealth) → Explains (reason_for_exhaustion keys) keys
unfolding reason_for_exhaustion
reason_for_exhaustion-Explains [] = refl
reason_for_exhaustion-Explains (k ∷ keys) =
    reason_of-Explains k keys (any_status is_invalid (k ∷ keys))
      (any_status is_rate_limited (k ∷ keys)) (any_status is_error (k ∷ keys))
      (any_invalid_iff (k ∷ keys)) (any_rate_limited_iff (k ∷ keys)) (any_error_iff (k ∷ keys))
