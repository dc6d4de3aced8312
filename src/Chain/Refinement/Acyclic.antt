-- ===== src/Chain/Refinement/Acyclic.antt =====
-- No response is its own ancestor (`src/zhongzhuan/responses_v3/chain.py`).
use mathlib.Core.Option.{some-injective}
use zhongzhuan.Base.{
  ℕ, suc, ◌≤◌, ◌≡◌, refl, sym, ap, ◌∙◌, inl, inr, String, Bool, true, false, Option, some, List, [],
  ◌∷◌, length, arith, Bool-cases,
}
use zhongzhuan.Base.Eq.{string_eq}
use zhongzhuan.Base.Dict.{Dict}
use zhongzhuan.Base.Json.{Json}
use zhongzhuan.Emitter.{is_in}
use zhongzhuan.Chain.{ResponseRecord, ResponseReads}
use zhongzhuan.Chain.Ancestry.{is_root, Ancestry, root, child}

-- The ids of the rows of a chain.
abbrev pub ids : String → List ResponseRecord → List String
ids id [] = []
ids id (r ∷ rs) = id ∷ ids r.previous_response_id rs

module _ (str_or_empty : Json → List ℕ) (truthy : Json → Bool)
    (payload_size : Dict String Json → Option ℕ) (store : ResponseReads) (ws : String) where
  abbrev Chain : String → List ResponseRecord → Type 0
  Chain = Ancestry str_or_empty truthy payload_size store ws

  abbrev root_of : ResponseRecord → Bool
  root_of = is_root str_or_empty truthy payload_size store ws

  same_row :
      (j k : String) (r s : ResponseRecord)
      → j ≡ k
      → store.get_response j ws ≡ some r
      → store.get_response k ws ≡ some s
      → r ≡ s
  same_row j k r s e g h = some-injective r s (sym g ∙ ap (λ i. store.get_response i ws) e ∙ h)

  root_or_not : (r s : ResponseRecord) → r ≡ s → root_of r ≡ true → root_of s ≡ false → ⊥
  root_or_not r s e f g = ground (arith, sym f ∙ ap root_of e ∙ g)

  -- Two chains of one id are equally long.
  same_length :
      (j k : String) (rs ss : List ResponseRecord)
      → j ≡ k
      → Chain j rs
      → Chain k ss
      → length rs ≡ length ss
  same_length j k _ _ e (root _ r _ _ _) (root _ s _ _ _) = refl
  same_length j k _ _ e (root _ r g _ t) (child _ s ss h _ u _) =
      absurd (root_or_not r s (same_row j k r s e g h) t u)
  same_length j k _ _ e (child _ r rs g _ t _) (root _ s h _ u) =
      absurd (root_or_not s r (sym (same_row j k r s e g h)) u t)
  same_length j k _ _ e (child _ r rs g _ t c) (child _ s ss h _ u d) = ap suc (
      same_length r.previous_response_id s.previous_response_id rs ss
        (ap (λ x. x.previous_response_id) (same_row j k r s e g h)) c d)

  at_same_id : (j k : String) (rs : List ResponseRecord) → k ≡ j → Chain k rs → Chain j rs
  at_same_id j k rs e c = rw e at c

  -- The chain of an ancestor is no longer.
  ancestor :
      (j k : String) (rs : List ResponseRecord)
      → Chain k rs
      → is_in j (ids k rs) ≡ true
      → (ss : List ResponseRecord) × Chain j ss × (length ss ≤ length rs)
  ancestor j k _ (root _ r g s t) h = elim (Bool-cases (string_eq.beq k j)) [
    | inl e ↦ (
      r ∷ [],
      at_same_id j k (r ∷ []) ((string_eq.beq_iff k j).0 e) (root k r g s t),
      omega arith,
    )
    | inr e ↦ absurd (ground (arith, h, e))
  ]
  ancestor j k _ (child _ r rs g s t c) h = elim (Bool-cases (string_eq.beq k j)) [
    | inl e ↦ (
      r ∷ rs,
      at_same_id j k (r ∷ rs) ((string_eq.beq_iff k j).0 e) (child k r rs g s t c),
      omega arith,
    )
    | inr e ↦
        let (ss, d, l) = ancestor j r.previous_response_id rs c (rw e at h) in
        (ss, d, omega (arith, l))
  ]

  -- No response is among the ancestors of its parent.
  pub child_is_new :
      (id : String) (r : ResponseRecord) (rs : List ResponseRecord)
      → Chain id (r ∷ rs)
      → Chain r.previous_response_id rs
      → is_in id (ids r.previous_response_id rs) ≡ false
  child_is_new id r rs whole c = elim (Bool-cases (is_in id (ids r.previous_response_id rs))) [
    | inl h ↦
        let (ss, d, l) = ancestor id r.previous_response_id rs c h in
        absurd (omega (arith, l, same_length id id (r ∷ rs) ss refl whole d))
    | inr h ↦ h
  ]
