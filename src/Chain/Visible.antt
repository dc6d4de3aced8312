-- ===== src/Chain/Visible.antt =====
-- No reasoning is replayed (`src/zhongzhuan/responses_v3/chain.py`).
use zhongzhuan.Base.{
  ℕ, suc, ◌+◌, ◌-◌, ◌≡◌, sym, ◌∙◌, inl, inr, String, Bool, false, Option, some, List, [], ◌∷◌, ◌++◌,
  All, length, max, Bool-cases, Option-cases,
}
use mathlib.Core.Option.{some-injective}
use zhongzhuan.Base.Eq.{text_eq}
use zhongzhuan.Base.Text.{codes}
use zhongzhuan.Base.Dict.{Dict}
use zhongzhuan.Base.Json.{Json}
use zhongzhuan.Items.{NormalizedItem, parse_value}
use zhongzhuan.Chain.{
  ResponseRecord, ResponseReads, ChainResolution, Limits, caps, reversed, raw_items, visible_items,
  normalize_entry, normalize_from, normalize_history, resolve_chain, reseq,
}
use zhongzhuan.Chain.Refinement.Results.{numbered, all_of, turn_items}
use zhongzhuan.Chain.Resolution.{resolve_chain-answers}

abbrev pub is_reasoning : NormalizedItem → Bool
is_reasoning it = text_eq.beq it.item_type (codes "reasoning")

abbrev pub Shown : List NormalizedItem → Type 0
Shown = All (λ it. is_reasoning it ≡ false)

Shown-append : (a b : List NormalizedItem) → Shown a → Shown b → Shown (a ++ b)
Shown-append [] b p q = q
Shown-append (it ∷ a) b (p, ps) q = (p, Shown-append a b ps q)

Shown-numbered : (n : ℕ) (a : List NormalizedItem) → Shown a → Shown (numbered n a)
unfolding reseq
Shown-numbered n [] p = tt
Shown-numbered n (it ∷ a) (p, ps) = (p, Shown-numbered (suc n) a ps)

Shown-all_of : (bs : List (List NormalizedItem)) → All Shown bs → Shown (all_of bs)
Shown-all_of [] p = tt
Shown-all_of (b ∷ bs) (p, ps) = Shown-append b (all_of bs) p (Shown-all_of bs ps)

Shown-snoc :
    (bs : List (List NormalizedItem)) (b : List NormalizedItem)
    → All Shown bs
    → Shown b
    → All Shown (bs ++ b ∷ [])
Shown-snoc [] b p q = (q, tt)
Shown-snoc (c ∷ bs) b (p, ps) q = (p, Shown-snoc bs b ps q)

Shown-reversed : (bs : List (List NormalizedItem)) → All Shown bs → All Shown (reversed bs)
Shown-reversed [] p = tt
Shown-reversed (b ∷ bs) (p, ps) = Shown-snoc (reversed bs) b (Shown-reversed bs ps) p

module _ (str_or_empty : Json → List ℕ) (truthy : Json → Bool)
    (payload_size : Dict String Json → Option ℕ) (store : ResponseReads) where
  normalize_entry-Shown :
      (out : List NormalizedItem) (entry : Json)
      → Shown out
      → Shown (normalize_entry str_or_empty truthy payload_size out entry)
  unfolding normalize_entry
  normalize_entry-Shown out entry p =
      elim (Option-cases (parse_value str_or_empty entry (length out))) [
        | inl e ↦ rw (normalize_entry, e) p
        | inr (it, e) ↦ elim (Bool-cases (is_reasoning it)) [
          | inl h ↦ rw (normalize_entry, e, h) p
          | inr h ↦ rw (normalize_entry, e, h) (Shown-append out (it ∷ []) p (h, tt))
        ]
      ]

  normalize_from-Shown :
      (out : List NormalizedItem) (raw : List Json)
      → Shown out
      → Shown (normalize_from str_or_empty truthy payload_size out raw)
  unfolding normalize_from
  normalize_from-Shown out [] p = p
  normalize_from-Shown out (entry ∷ raw) p =
      normalize_from-Shown (normalize_entry str_or_empty truthy payload_size out entry) raw
        (normalize_entry-Shown out entry p)

  visible_items-Shown :
      (r : ResponseRecord) (limit : ℕ)
      → Shown (visible_items str_or_empty truthy payload_size store r limit)
  unfolding visible_items normalize_history
  visible_items-Shown r limit =
      normalize_from-Shown [] (raw_items str_or_empty truthy payload_size store r (max 1 limit)) tt

  module _ (ws : String) where
    turn_items-Shown :
        (limits : Limits) (n : ℕ) (rs : List ResponseRecord)
        → All Shown (turn_items str_or_empty truthy payload_size store ws limits n rs)
    turn_items-Shown limits n [] = tt
    turn_items-Shown limits n (r ∷ rs) =
        let limit = limits.max_items - n + 1 in
        (
          visible_items-Shown r limit,
          turn_items-Shown limits
              (n + length (visible_items str_or_empty truthy payload_size store r limit)) rs,
        )

    -- No item that `resolve_chain` gives is a reasoning item, whatever the stored rows hold.
    pub resolve_chain-Shown :
        (self call : Limits) (response_id : String) (res : ChainResolution)
        → resolve_chain str_or_empty truthy payload_size store self response_id ws call ≡ some res
        → Shown res.items
    resolve_chain-Shown self call response_id res h =
        let (res1, e, answer) =
          resolve_chain-answers str_or_empty truthy payload_size store ws self call response_id in
        let same = some-injective res1 res (sym e ∙ h) in
        elim answer [
          | inl (_, items) ↦ rw (sym same, items) tt
          | inr (rs, _, (_, _, _, _, _, items, _, _)) ↦
              let found =
                turn_items str_or_empty truthy payload_size store ws (caps self call) 0 rs in
              rw (sym same, items)
                (Shown-numbered 0 (all_of (reversed found)) (
                  Shown-all_of (reversed found)
                    (Shown-reversed found (turn_items-Shown (caps self call) 0 rs))))
        ]
