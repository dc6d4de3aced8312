-- ===== src/Chain/Whole.antt =====
-- A chain that is small enough is recovered whole (`src/zhongzhuan/responses_v3/chain.py`).
use zhongzhuan.Base.{
  ℕ, ◌+◌, ◌-◌, ◌≤◌, ◌≡◌, refl, ap, ◌∙◌, inl, inr, String, Bool, false, Option, some, List, [], ◌∷◌,
  ◌++◌, length, length-append, take, take_all, map, max, arith, Bool-cases, Option-cases,
}
use zhongzhuan.Base.Eq.{string_eq, text_eq}
use zhongzhuan.Base.Text.{codes}
use zhongzhuan.Base.Dict.{Dict, lookup}
use zhongzhuan.Base.Json.{Json}
use zhongzhuan.Items.{NormalizedItem, parse_value}
use zhongzhuan.Chain.{
  ResponseRecord, ResponseReads, ChainResolution, Limits, caps, reversed, or_else, request_of,
  normalize_input, normalize_entry, normalize_from, normalize_history, raw_items, visible_items,
  resolve_chain,
}
use zhongzhuan.Chain.Ancestry.{Ancestry, is_empty}
use zhongzhuan.Chain.Refinement.Results.{numbered, all_of, count_of, tokens_in, turn_items}
use zhongzhuan.Chain.Resolution.{Recovered, resolve_chain-within}

or_else-take :
    (limit : ℕ) (xs other : List Json)
    → length (or_else xs other) ≤ limit
    → or_else (take limit xs) other ≡ or_else xs other
or_else-take limit [] other h = ap (λ l. or_else l other) (take_all limit [] (omega arith))
or_else-take limit (x ∷ xs) other h = ap (λ l. or_else l other) (take_all limit (x ∷ xs) h)

or_else-take_other :
    (limit : ℕ) (xs other : List Json)
    → length (or_else xs other) ≤ limit
    → or_else xs (take limit other) ≡ or_else xs other
or_else-take_other limit [] other h = take_all limit other h
or_else-take_other limit (x ∷ xs) other h = refl

module _ (str_or_empty : Json → List ℕ) (truthy : Json → Bool)
    (payload_size : Dict String Json → Option ℕ) where
  length-normalize_entry :
      (out : List NormalizedItem) (entry : Json)
      → length (normalize_entry str_or_empty truthy payload_size out entry) ≤ length out + 1
  unfolding normalize_entry
  length-normalize_entry out entry =
      elim (Option-cases (parse_value str_or_empty entry (length out))) [
        | inl e ↦ rw (normalize_entry, e) (omega arith)
        | inr (it, e) ↦ elim (Bool-cases (text_eq.beq it.item_type (codes "reasoning"))) [
          | inl h ↦ rw (normalize_entry, e, h) (omega arith)
          | inr h ↦ rw (normalize_entry, e, h) (omega (arith, length-append out (it ∷ [])))
        ]
      ]

  length-normalize_from :
      (out : List NormalizedItem) (raw : List Json)
      → length (normalize_from str_or_empty truthy payload_size out raw) ≤ length out + length raw
  unfolding normalize_from
  length-normalize_from out [] = omega arith
  length-normalize_from out (entry ∷ raw) = omega (
    arith,
    length-normalize_entry out entry,
    length-normalize_from (normalize_entry str_or_empty truthy payload_size out entry) raw,
  )

  module _ (store : ResponseReads) where
    -- All the wire items of a row, stored or not, its input first.
    abbrev pub whole_raw : ResponseRecord → List Json
    whole_raw r =
        or_else (store.input_items r.response_id) (normalize_input (lookup "input" (request_of r)))
        ++ or_else r.output (store.output_items r.response_id)

    -- Those of them that a model may see again.
    abbrev pub whole_items : ResponseRecord → List NormalizedItem
    whole_items r = normalize_history str_or_empty truthy payload_size (whole_raw r)

    -- How many wire items the rows have, reasoning included.
    abbrev pub raw_count : List ResponseRecord → ℕ
    raw_count [] = 0
    raw_count (r ∷ rs) = length (whole_raw r) + raw_count rs

    length-whole_items : (r : ResponseRecord) → length (whole_items r) ≤ length (whole_raw r)
    unfolding normalize_history
    length-whole_items r = omega (arith, length-normalize_from [] (whole_raw r))

    -- A limit that all the wire items of a row keep does not cut them.
    raw_items-whole :
        (r : ResponseRecord) (limit : ℕ)
        → length (whole_raw r) ≤ limit
        → raw_items str_or_empty truthy payload_size store r limit ≡ whole_raw r
    unfolding raw_items
    raw_items-whole r limit h =
        let inputs = store.input_items r.response_id in
        let asked = normalize_input (lookup "input" (request_of r)) in
        let outputs = store.output_items r.response_id in
        let first = or_else inputs asked in
        let last = or_else r.output outputs in
        let both = length-append first last in
        ap (λ l. or_else l asked ++ or_else r.output (store.list_output_items r.response_id limit))
          (store.list_input_items-take r.response_id limit)
        ∙ ap (λ l. or_else (take limit inputs) asked ++ or_else r.output l)
            (store.list_output_items-take r.response_id limit)
        ∙ ap (λ l. l ++ or_else r.output (take limit outputs))
            (or_else-take limit inputs asked (omega (arith, both, h)))
        ∙ ap (◌++◌ first) (or_else-take_other limit r.output outputs (omega (arith, both, h)))

    visible_items-whole :
        (r : ResponseRecord) (limit : ℕ)
        → length (whole_raw r) ≤ limit
        → visible_items str_or_empty truthy payload_size store r limit ≡ whole_items r
    unfolding visible_items
    visible_items-whole r limit h =
        ap (normalize_history str_or_empty truthy payload_size)
          (raw_items-whole r (max 1 limit) (omega (arith, h)))

    -- The number of items that a row may have after `n` items does not cut it, if the rows that are
    -- left have few enough wire items.
    turn_items-whole :
        (ws : String) (limits : Limits) (n : ℕ) (rs : List ResponseRecord)
        → n + raw_count rs ≤ limits.max_items
        → turn_items str_or_empty truthy payload_size store ws limits n rs ≡ map whole_items rs
    turn_items-whole ws limits n [] h = refl
    turn_items-whole ws limits n (r ∷ rs) h =
        let limit = limits.max_items - n + 1 in
        let whole = visible_items-whole r limit (omega (arith, h)) in
        let rest =
          turn_items-whole ws limits (n + length (whole_items r)) rs
            (omega (arith, h, length-whole_items r)) in
        ap (λ b. b ∷ turn_items str_or_empty truthy payload_size store ws limits (n + length b) rs)
          whole
        ∙ ap (◌∷◌ (whole_items r)) rest

    count_of-whole : (rs : List ResponseRecord) → count_of (map whole_items rs) ≤ raw_count rs
    count_of-whole [] = omega arith
    count_of-whole (r ∷ rs) = omega (arith, length-whole_items r, count_of-whole rs)

    -- A chain of a response whose id is not empty is recovered whole, if it has no more rows than the
    -- caps allow, no more wire items, reasoning included, and no more tokens of visible items: the
    -- result has all the visible items of every row, the oldest row first, numbered from 0 on.
    pub resolve_chain-recovers :
        (ws : String) (self call : Limits) (response_id : String) (rs : List ResponseRecord)
        → is_empty response_id ≡ false
        → Ancestry str_or_empty truthy payload_size store ws response_id rs
        → length rs ≤ (caps self call).max_depth
        → raw_count rs ≤ (caps self call).max_items
        → tokens_in str_or_empty truthy payload_size (map whole_items rs)
          ≤ (caps self call).max_tokens
        → (res : ChainResolution) × (resolve_chain str_or_empty truthy payload_size store self
              response_id ws call
            ≡ some res)
          × Recovered str_or_empty truthy payload_size store ws (caps self call) rs res
          × (res.items ≡ numbered 0 (all_of (reversed (map whole_items rs))))
    resolve_chain-recovers ws self call response_id rs e chain l i t =
        let limits = caps self call in
        let whole = turn_items-whole ws limits 0 rs (omega (arith, i)) in
        let (res, f, done) =
          resolve_chain-within str_or_empty truthy payload_size store ws self call response_id rs e
            chain l (rw whole (omega (arith, i, count_of-whole rs))) (rw whole t) in
        let (_, _, _, _, _, items, _, _) = done in
        (res, f, done, items ∙ ap (λ bs. numbered 0 (all_of (reversed bs))) whole)
