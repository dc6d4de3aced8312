-- ===== src/Chain/Resolution.antt =====
-- What `resolve_chain` answers (`src/zhongzhuan/responses_v3/chain.py`).
use zhongzhuan.Base.{
  ℕ, ◌+◌, ◌≤◌, ◌≡◌, refl, sym, ap, ◌∙◌, ◌⊎◌, inl, inr, String, Bool, false, Option, none, some,
  List, [], ◌∷◌, All, length, map, arith,
}
use zhongzhuan.Base.Eq.{string_eq, text_eq}
use zhongzhuan.Base.Dict.{Dict}
use zhongzhuan.Base.Json.{Json}
use zhongzhuan.Errors.{invalid_client_request}
use zhongzhuan.Chain.{
  ResponseRecord, ResponseReads, ChainResolution, new_resolution, new_walk, fail, finish, Limits,
  caps, resolve_from, resolve_chain, append_buckets, reversed,
}
use zhongzhuan.Chain.Ancestry.{Ancestry, root, child, is_empty}
use zhongzhuan.Chain.Refinement.{after, Within, Walked, walk_ends, walk-Walked, walk_complete}
use zhongzhuan.Chain.Refinement.Acyclic.{ids}
use zhongzhuan.Chain.Refinement.Results.{
  numbered, all_of, count_of, tokens_in, turn_items, after_lem, Within-iff, append_buckets-numbered,
  length-numbered, length-all_of-reversed,
}

module _ (str_or_empty : Json → List ℕ) (truthy : Json → Bool)
    (payload_size : Dict String Json → Option ℕ) (store : ResponseReads) (ws : String) where
  abbrev Chain : String → List ResponseRecord → Type 0
  Chain = Ancestry str_or_empty truthy payload_size store ws

  -- The rows of a chain are rows of the workspace, and its ids are theirs.
  Chain-owned :
      (id : String) (rs : List ResponseRecord)
      → Chain id rs
      → All (λ r. r.workspace_id ≡ ws) rs × (ids id rs ≡ map (λ r. r.response_id) rs)
  Chain-owned id _ (root _ r g _ _) =
      let (i, w) = store.get_response-found id ws r g in ((w, tt), ap (λ j. j ∷ []) (sym i))
  Chain-owned id _ (child _ r rs g _ _ c) =
      let (i, w) = store.get_response-found id ws r g in
      let (a, b) = Chain-owned r.previous_response_id rs c in
      ((w, a), ap (λ j. j ∷ ids r.previous_response_id rs) (sym i) ∙ ap (◌∷◌ r.response_id) b)

  module _ (limits : Limits) where
    -- A result that has recovered the rows of a chain: all of them rows of the workspace, no more
    -- than the depth allows, and the items that are visible among those read for each row, the oldest
    -- row first, numbered from 0 on.
    abbrev pub Recovered : List ResponseRecord → ChainResolution → Type 0
    Recovered rs res =
        (res.error ≡ none)
        × (length rs ≤ limits.max_depth)
        × (res.depth ≡ length rs)
        × (res.visited ≡ map (λ r. r.response_id) rs)
        × All (λ r. r.workspace_id ≡ ws) rs
        × (res.items
            ≡ numbered 0 (
                all_of
                  (reversed (turn_items str_or_empty truthy payload_size store ws limits 0 rs))))
        × (length res.items ≤ limits.max_items)
        × (tokens_in str_or_empty truthy payload_size
              (turn_items str_or_empty truthy payload_size store ws limits 0 rs)
            ≤ limits.max_tokens)

    -- A failure, without items.
    abbrev pub Refused : ChainResolution → Type 0
    Refused res = (res.error ≡ some invalid_client_request) × (res.items ≡ [])

    recovered :
        (id : String) (rs : List ResponseRecord)
        → Chain id rs
        → Within str_or_empty truthy payload_size store ws limits id rs new_walk
        → length rs ≤ limits.max_depth
        → Recovered rs
            (finish (after str_or_empty truthy payload_size store ws limits id rs new_walk))
    unfolding finish new_walk new_resolution
    recovered id rs c within l =
        let (d, v, e, b) =
          after_lem str_or_empty truthy payload_size store ws limits id rs new_walk in
        let (i, t) =
          (Within-iff str_or_empty truthy payload_size store ws limits id rs new_walk (omega arith)
              (omega arith)).0
            within in
        let (owned, named) = Chain-owned id rs c in
        let found = turn_items str_or_empty truthy payload_size store ws limits 0 rs in
        let items =
          ap (λ bs. append_buckets [] (reversed bs)) b ∙ append_buckets-numbered (reversed found) in
        (
          e,
          l,
          d ∙ omega arith,
          v ∙ named,
          owned,
          items,
          omega (
            arith,
            i,
            ap length items,
            length-numbered 0 (all_of (reversed found)),
            length-all_of-reversed found,
          ),
          omega (arith, t),
        )

    Walked-answers :
        (id : String) (res : ChainResolution)
        → Walked str_or_empty truthy payload_size store ws limits id new_walk res
        → Refused res ⊎ ((rs : List ResponseRecord) × Chain id rs × Recovered rs res)
    unfolding new_walk new_resolution
    Walked-answers id res (inl f) = inl f
    Walked-answers id res (inr (rs, c, within, l, f)) =
        inr (rs, c, rw f (recovered id rs c within (omega (arith, l))))

    resolve_from-answers :
        (id : String)
        → (res : ChainResolution) × (resolve_from str_or_empty truthy payload_size store ws limits
              id
            ≡ some res)
          × (Refused res ⊎ ((rs : List ResponseRecord) × Chain id rs × Recovered rs res))
    unfolding resolve_from fail new_walk new_resolution
    resolve_from-answers String.[] = (_, refl, inl (refl, refl))
    resolve_from-answers (String.◌∷◌ c s) =
        let id = String.◌∷◌ c s in
        let fuel = limits.max_depth + 1 in
        let (res, e) =
          walk_ends str_or_empty truthy payload_size store ws limits fuel id new_walk (omega arith)
            (omega arith) in
        (
          res,
          e,
          Walked-answers id res
              (walk-Walked str_or_empty truthy payload_size store ws limits fuel id new_walk res e),
        )

    resolve_from-recovers :
        (id : String) (rs : List ResponseRecord)
        → is_empty id ≡ false
        → Chain id rs
        → length rs ≤ limits.max_depth
        → count_of (turn_items str_or_empty truthy payload_size store ws limits 0 rs)
          ≤ limits.max_items
        → tokens_in str_or_empty truthy payload_size
            (turn_items str_or_empty truthy payload_size store ws limits 0 rs)
          ≤ limits.max_tokens
        → (res : ChainResolution) × (resolve_from str_or_empty truthy payload_size store ws limits
              id
            ≡ some res)
          × Recovered rs res
    unfolding resolve_from new_walk new_resolution
    resolve_from-recovers String.[] rs h c l i t = absurd (ground (arith, h))
    resolve_from-recovers (String.◌∷◌ c s) rs h chain l i t =
        let id = String.◌∷◌ c s in
        let within =
          (Within-iff str_or_empty truthy payload_size store ws limits id rs new_walk (omega arith)
              (omega arith)).1
            (omega (arith, i)) (omega (arith, t)) in
        (
          finish (after str_or_empty truthy payload_size store ws limits id rs new_walk),
          walk_complete str_or_empty truthy payload_size store ws limits (limits.max_depth + 1) id
              rs new_walk chain within (λ k e. absurd (ground (arith, e))) (omega (arith, l))
              (omega (arith, l)),
          recovered id rs chain within l,
        )

  -- Every walk ends with an answer, which is a failure without items, or a success that has recovered
  -- the whole of a chain: the rows from the response to the first one that is compacted or names no
  -- parent, all of them rows of the workspace and no more than the depth allows. The items that are
  -- visible among those read for each row stand oldest turn first, numbered from 0 on, within the
  -- limits on items and on tokens.
  pub resolve_chain-answers :
      (self call : Limits) (response_id : String)
      → (res : ChainResolution) × (resolve_chain str_or_empty truthy payload_size store self
            response_id ws call
          ≡ some res)
        × (Refused (caps self call) res
            ⊎ ((rs : List ResponseRecord) × Chain response_id rs
                × Recovered (caps self call) rs res))
  unfolding resolve_chain
  resolve_chain-answers self call response_id = resolve_from-answers (caps self call) response_id

  -- A chain whose rows, items and tokens, as they are read, are within the caps is recovered.
  pub resolve_chain-within :
      (self call : Limits) (response_id : String) (rs : List ResponseRecord)
      → is_empty response_id ≡ false
      → Chain response_id rs
      → length rs ≤ (caps self call).max_depth
      → count_of (turn_items str_or_empty truthy payload_size store ws (caps self call) 0 rs)
        ≤ (caps self call).max_items
      → tokens_in str_or_empty truthy payload_size
          (turn_items str_or_empty truthy payload_size store ws (caps self call) 0 rs)
        ≤ (caps self call).max_tokens
      → (res : ChainResolution) × (resolve_chain str_or_empty truthy payload_size store self
            response_id ws call
          ≡ some res)
        × Recovered (caps self call) rs res
  unfolding resolve_chain
  resolve_chain-within self call response_id rs =
      resolve_from-recovers (caps self call) response_id rs
