-- ===== src/Chain/Ancestry.antt =====
-- What a chain of responses is, apart from the loop that walks it, and the turns of the loop
-- (`src/zhongzhuan/responses_v3/chain.py`).
use zhongzhuan.Base.{
  ℕ, ◌+◌, ◌-◌, ◌≤◌, ◌<◌, ◌≡◌, refl, ◌⊎◌, inl, inr, String, Bool, true, false, ◌||◌, Option, some,
  List, [], ◌∷◌, ◌++◌, if◌then◌else◌, length, ltb, leb, arith, Bool-cases, Option-cases,
}
use zhongzhuan.Base.Eq.{string_eq}
use zhongzhuan.Base.Dict.{Dict}
use zhongzhuan.Base.Json.{Json}
use zhongzhuan.Emitter.{is_in}
use zhongzhuan.Errors.{invalid_client_request}
use zhongzhuan.Chain.{
  ResponseRecord, ResponseReads, ChainResolution, fail, Walk, enter, Turn, failed, arrived,
  next_turn, Limits, is_compact_boundary, tokens_of, visible_items, leave, collect, look_into, turn,
  self_reference, items_exceeded, tokens_exceeded, not_found, depth_exceeded, cycle_at,
}

abbrev pub is_empty : String → Bool
is_empty String.[] = true
is_empty (String.◌∷◌ c s) = false

module _ (str_or_empty : Json → List ℕ) (truthy : Json → Bool)
    (payload_size : Dict String Json → Option ℕ) (store : ResponseReads) (ws : String) where
  -- A chain ends at a row that names no earlier response, and at a compacted one.
  abbrev pub is_root : ResponseRecord → Bool
  is_root r =
      is_compact_boundary str_or_empty truthy payload_size r || is_empty r.previous_response_id

  -- The rows of a response and of its ancestors in the workspace, the response first.
  pub data Ancestry : String → List ResponseRecord → Type 0 where
    root :
        (id : String) (r : ResponseRecord)
        → store.get_response id ws ≡ some r
        → string_eq.beq r.previous_response_id id ≡ false
        → is_root r ≡ true
        → Ancestry id (r ∷ [])
    child :
        (id : String) (r : ResponseRecord) (rs : List ResponseRecord)
        → store.get_response id ws ≡ some r
        → string_eq.beq r.previous_response_id id ≡ false
        → is_root r ≡ false
        → Ancestry r.previous_response_id rs
        → Ancestry id (r ∷ rs)

  module _ (limits : Limits) where
    -- The loop's variables after a turn that found the row and stayed within the limits.
    unfoldable pub advance : String → ResponseRecord → Walk → Walk
    advance id r w =
        let bucket =
          visible_items str_or_empty truthy payload_size store r
            (limits.max_items - w.total_items + 1) in
        let w1 = enter id w in
        record w1 {
          total_items = w1.total_items + length bucket;
          total_tokens = w1.total_tokens + tokens_of str_or_empty truthy payload_size bucket;
          buckets = w1.buckets ++ bucket ∷ [];
        }

    abbrev pub Entered : String → ResponseRecord → Walk → Type 0
    Entered id r w =
        (is_in id w.seen ≡ false)
        × (w.res.depth < limits.max_depth)
        × (store.get_response id ws ≡ some r)
        × ((advance id r w).total_items ≤ limits.max_items)
        × ((advance id r w).total_tokens ≤ limits.max_tokens)
        × (string_eq.beq r.previous_response_id id ≡ false)

    abbrev pub after_turn : ResponseRecord → Walk → Turn
    after_turn r w =
        if is_compact_boundary str_or_empty truthy payload_size r
        then arrived w
        else next_turn r.previous_response_id w

    -- A failure has an error and no items.
    abbrev pub Failure : Turn → Type 0
    Failure t =
        (res : ChainResolution) × (t ≡ failed res)
        × (res.items ≡ [])
        × (res.error ≡ some invalid_client_request)

    abbrev at : String → Walk → Turn
    at id w = turn str_or_empty truthy payload_size store ws limits id w

    collect-cases :
        (id : String) (r : ResponseRecord) (w : Walk)
        → let bucket =
            visible_items str_or_empty truthy payload_size store r
              (limits.max_items - w.total_items + 1) in
          let t =
            collect str_or_empty truthy payload_size store ws limits id r bucket (enter id w) in
          Failure t
          ⊎ (((advance id r w).total_items ≤ limits.max_items)
              × ((advance id r w).total_tokens ≤ limits.max_tokens)
              × (string_eq.beq r.previous_response_id id ≡ false)
              × (t ≡ after_turn r (advance id r w)))
    unfolding collect leave advance enter fail
    collect-cases id r w =
        let bucket =
          visible_items str_or_empty truthy payload_size store r
            (limits.max_items - w.total_items + 1) in
        elim (Bool-cases (ltb limits.max_items (w.total_items + length bucket))) [
          | inl h ↦ inl (
            items_exceeded str_or_empty truthy payload_size store ws limits id (enter id w).res,
            rw h refl,
            refl,
            refl,
          )
          | inr h ↦
              elim (Bool-cases (
                ltb limits.max_tokens
                  (w.total_tokens + tokens_of str_or_empty truthy payload_size bucket))) [
                    | inl k ↦ inl (
                      tokens_exceeded str_or_empty truthy payload_size store ws limits id
                          (enter id w).res,
                      rw (h, k) refl,
                      refl,
                      refl,
                    )
                    | inr k ↦ elim (Bool-cases (string_eq.beq r.previous_response_id id)) [
                      | inl e ↦ inl (
                        self_reference str_or_empty truthy payload_size store ws limits id
                            (enter id w).res,
                        rw (h, k, e) refl,
                        refl,
                        refl,
                      )
                      | inr e ↦ inr (ground (arith, h), ground (arith, k), e, rw (h, k, e) refl)
                    ]
                  ]
        ]

    -- A turn fails, or enters the row and goes to the next id or ends the loop.
    pub turn-cases :
        (id : String) (w : Walk)
        → Failure (at id w)
          ⊎ ((r : ResponseRecord) × Entered id r w × (at id w ≡ after_turn r (advance id r w)))
    unfolding turn fail look_into
    turn-cases id w = elim (Bool-cases (is_in id w.seen)) [
      | inl h ↦ inl (
        cycle_at str_or_empty truthy payload_size store ws limits id w.res,
        rw h refl,
        refl,
        refl,
      )
      | inr h ↦ elim (Bool-cases (leb limits.max_depth w.res.depth)) [
        | inl k ↦ inl (
          depth_exceeded str_or_empty truthy payload_size store ws limits id w.res,
          rw (h, k) refl,
          refl,
          refl,
        )
        | inr k ↦ elim (Option-cases (store.get_response id ws)) [
          | inl e ↦ inl (
            not_found str_or_empty truthy payload_size store ws limits id w.res,
            rw (h, k, e) refl,
            refl,
            refl,
          )
          | inr (r, e) ↦ elim (collect-cases id r w) [
            | inl (res, f, i, x) ↦ inl (res, rw (h, k, e) f, i, x)
            | inr (a, b, c, f) ↦ inr (r, (h, ground (arith, k), e, a, b, c), rw (h, k, e) f)
          ]
        ]
      ]
    ]

    collect-Entered :
        (id : String) (r : ResponseRecord) (w : Walk)
        → let bucket =
            visible_items str_or_empty truthy payload_size store r
              (limits.max_items - w.total_items + 1) in
          (advance id r w).total_items ≤ limits.max_items
          → (advance id r w).total_tokens ≤ limits.max_tokens
          → string_eq.beq r.previous_response_id id ≡ false
          → collect str_or_empty truthy payload_size store ws limits id r bucket (enter id w)
            ≡ after_turn r (advance id r w)
    unfolding collect leave advance enter
    collect-Entered id r w i t s =
        let bucket =
          visible_items str_or_empty truthy payload_size store r
            (limits.max_items - w.total_items + 1) in
        let e2 : ltb limits.max_items (w.total_items + length bucket) ≡ false = ground (arith, i) in
        let e3 : ltb limits.max_tokens
              (w.total_tokens + tokens_of str_or_empty truthy payload_size bucket)
            ≡ false =
          ground (arith, t) in
        rw (e2, e3, s) refl

    -- A turn that may enter a row does.
    pub turn-Entered :
        (id : String) (r : ResponseRecord) (w : Walk)
        → Entered id r w
        → at id w ≡ after_turn r (advance id r w)
    unfolding turn look_into
    turn-Entered id r w (seen, d, g, i, t, s) =
        let e1 : leb limits.max_depth w.res.depth ≡ false = ground (arith, d) in
        rw (seen, e1, g) (collect-Entered id r w i t s)
