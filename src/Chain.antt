-- ===== src/Chain.antt =====
-- The walk over `previous_response_id` chains, `ChainResolver` of
-- `src/zhongzhuan/responses_v3/chain.py`, over the reads of `src/zhongzhuan/store/response_store.py`.
-- A walk does one read at a time and no write. The length of a JSON text is a parameter.
pub mod State
pub mod Table
pub mod Ancestry
pub mod Refinement
pub mod Resolution
pub mod Whole
pub mod Visible
pub use State.{
  ResponseRecord, ResponseReads, ChainResolution, Walk, Turn, Limits, failed, arrived, goes_on, ok,
  items_of, fields_of, unless_blank, or_else, next_turn, reversed, continue_with,
}
unfoldable pub use State.{
  new_resolution, fail, reseq, normalize_input, request_of, new_walk, enter, default_limits,
  new_resolver, caps, append_bucket, append_buckets, finish,
}
use zhongzhuan.Base.{
  ℕ, ◌≡◌, zero, suc, ◌+◌, ◌-◌, ◌/◌, min, max, String, Bool, true, false, ◌&&◌, not, Option, none,
  some, List, [], ◌∷◌, ◌++◌, if◌then◌else◌, length, ltb, leb,
}
use zhongzhuan.Emitter.{is_in, add}
use zhongzhuan.Base.Eq.{string_eq, text_eq}
use zhongzhuan.Base.Dict.{Dict, lookup, insert}
use zhongzhuan.Base.Text.{codes, strip}
use zhongzhuan.Base.Decimal.{decimal}
use zhongzhuan.Base.Json.{
  Json, null, boolean, number, text, array, object, Items, no_items, item, Fields, no_fields, field,
}
use zhongzhuan.Budget.{TerminalReason, response_chain_cycle, response_chain_too_deep}
use zhongzhuan.Errors.{ErrorClass, invalid_client_request, to_error_response, reason_value}
use zhongzhuan.Items.{
  NormalizedItem, parse_value, parse_input_items, serialize_item, entries, user_message,
}

-- `truthy` is Python's `bool` of a value, `payload_size` the length of a payload's JSON text, where it has one.
module _ (str_or_empty : Json → List ℕ) (truthy : Json → Bool)
    (payload_size : Dict String Json → Option ℕ) where
  -- `_is_compact_boundary`
  unfoldable pub is_compact_boundary : ResponseRecord → Bool
  is_compact_boundary r = elim (lookup "compact_boundary" (request_of r)) [
    | none ↦ false
    | some v ↦ truthy v
  ]

  -- `_estimate_tokens`
  unfoldable pub estimate_tokens : NormalizedItem → ℕ
  estimate_tokens it = elim (payload_size it.payload) [
    | none ↦ max 1 (0 / 4)
    | some size ↦ max 1 (size / 4)
  ]

  -- `sum(_estimate_tokens(it) for it in bucket)`
  unfoldable pub tokens_of : List NormalizedItem → ℕ
  tokens_of [] = 0
  tokens_of (it ∷ bucket) = estimate_tokens it + tokens_of bucket

  -- The body of the loop of `normalize_history`: `out` with the entry, unless it is left out.
  unfoldable pub normalize_entry : List NormalizedItem → Json → List NormalizedItem
  normalize_entry out entry = elim (parse_value str_or_empty entry (length out)) [
    | none ↦ out
    | some it ↦ if text_eq.beq it.item_type (codes "reasoning") then out else out ++ it ∷ []
  ]

  unfoldable pub normalize_from : List NormalizedItem → List Json → List NormalizedItem
  normalize_from out [] = out
  normalize_from out (entry ∷ raw_items) = normalize_from (normalize_entry out entry) raw_items

  -- `normalize_history`
  unfoldable pub normalize_history : List Json → List NormalizedItem
  normalize_history raw_items = normalize_from [] raw_items

  module _ (store : ResponseReads) where
    -- The wire items of a turn, its input first, at most `limit` stored rows of each.
    unfoldable pub raw_items : ResponseRecord → ℕ → List Json
    raw_items r limit =
        or_else (store.list_input_items r.response_id limit)
          (normalize_input (lookup "input" (request_of r)))
        ++ or_else r.output (store.list_output_items r.response_id limit)

    -- `_visible_items`
    unfoldable pub visible_items : ResponseRecord → ℕ → List NormalizedItem
    visible_items r limit = normalize_history (raw_items r (max 1 limit))

    module _ (ws : String) (limits : Limits) where
      abbrev pub cycle_at : String → ChainResolution → ChainResolution
      cycle_at current res =
          fail res invalid_client_request (some response_chain_cycle)
            (codes "response chain cycle detected at " ++ codes current)

      abbrev pub depth_exceeded : String → ChainResolution → ChainResolution
      depth_exceeded current res =
          fail res invalid_client_request (some response_chain_too_deep)
            (codes "response chain exceeds the maximum depth of " ++ decimal limits.max_depth)

      abbrev pub not_found : String → ChainResolution → ChainResolution
      not_found current res =
          fail res invalid_client_request none
            (codes "previous_response_id " ++ codes current ++ codes " not found")

      abbrev pub items_exceeded : String → ChainResolution → ChainResolution
      items_exceeded current res = fail res invalid_client_request (some response_chain_too_deep) (
          codes "recovered chain exceeds the maximum of "
          ++ decimal limits.max_items
          ++ codes " items")

      abbrev pub tokens_exceeded : String → ChainResolution → ChainResolution
      tokens_exceeded current res = fail res invalid_client_request (some response_chain_too_deep) (
          codes "recovered chain exceeds the maximum of "
          ++ decimal limits.max_tokens
          ++ codes " tokens")

      abbrev pub self_reference : String → ChainResolution → ChainResolution
      self_reference current res =
          fail res invalid_client_request (some response_chain_cycle) (
            codes "response "
            ++ codes current
            ++ codes " references itself as previous_response_id")

      -- The tests behind the two totals.
      unfoldable pub leave : String → ResponseRecord → Walk → Turn
      leave current r w =
          if string_eq.beq r.previous_response_id current
          then failed (self_reference current w.res)
          else if is_compact_boundary r
          then arrived w
          else next_turn r.previous_response_id w

      -- A turn whose bucket has been read.
      unfoldable pub collect : String → ResponseRecord → List NormalizedItem → Walk → Turn
      collect current r bucket w =
          let total_items = w.total_items + length bucket in
          let total_tokens = w.total_tokens + tokens_of bucket in
          if ltb limits.max_items total_items
          then failed (items_exceeded current w.res)
          else if ltb limits.max_tokens total_tokens
          then failed (tokens_exceeded current w.res)
          else leave current r (record w {
            total_items = total_items;
            total_tokens = total_tokens;
            buckets = w.buckets ++ bucket ∷ [];
          })

      -- A turn whose row has been read.
      unfoldable pub look_into : String → Walk → Option ResponseRecord → Turn
      look_into current w none = failed (not_found current w.res)
      look_into current w (some r) =
          collect current r (visible_items r (limits.max_items - w.total_items + 1))
            (enter current w)

      -- The body of the loop.
      unfoldable pub turn : String → Walk → Turn
      turn current w =
          if is_in current w.seen
          then failed (cycle_at current w.res)
          else if leb limits.max_depth w.res.depth
          then failed (depth_exceeded current w.res)
          else look_into current w (store.get_response current ws)

      -- The loop, on fuel; `none` is a loop that is cut off.
      unfoldable pub walk : ℕ → String → Walk → Option ChainResolution
      walk zero current w = none
      walk (suc fuel) current w = continue_with (walk fuel) (turn current w)

      unfoldable pub resolve_from : String → Option ChainResolution
      resolve_from String.[] = some (
          fail new_resolution invalid_client_request none
            (codes "previous_response_id must be a non-empty response id"))
      resolve_from (String.◌∷◌ c s) = walk (limits.max_depth + 1) (String.◌∷◌ c s) new_walk

    -- `resolve_chain`
    unfoldable pub resolve_chain : Limits → String → String → Limits → Option ChainResolution
    resolve_chain self response_id ws call = resolve_from ws (caps self call) response_id

  abbrev unless_reasoning : NormalizedItem → List (Dict String Json) → List (Dict String Json)
  unless_reasoning it wire =
      if text_eq.beq it.item_type (codes "reasoning")
      then wire
      else serialize_item str_or_empty it ∷ wire

  -- The wire objects of the items that are no reasoning.
  unfoldable pub serialize_visible : List NormalizedItem → List (Dict String Json)
  serialize_visible [] = []
  serialize_visible (it ∷ its) = unless_reasoning it (serialize_visible its)

  -- `build_upstream_input`
  unfoldable pub build_upstream_input : ChainResolution → Json → List (Dict String Json)
  build_upstream_input resolution current_input =
      let wire = serialize_visible resolution.items in
      wire ++ serialize_visible (parse_input_items str_or_empty current_input (length wire))

-- `resolution.error or ErrorClass.INVALID_CLIENT_REQUEST`
abbrev or_invalid : Option ErrorClass → ErrorClass
or_invalid none = invalid_client_request
or_invalid (some err) = err

abbrev or_unresolved : List ℕ → List ℕ
or_unresolved [] = codes "previous_response_id could not be resolved"
or_unresolved (c ∷ s) = c ∷ s

abbrev with_reason : Option TerminalReason → List ℕ → List ℕ
with_reason none message = message
with_reason (some reason) message =
    message ++ codes " (" ++ codes (reason_value reason) ++ codes ")"

-- `chain_error_response`
unfoldable pub chain_error_response : (List ℕ → List ℕ) → ChainResolution → ℕ × Fields
chain_error_response redact resolution =
    to_error_response redact (or_invalid resolution.error)
      (with_reason resolution.terminal_reason (or_unresolved resolution.message))
      (some "previous_response_id") none
