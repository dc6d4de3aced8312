-- ===== src/Tests/Chains.antt =====
-- Runs of the walk over a chain of responses and of the parsing of items.
use zhongzhuan.Base.{
  ℕ, ◌≤◌, ◌≡◌, ◌⊎◌, refl, String, Bool, true, false, Option, some, List, [], ◌∷◌, length, map,
  arith,
}
use zhongzhuan.Base.Eq.{string_eq, text_eq}
use zhongzhuan.Base.Text.{codes}
use zhongzhuan.Base.Dict.{Dict}
use zhongzhuan.Base.Json.{
  Json, null, boolean, number, text, array, object, no_items, item, no_fields, field,
}
use zhongzhuan.Items.{
  NormalizedItem, parse_item, parse_value, get_handler, item_registry, bound_payload, item_role,
  redact_item,
}
use zhongzhuan.Items.Redaction.{Bare, parse_item-reasoning}
use zhongzhuan.Chain.{
  ResponseRecord, ResponseReads, ChainResolution, Limits, reversed, default_limits, caps,
  resolve_chain, is_compact_boundary, request_of, normalize_history, normalize_from,
  normalize_entry, normalize_input, tokens_of, estimate_tokens,
}
use zhongzhuan.Chain.Table.{get_response, reads}
use zhongzhuan.Chain.Ancestry.{Ancestry, root, child}
use zhongzhuan.Chain.Refinement.Results.{tokens_in, numbered, all_of}
use zhongzhuan.Chain.Resolution.{Recovered, Refused, resolve_chain-answers}
use zhongzhuan.Chain.Whole.{raw_count, whole_items, resolve_chain-recovers}
use zhongzhuan.Chain.Visible.{Shown, resolve_chain-Shown}

-- Stand-ins for Python's `str`, `bool` and `json.dumps`.
abbrev str_or_empty : Json → List ℕ
str_or_empty v = []

abbrev truthy : Json → Bool
truthy (boolean b) = b
truthy (text t) = true
truthy null = false
truthy (number n) = true
truthy (array vs) = true
truthy (object fs) = true

abbrev payload_size : Dict String Json → Option ℕ
payload_size d = some (length d)

abbrev reasoning : Dict String Json
reasoning =
    ("type", text (codes "reasoning"))
    ∷ ("id", text (codes "rs_1"))
    ∷ ("content", text (codes "secret"))
    ∷ ("summary", array (item (object (field "text" (text (codes "secret")) no_fields)) no_items))
    ∷ []

parse_item-reasoning_example :
    (it : NormalizedItem) × (parse_item str_or_empty reasoning 3 ≡ some it)
    × (it.item_type ≡ codes "reasoning")
    × (it.id ≡ codes "rs_1")
    × (it.seq ≡ 3)
    × Bare str_or_empty it.payload
parse_item-reasoning_example = parse_item-reasoning str_or_empty reasoning 3 refl

abbrev said : Json
said = object (
    field "type" (text (codes "message"))
      (field "role" (text (codes "user")) (field "content" (text (codes "hi")) no_fields)))

abbrev thought : Json
thought =
    object
      (field "type" (text (codes "reasoning")) (field "content" (text (codes "secret")) no_fields))

abbrev first_row : ResponseRecord
first_row = record {
  response_id = "resp_1";
  workspace_id = "w";
  previous_response_id = "";
  request = object (field "input" (array (item said no_items)) no_fields);
  output = thought ∷ [];
}

abbrev second_row : ResponseRecord
second_row = record {
  response_id = "resp_2";
  workspace_id = "w";
  previous_response_id = "resp_1";
  request = object (field "input" (text (codes "and")) no_fields);
  output = [];
}

abbrev foreign_row : ResponseRecord
foreign_row = record {
  response_id = "resp_3";
  workspace_id = "v";
  previous_response_id = "";
  request = null;
  output = [];
}

abbrev rows : List ResponseRecord
rows = second_row ∷ foreign_row ∷ first_row ∷ []

abbrev stored : ResponseReads
stored = reads (record { responses = rows; response_input_items = []; response_output_items = [] })

abbrev call : Limits
call = record { max_depth = 2; max_items = 10; max_tokens = 50 }

resolve_chain-answers_example :
    (res : ChainResolution) × (resolve_chain str_or_empty truthy payload_size stored default_limits
        "resp_2" "w" call
      ≡ some res)
    × (Refused str_or_empty truthy payload_size stored "w" (caps default_limits call) res
        ⊎ ((rs : List ResponseRecord) × Ancestry str_or_empty truthy payload_size stored "w"
              "resp_2" rs
            × Recovered str_or_empty truthy payload_size stored "w"
                (caps default_limits call)
                rs
                res))
resolve_chain-answers_example =
    resolve_chain-answers str_or_empty truthy payload_size stored "w" default_limits call "resp_2"

chain : Ancestry str_or_empty truthy payload_size stored "w" "resp_2" (second_row ∷ first_row ∷ [])
unfolding get_response reads is_compact_boundary request_of
chain =
    child "resp_2" second_row (first_row ∷ []) refl refl refl
      (root "resp_1" first_row refl refl refl)

abbrev limits : Limits
limits = caps default_limits call

abbrev ancestors : List ResponseRecord
ancestors = second_row ∷ first_row ∷ []

within_items : raw_count str_or_empty truthy payload_size stored ancestors ≤ limits.max_items
unfolding caps default_limits normalize_input request_of reads
within_items = omega arith

within_tokens :
    tokens_in str_or_empty truthy payload_size
      (map (whole_items str_or_empty truthy payload_size stored) ancestors)
    ≤ limits.max_tokens
unfolding caps default_limits normalize_history normalize_from normalize_entry normalize_input
    request_of reads parse_value parse_item get_handler item_registry bound_payload item_role
    redact_item tokens_of estimate_tokens
within_tokens = omega arith

within_depth : length ancestors ≤ limits.max_depth
unfolding caps default_limits
within_depth = omega arith

resolve_chain-recovers_example :
    (res : ChainResolution) × (resolve_chain str_or_empty truthy payload_size stored default_limits
        "resp_2" "w" call
      ≡ some res)
    × Recovered str_or_empty truthy payload_size stored "w" limits ancestors res
    × (res.items
        ≡ numbered 0 (
            all_of
              (reversed (map (whole_items str_or_empty truthy payload_size stored) ancestors))))
resolve_chain-recovers_example =
    resolve_chain-recovers str_or_empty truthy payload_size stored "w" default_limits call "resp_2"
      ancestors refl chain within_depth within_items within_tokens

abbrev answer : ChainResolution
answer =
    (resolve_chain-answers str_or_empty truthy payload_size stored "w" default_limits call
      "resp_2").0

resolve_chain-Shown_example : Shown answer.items
resolve_chain-Shown_example =
    resolve_chain-Shown str_or_empty truthy payload_size stored "w" default_limits call "resp_2"
      answer
      (resolve_chain-answers str_or_empty truthy payload_size stored "w" default_limits call
        "resp_2").1
