-- ===== src/Items.antt =====
-- The item types of the Responses protocol and how an item is parsed, redacted and written
-- (`src/zhongzhuan/proxy/protocol/item_registry.py`, with `NormalizedItem` of `responses_models.py`).
-- A wire object is a dictionary of JSON values. Python's `str` of a value that is no text is a parameter.
pub mod Redaction
use zhongzhuan.Base.{
  ℕ, ◌+◌, String, Bool, true, false, Option, none, some, List, [], ◌∷◌, if◌then◌else◌,
}
use zhongzhuan.Base.Eq.{string_eq, text_eq}
use zhongzhuan.Base.Dict.{Dict, lookup, insert, erase}
use zhongzhuan.Base.Text.{codes, strip}
use zhongzhuan.Base.Decimal.{decimal}
use zhongzhuan.Base.Json.{
  Json, null, boolean, number, text, array, object, Items, no_items, item, Fields, no_fields, field,
}

-- `class NormalizedItem`
pub record NormalizedItem : Type 0 where
  pub id : List ℕ
  pub seq : ℕ
  pub item_type : List ℕ
  pub role : List ℕ
  pub payload : Dict String Json
  pub redacted : Bool

-- `class ItemHandler`, whose `role_extractor` is `_role_of` or nothing.
pub record ItemHandler : Type 0 where
  pub item_type : List ℕ
  pub is_input : Bool
  pub has_role : Bool
  pub redact_payload : Bool
  pub extracts_role : Bool

abbrev handler : String → Bool → ItemHandler
handler type is_input = record {
  item_type = codes type;
  is_input = is_input;
  has_role = false;
  redact_payload = false;
  extracts_role = false;
}

abbrev message_handler : ItemHandler
message_handler = record (handler "message" true) { has_role = true; extracts_role = true }

abbrev reasoning_handler : ItemHandler
reasoning_handler = record (handler "reasoning" false) { redact_payload = true }

-- `ITEM_REGISTRY`
unfoldable pub item_registry : Dict (List ℕ) ItemHandler
item_registry =
    (codes "message", message_handler)
    ∷ (codes "reasoning", reasoning_handler)
    ∷ (codes "function_call", handler "function_call" false)
    ∷ (codes "function_call_output", handler "function_call_output" true)
    ∷ (codes "custom_tool_call", handler "custom_tool_call" true)
    ∷ (codes "custom_tool_call_output", handler "custom_tool_call_output" true)
    ∷ (codes "file_search_call", handler "file_search_call" false)
    ∷ (codes "web_search_call", handler "web_search_call" false)
    ∷ (codes "computer_call", handler "computer_call" false)
    ∷ (codes "computer_call_output", handler "computer_call_output" true)
    ∷ (codes "code_interpreter_call", handler "code_interpreter_call" false)
    ∷ (codes "image_generation_call", handler "image_generation_call" false)
    ∷ (codes "local_shell_call", handler "local_shell_call" false)
    ∷ (codes "local_shell_call_output", handler "local_shell_call_output" true)
    ∷ (codes "mcp_call", handler "mcp_call" false)
    ∷ (codes "mcp_list_tools", handler "mcp_list_tools" false)
    ∷ (codes "mcp_approval_request", handler "mcp_approval_request" false)
    ∷ (codes "mcp_approval_response", handler "mcp_approval_response" false)
    ∷ []

-- `get_handler`
unfoldable pub get_handler : List ℕ → Option ItemHandler
get_handler item_type = lookup item_type item_registry

-- `is_known_item_type`
unfoldable pub is_known_item_type : List ℕ → Bool
is_known_item_type item_type = elim (get_handler item_type) [ none ↦ false | some h ↦ true ]

-- `is_input_item`
unfoldable pub is_input_item : List ℕ → Bool
is_input_item item_type = elim (get_handler item_type) [ none ↦ false | some h ↦ h.is_input ]

-- `{k: v for k, v in s.items() if k != "text"}`
abbrev pub without_text : Fields → Fields
without_text no_fields = no_fields
without_text (field k v fs) =
    let rest = without_text fs in if string_eq.beq k "text" then rest else field k v rest

-- The new summary of a reasoning item, whose parts that are no objects are left out.
abbrev pub summary_parts : Items → Items
summary_parts no_items = no_items
summary_parts (item (object s) rest) = item (object (without_text s)) (summary_parts rest)
summary_parts (item null rest) = summary_parts rest
summary_parts (item (boolean b) rest) = summary_parts rest
summary_parts (item (number n) rest) = summary_parts rest
summary_parts (item (text t) rest) = summary_parts rest
summary_parts (item (array vs) rest) = summary_parts rest

abbrev pub redact_summary : Option Json → Dict String Json → Dict String Json
redact_summary (some (array parts)) out = insert "summary" (array (summary_parts parts)) out
redact_summary (some null) out = out
redact_summary (some (boolean b)) out = out
redact_summary (some (number n)) out = out
redact_summary (some (text t)) out = out
redact_summary (some (object fs)) out = out
redact_summary none out = out

-- The entries of an object.
abbrev pub entries : Fields → Dict String Json
entries no_fields = []
entries (field k v fs) = (k, v) ∷ entries fs

abbrev pub user_message : List ℕ → Dict String Json
user_message said =
    ("type", text (codes "message"))
    ∷ ("role", text (codes "user"))
    ∷ (
      "content",
      array (
          item
            (object (field "type" (text (codes "input_text")) (field "text" (text said) no_fields)))
            no_items),
    )
    ∷ []

-- `str(v)` of a value that is neither a text nor false in Python, and the empty text otherwise.
module _ (str_or_empty : Json → List ℕ) where
  -- `str(raw.get(key) or "")`
  abbrev pub text_of : Option Json → List ℕ
  text_of none = []
  text_of (some (text t)) = t
  text_of (some null) = str_or_empty null
  text_of (some (boolean b)) = str_or_empty (boolean b)
  text_of (some (number n)) = str_or_empty (number n)
  text_of (some (array vs)) = str_or_empty (array vs)
  text_of (some (object fs)) = str_or_empty (object fs)

  -- `item_role`
  unfoldable pub item_role : Dict String Json → List ℕ
  item_role raw = elim (get_handler (text_of (lookup "type" raw))) [
    | none ↦ []
    | some h ↦ if h.extracts_role then text_of (lookup "role" raw) else []
  ]

  abbrev pub redacted_fields : Dict String Json → Dict String Json
  redacted_fields out =
      erase "encrypted_content"
        (erase "text" (erase "content" (redact_summary (lookup "summary" out) out)))

  -- `redact_item`
  unfoldable pub redact_item : Dict String Json → Dict String Json
  redact_item raw =
      if text_eq.beq (text_of (lookup "type" raw)) (codes "reasoning")
      then redacted_fields raw
      else raw

  -- `if role: payload["role"] = role`
  abbrev pub set_role : List ℕ → Dict String Json → Dict String Json
  set_role [] payload = payload
  set_role (c ∷ role) payload = insert "role" (text (c ∷ role)) payload

  -- The payload before it is redacted.
  unfoldable pub bound_payload : Dict String Json → ℕ → Dict String Json
  bound_payload raw seq = set_role (item_role raw) (
      insert "seq" (number (decimal seq)) (
        insert "id" (text (text_of (lookup "id" raw)))
          (insert "type" (text (text_of (lookup "type" raw))) raw)))

  -- The item that a handler, if there is one, makes of a dictionary.
  abbrev pub parsed_by : Dict String Json → ℕ → Option ItemHandler → Option NormalizedItem
  parsed_by raw seq none = none
  parsed_by raw seq (some h) = some (record {
    id = text_of (lookup "id" raw);
    seq = seq;
    item_type = text_of (lookup "type" raw);
    role = item_role raw;
    payload =
        if h.redact_payload then redact_item (bound_payload raw seq) else bound_payload raw seq;
    redacted = h.redact_payload;
  })

  -- `parse_item` of a dictionary.
  unfoldable pub parse_item : Dict String Json → ℕ → Option NormalizedItem
  parse_item raw seq = parsed_by raw seq (get_handler (text_of (lookup "type" raw)))

  -- `parse_item` of any value.
  unfoldable pub parse_value : Json → ℕ → Option NormalizedItem
  parse_value (object fs) seq = parse_item (entries fs) seq
  parse_value null seq = none
  parse_value (boolean b) seq = none
  parse_value (number n) seq = none
  parse_value (text t) seq = none
  parse_value (array vs) seq = none

  -- `serialize_item`
  unfoldable pub serialize_item : NormalizedItem → Dict String Json
  serialize_item it = erase "seq" it.payload

  -- `value.strip() or "..."`
  abbrev or_dots : List ℕ → List ℕ
  or_dots [] = codes "..."
  or_dots (c ∷ s) = c ∷ s

  -- The parsed entries of a list, the first with the number `seq`.
  unfoldable pub parse_items : Items → ℕ → List NormalizedItem
  parse_items no_items seq = []
  parse_items (item v rest) seq = elim (parse_value v seq) [
    | none ↦ parse_items rest (seq + 1)
    | some it ↦ it ∷ parse_items rest (seq + 1)
  ]

  -- `parse_input_items`
  unfoldable pub parse_input_items : Json → ℕ → List NormalizedItem
  parse_input_items (text said) start_seq =
      record {
        id = [];
        seq = start_seq;
        item_type = codes "message";
        role = codes "user";
        payload = user_message (or_dots (strip said));
        redacted = false;
      }
      ∷ []
  parse_input_items (array vs) start_seq = parse_items vs start_seq
  parse_input_items null start_seq = []
  parse_input_items (boolean b) start_seq = []
  parse_input_items (number n) start_seq = []
  parse_input_items (object fs) start_seq = []

  -- `change_reasoning_content`
  unfoldable pub change_reasoning_content : Dict String Json → Bool → Dict String Json
  change_reasoning_content reasoning with_text =
      if with_text then reasoning else redact_item reasoning
