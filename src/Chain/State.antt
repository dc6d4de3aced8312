-- ===== src/Chain/State.antt =====
-- The records of the walk over a chain and what is done to them, but for the reads
-- (`src/zhongzhuan/responses_v3/chain.py`, with `ResponseRecord` of `store/response_store.py`).
use zhongzhuan.Base.{
  ℕ, ◌≡◌, ◌+◌, min, max, String, Bool, true, false, Option, none, some, List, [], ◌∷◌, ◌++◌, length,
  take,
}
use zhongzhuan.Emitter.{add}
use zhongzhuan.Base.Eq.{string_eq, text_eq}
use zhongzhuan.Base.Dict.{Dict, insert}
use zhongzhuan.Base.Text.{strip}
use zhongzhuan.Base.Decimal.{decimal}
use zhongzhuan.Base.Json.{
  Json, null, boolean, number, text, array, object, Items, no_items, item, Fields, no_fields, field,
}
use zhongzhuan.Budget.{TerminalReason}
use zhongzhuan.Errors.{ErrorClass}
use zhongzhuan.Items.{NormalizedItem, entries, user_message}

-- The fields of `class ResponseRecord` that the walk reads.
pub record ResponseRecord : Type 0 where
  pub response_id : String
  pub workspace_id : String
  pub previous_response_id : String
  pub request : Json
  pub output : List Json

-- The reads of `class ResponseStore`. A row that is found is the one asked for, and a list that is
-- read is the first part of all the stored items of its kind.
pub record ResponseReads : Type 0 where
  pub get_response : String → String → Option ResponseRecord
  pub list_input_items : String → ℕ → List Json
  pub list_output_items : String → ℕ → List Json
  pub input_items : String → List Json
  pub output_items : String → List Json
  pub get_response-found :
      (id ws : String) (r : ResponseRecord)
      → get_response id ws ≡ some r
      → (r.response_id ≡ id) × (r.workspace_id ≡ ws)
  pub list_input_items-take :
      (id : String) (limit : ℕ) → list_input_items id limit ≡ take limit (input_items id)
  pub list_output_items-take :
      (id : String) (limit : ℕ) → list_output_items id limit ≡ take limit (output_items id)

-- `class ChainResolution`
pub record ChainResolution : Type 0 where
  pub items : List NormalizedItem
  pub depth : ℕ
  pub visited : List String
  pub error : Option ErrorClass
  pub terminal_reason : Option TerminalReason
  pub message : List ℕ

-- `ChainResolution.ok`
abbrev pub ok : ChainResolution → Bool
ok res = elim res.error [ none ↦ true | some e ↦ false ]

unfoldable pub new_resolution : ChainResolution
new_resolution = record {
  items = [];
  depth = 0;
  visited = [];
  error = none;
  terminal_reason = none;
  message = [];
}

-- `_fail`
unfoldable pub fail :
    ChainResolution → ErrorClass → Option TerminalReason → List ℕ → ChainResolution
fail res err reason message = record res {
  items = [];
  error = some err;
  terminal_reason = reason;
  message = message;
}

-- `_reseq`
unfoldable pub reseq : NormalizedItem → ℕ → NormalizedItem
reseq it seq = record it { seq = seq; payload = insert "seq" (number (decimal seq)) it.payload }

abbrev pub items_of : Items → List Json
items_of no_items = []
items_of (item v rest) = v ∷ items_of rest

abbrev pub fields_of : Dict String Json → Fields
fields_of [] = no_fields
fields_of ((k, v) ∷ d) = field k v (fields_of d)

-- `if input_val.strip()`
abbrev pub unless_blank : List ℕ → List ℕ → List Json
unless_blank [] said = []
unless_blank (c ∷ s) said = object (fields_of (user_message said)) ∷ []

-- `_normalize_input`
unfoldable pub normalize_input : Option Json → List Json
normalize_input (some (array vs)) = items_of vs
normalize_input (some (text said)) = unless_blank (strip said) said
normalize_input (some null) = []
normalize_input (some (boolean b)) = []
normalize_input (some (number n)) = []
normalize_input (some (object fs)) = []
normalize_input none = []

-- `_request_of`
unfoldable pub request_of : ResponseRecord → Dict String Json
request_of r = elim r.request [ object fs ↦ entries fs | _ ↦ [] ]

abbrev pub or_else : List Json → List Json → List Json
or_else [] other = other
or_else (v ∷ vs) other = v ∷ vs

-- What the loop of `resolve_chain` holds: `res`, `seen`, `buckets` and the two totals.
pub record Walk : Type 0 where
  pub res : ChainResolution
  pub seen : List String
  pub buckets : List (List NormalizedItem)
  pub total_items : ℕ
  pub total_tokens : ℕ

unfoldable pub new_walk : Walk
new_walk = record {
  res = new_resolution;
  seen = [];
  buckets = [];
  total_items = 0;
  total_tokens = 0;
}

-- `seen.add(current); res.visited.append(current); res.depth += 1`
unfoldable pub enter : String → Walk → Walk
enter current w = record w {
  seen = add current w.seen;
  res = record w.res { visited = w.res.visited ++ current ∷ []; depth = w.res.depth + 1 };
}

-- How a turn of the loop ends: in a failure, in the end of the loop, or with the next id.
pub data Turn : Type 0 where
  failed : ChainResolution → Turn
  arrived : Walk → Turn
  goes_on : String → Walk → Turn

-- `current = parent` and the test of the loop.
abbrev pub next_turn : String → Walk → Turn
next_turn String.[] w = arrived w
next_turn (String.◌∷◌ c s) w = goes_on (String.◌∷◌ c s) w

-- The limits of `ChainResolver`, and those of a call. A negative limit acts as 0 does.
pub record Limits : Type 0 where
  pub max_depth : ℕ
  pub max_items : ℕ
  pub max_tokens : ℕ

unfoldable pub default_limits : Limits
default_limits = record { max_depth = 64; max_items = 2000; max_tokens = 200000 }

-- `ChainResolver.__init__`
unfoldable pub new_resolver : Limits → Limits
new_resolver l = record {
  max_depth = max 1 l.max_depth;
  max_items = max 1 l.max_items;
  max_tokens = max 1 l.max_tokens;
}

-- The three caps of a call.
unfoldable pub caps : Limits → Limits → Limits
caps self call = record {
  max_depth = max 1 (min call.max_depth self.max_depth);
  max_items = max 1 (min call.max_items self.max_items);
  max_tokens = max 1 (min call.max_tokens self.max_tokens);
}

-- `ordered.append(_reseq(item, len(ordered)))` for each item of a bucket.
unfoldable pub append_bucket : List NormalizedItem → List NormalizedItem → List NormalizedItem
append_bucket ordered [] = ordered
append_bucket ordered (it ∷ bucket) =
    append_bucket (ordered ++ reseq it (length ordered) ∷ []) bucket

unfoldable pub append_buckets :
    List NormalizedItem → List (List NormalizedItem) → List NormalizedItem
append_buckets ordered [] = ordered
append_buckets ordered (bucket ∷ buckets) = append_buckets (append_bucket ordered bucket) buckets

abbrev pub reversed : List (List NormalizedItem) → List (List NormalizedItem)
reversed [] = []
reversed (b ∷ bs) = reversed bs ++ b ∷ []

-- The end of `resolve_chain`.
unfoldable pub finish : Walk → ChainResolution
finish w = record w.res { items = append_buckets [] (reversed w.buckets) }

-- What follows a turn, if `rest` is the rest of the loop.
abbrev pub continue_with : (String → Walk → Option ChainResolution) → Turn → Option ChainResolution
continue_with rest (failed res) = some res
continue_with rest (arrived w) = some (finish w)
continue_with rest (goes_on parent w) = rest parent w
