-- ===== src/ToolCalls.antt =====
-- Tool calls put together from fragments, `src/zhongzhuan/proxy/protocol/tool_accumulator.py`, with
-- the identifiers of `responses_models.py` beside it. A text is the list of its code points. The two
-- dictionaries of a collection share accumulators, so they hold references into a heap.
pub mod Namespace
pub mod Identity
pub mod Resolve
pub mod Partition
use zhongzhuan.Base.{
  [], ℕ, zero, suc, Bool, true, false, ◌&&◌, not, Option, none, some, List, ◌∷◌, ◌++◌, map, length,
  get_elem?, ◌==◌, if◌then◌else◌,
}
use zhongzhuan.Base.Eq.{nat_eq, text_eq}
use zhongzhuan.Base.Dict.{Dict, lookup, insert}
use zhongzhuan.Base.Text.{codes, strip}
use zhongzhuan.Base.Json.{Json, null, boolean, number, text, array, object}
use zhongzhuan.Base.Decimal.{decimal}

abbrev pub Text : Type 0
Text = List ℕ

pub data NameMode : Type 0 where
  append replace : NameMode

-- `class ToolCallAccumulator`
pub record Accumulator : Type 0 where
  pub source_index : ℕ
  pub output_index : ℕ
  pub call_id : Text
  pub name : Text
  pub arguments : Text
  pub item_added : Bool
  pub arguments_done : Bool
  pub item_done : Bool
  pub namespace : Text
  pub name_mode : NameMode
  pub item_id : Text

-- `new if new else old`
abbrev pub or_else : Text → Text → Text
or_else [] old = old
or_else (c ∷ s) old = c ∷ s

abbrev pub is_nonempty : Text → Bool
is_nonempty [] = false
is_nonempty (c ∷ s) = true

unfoldable pub bind_call_id : Text → Accumulator → Accumulator
bind_call_id call_id a = record a { call_id = or_else call_id a.call_id }

-- `append_name`: in the mode `replace`, a fragment takes the name's place.
abbrev extended : NameMode → Text → Text → Text
extended append fragment name = name ++ fragment
extended replace fragment name = or_else fragment name

unfoldable pub append_name : Text → Accumulator → Accumulator
append_name fragment a = record a { name = extended a.name_mode fragment a.name }

unfoldable pub replace_name : Text → Accumulator → Accumulator
replace_name [] a = a
replace_name (c ∷ s) a = record a { name = c ∷ s; name_mode = replace }

unfoldable pub append_arguments : Text → Accumulator → Accumulator
append_arguments fragment a = record a { arguments = a.arguments ++ fragment }

unfoldable pub is_complete : Accumulator → Bool
is_complete a = is_nonempty a.name && a.arguments_done

abbrev is_object : Json → Bool
is_object (object fs) = true
is_object null = false
is_object (boolean b) = false
is_object (number n) = false
is_object (text s) = false
is_object (array vs) = false

abbrev accepted : Bool → Option Json → Bool
accepted require_object none = false
accepted require_object (some v) = if require_object then is_object v else true

-- `json.loads(text)` is accepted, for a text that is not empty.
abbrev pub is_accepted : (Text → Option Json) → Bool → Text → Bool
is_accepted loads require_object [] = false
is_accepted loads require_object (c ∷ s) = accepted require_object (loads (c ∷ s))

-- `validate_arguments`
unfoldable pub validate_arguments : (Text → Option Json) → Bool → Accumulator → Bool × Accumulator
validate_arguments loads require_object a =
    let ok = is_accepted loads require_object (strip a.arguments) in
    (ok, if ok then record a { arguments_done = true } else a)

unfoldable pub mark_item_done : Accumulator → Accumulator
mark_item_done a = record a { item_done = true }

-- `make_function_call_item_id_stable`
unfoldable pub function_call_item_id : Text → ℕ → Text
function_call_item_id response_id output_index =
    codes "fc_" ++ (response_id ++ (codes "_" ++ decimal output_index))

-- `make_synthetic_call_id`
unfoldable pub synthetic_call_id : Text → ℕ → Text
synthetic_call_id response_id source_index =
    codes "call_" ++ (response_id ++ (codes "_" ++ decimal source_index))

-- `class ToolCallCollection`; a reference is a place in the heap.
pub record Collection : Type 0 where
  pub response_id : Text
  pub heap : List Accumulator
  pub tools_by_call_id : Dict Text ℕ
  pub tools_by_source_index : Dict ℕ ℕ

unfoldable pub new_collection : Text → Collection
new_collection response_id = record {
  response_id = response_id;
  heap = [];
  tools_by_call_id = [];
  tools_by_source_index = [];
}

abbrev pub update_at : ℕ → (Accumulator → Accumulator) → List Accumulator → List Accumulator
update_at i f [] = []
update_at zero f (a ∷ h) = f a ∷ h
update_at (suc i) f (a ∷ h) = a ∷ update_at i f h

abbrev by_source : Option ℕ → Collection → Option ℕ
by_source none c = none
by_source (some i) c = lookup i c.tools_by_source_index

abbrev or_by_source : Option ℕ → Option ℕ → Collection → Option ℕ
or_by_source (some r) source_index c = some r
or_by_source none source_index c = by_source source_index c

-- `get`
unfoldable pub get : Text → Option ℕ → Collection → Option ℕ
get [] source_index c = by_source source_index c
get (k ∷ id) source_index c = or_by_source (lookup (k ∷ id) c.tools_by_call_id) source_index c

-- `existing.bind_call_id(call_id)` and the new entry, for a call id that is not empty.
abbrev pub bind_to : ℕ → Text → Collection → Collection
bind_to r [] c = c
bind_to r (k ∷ id) c = record c {
  heap = update_at r (bind_call_id (k ∷ id)) c.heap;
  tools_by_call_id = insert (k ∷ id) r c.tools_by_call_id;
}

abbrev or_number : Option ℕ → ℕ → ℕ
or_number none n = n
or_number (some i) n = i

abbrev index_call_id : Text → ℕ → Dict Text ℕ → Dict Text ℕ
index_call_id [] r d = d
index_call_id (k ∷ id) r d = insert (k ∷ id) r d

abbrev pub new_accumulator : Text → ℕ → Text → Option ℕ → Accumulator
new_accumulator response_id output_index call_id source_index = record {
  source_index = or_number source_index output_index;
  output_index = output_index;
  call_id = or_else call_id (synthetic_call_id response_id (or_number source_index 0));
  name = [];
  arguments = [];
  item_added = false;
  arguments_done = false;
  item_done = false;
  namespace = [];
  name_mode = replace;
  item_id = function_call_item_id response_id output_index;
}

-- A new accumulator, with the entries that `_index` makes.
abbrev pub create : ℕ → Text → Option ℕ → Collection → ℕ × Collection
create output_index call_id source_index c =
    let a = new_accumulator c.response_id output_index call_id source_index in
    let r = length c.heap in
    (
      r,
      record c {
        heap = c.heap ++ a ∷ [];
        tools_by_call_id = index_call_id a.call_id r c.tools_by_call_id;
        tools_by_source_index = insert a.source_index r c.tools_by_source_index;
      },
    )

abbrev pub found_or_created : Option ℕ → ℕ → Text → Option ℕ → Collection → ℕ × Collection
found_or_created (some r) output_index call_id source_index c = (r, bind_to r call_id c)
found_or_created none output_index call_id source_index c =
    create output_index call_id source_index c

-- `ensure`
unfoldable pub ensure : ℕ → Text → Option ℕ → Collection → ℕ × Collection
ensure output_index call_id source_index c =
    found_or_created (get call_id source_index c) output_index call_id source_index c

abbrev pub bind_found : Option ℕ → Text → Collection → Collection
bind_found none call_id c = c
bind_found (some r) call_id c = bind_to r call_id c

-- `finalize_call_id`
unfoldable pub finalize_call_id : Text → Option ℕ → Collection → Collection
finalize_call_id call_id source_index c = bind_found (by_source source_index c) call_id c

abbrev values : {K : Type 0} → Dict K ℕ → List ℕ
values d = map (λ e. e.1) d

abbrev pub is_in : ℕ → List ℕ → Bool
is_in r [] = false
is_in r (s ∷ rs) = if s == r then true else is_in r rs

-- The references that have not been seen, each once.
unfoldable pub unseen : List ℕ → List ℕ → List ℕ
unseen seen [] = []
unseen seen (r ∷ rs) =
    let skipped = unseen seen rs in
    let taken = unseen (r ∷ seen) rs in if is_in r seen then skipped else r ∷ taken

-- The references of the two dictionaries.
abbrev pub live : Collection → List ℕ
live c = values c.tools_by_call_id ++ values c.tools_by_source_index

-- `list_all`
unfoldable pub list_all : Collection → List ℕ
list_all c = unseen [] (live c)

abbrev complete_in : Option Accumulator → Bool
complete_in none = false
complete_in (some a) = is_complete a

-- Whether the accumulator of a reference is complete.
abbrev pub is_complete_at : List Accumulator → ℕ → Bool
is_complete_at h r = complete_in (get_elem? h r)

abbrev pub keep : (ℕ → Bool) → List ℕ → List ℕ
keep p [] = []
keep p (r ∷ rs) = let rest = keep p rs in if p r then r ∷ rest else rest

-- `completed` and `incomplete`
unfoldable pub completed : Collection → List ℕ
completed c = keep (is_complete_at c.heap) (list_all c)

unfoldable pub incomplete : Collection → List ℕ
incomplete c = keep (λ r. not (is_complete_at c.heap r)) (list_all c)
