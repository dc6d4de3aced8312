-- ===== src/Sse/Parts.antt =====
-- The records of the SSE parser and its functions on them and on texts
-- (`src/zhongzhuan/proxy/protocol/sse_parser.py`).
use zhongzhuan.Base.{
  [], ℕ, ◌+◌, ◌-◌, ◌*◌, ◌<◌, ◌≡◌, Bool, true, false, ◌&&◌, ◌||◌, Option, none, some, List, ◌∷◌,
  ◌++◌, leb, ◌==◌, if◌then◌else◌, arith, ◌↔◌,
}
use zhongzhuan.Base.Eq.{Eq}
use zhongzhuan.Base.Dict.{Dict, lookup_or, insert}
use zhongzhuan.Base.Text.{codes}

abbrev pub Bytes : Type 0
Bytes = List ℕ

abbrev pub Text : Type 0
Text = List ℕ

-- What the parser takes of Python: the strict UTF-8 decoder and the replacing one, `str.strip`, and
-- whether `json.loads` accepts a text. A byte below 128 decodes to itself.
pub record Codec : Type 0 where
  pub decode : Bytes → Option Text
  pub decode_replace : Bytes → Text
  pub strip : Text → Text
  pub is_json : Text → Bool
  pub decode_ascii :
      (a : ℕ) (l : Bytes) (t : Text) → a < 128 → decode l ≡ some t → decode (a ∷ l) ≡ some (a ∷ t)

-- `MALFORMED_*`
pub data Reason : Type 0 where
  invalid_utf8 bad_retry nul_in_id oversize bad_json : Reason

abbrev pub reason_code : Reason → ℕ
reason_code invalid_utf8 = 0
reason_code bad_retry = 1
reason_code nul_in_id = 2
reason_code oversize = 3
reason_code bad_json = 4

abbrev pub reason_beq : Reason → Reason → Bool
reason_beq a b = reason_code a == reason_code b

pub reason_beq_iff : (a b : Reason) → ((reason_code a == reason_code b) ≡ true) ↔ (a ≡ b)
reason_beq_iff a b = ground arith

instance abbrev pub reason_eq : Eq Reason
reason_eq = record { beq = λ a b. reason_code a == reason_code b; beq_iff = reason_beq_iff }

-- `class SseFrame`
pub record Frame : Type 0 where
  pub event : Option Text
  pub content : Text  -- data
  pub id : Option Text
  pub retry : Option ℕ
  pub raw : Bytes

-- The arguments of `SSEParser.__init__`, which refuses a `max_event_bytes` of 0.
pub record Config : Type 0 where
  pub max_event_bytes : ℕ
  pub validate_json : Bool
  pub json_exempt : List Text
  pub emit_dataless : Bool

-- The state of the parser but for its buffer: the event that is being collected, and the counts.
pub record State : Type 0 where
  pub raw_block : Bytes
  pub data_parts : List Text
  pub event : Option Text
  pub id : Option Text
  pub retry : Option ℕ
  pub last_event_id : Text
  pub skip_block : Bool
  pub malformed : ℕ
  pub reasons : Dict Reason ℕ

-- `class SSEParser`
pub record Parser : Type 0 where
  pub config : Config
  pub buf : Bytes
  pub bom_done : Bool
  pub state : State

abbrev pub empty_state : State
empty_state = record {
  raw_block = [];
  data_parts = [];
  event = none;
  id = none;
  retry = none;
  last_event_id = [];
  skip_block = false;
  malformed = 0;
  reasons = [];
}

unfoldable pub new_parser : Config → Parser
new_parser c = record { config = c; buf = []; bom_done = false; state = empty_state }

-- `_note_malformed`
abbrev pub note_malformed : Reason → State → State
note_malformed r s = record s {
  malformed = s.malformed + 1;
  reasons = insert r (lookup_or r 0 s.reasons + 1) s.reasons;
}

-- `_reset_block`
abbrev pub reset_block : State → State
reset_block s = record s { raw_block = []; data_parts = []; event = none; id = none; retry = none }

abbrev pub list_eq : List ℕ → List ℕ → Bool
list_eq [] [] = true
list_eq (a ∷ l) (b ∷ m) = a == b && list_eq l m
list_eq _ _ = false

abbrev pub elem : Text → List Text → Bool
elem t [] = false
elem t (u ∷ us) = list_eq t u || elem t us

-- Membership of a number, `"\x00" in value`.
abbrev pub has : ℕ → List ℕ → Bool
has n [] = false
has n (m ∷ ms) = n == m || has n ms

-- `text[:idx]` and `text[idx + 1:]` at the first colon, if there is one.
unfoldable pub split_colon : Text → Text × Option Text
split_colon [] = ([], none)
split_colon (c ∷ t) =
    let (name, value) = split_colon t in if c == b':' then ([], some t) else (c ∷ name, value)

-- Exactly one space after the colon is taken off.
abbrev pub strip_space : Text → Text
strip_space [] = []
strip_space (c ∷ t) = if c == b' ' then t else c ∷ t

abbrev pub field_value : Option Text → Text
field_value none = []
field_value (some v) = strip_space v

abbrev pub is_digit : ℕ → Bool
is_digit c = leb b'0' c && leb c b'9'

abbrev pub all_digits : Text → Bool
all_digits [] = true
all_digits (c ∷ t) = is_digit c && all_digits t

-- `value.isascii() and value.isdigit()`, false of the empty text.
abbrev pub is_number : Text → Bool
is_number [] = false
is_number (c ∷ t) = all_digits (c ∷ t)

-- `int(value)` of digits.
abbrev pub digits_value : ℕ → Text → ℕ
digits_value acc [] = acc
digits_value acc (c ∷ t) = digits_value (10 * acc + (c - b'0')) t

abbrev pub is_some : {A : Type 0} → Option A → Bool
is_some none = false
is_some (some a) = true

abbrev pub has_parts : List Text → Bool
has_parts [] = false
has_parts (t ∷ ts) = true

-- `"\n".join(parts)`
abbrev pub join_lines : List Text → Text
join_lines [] = []
join_lines (t ∷ []) = t
join_lines (t ∷ u ∷ ts) = t ++ b'\n' ∷ join_lines (u ∷ ts)

-- The branches on the field's name.
unfoldable pub apply_field : Text → Text → State → State
apply_field name value s =
    if list_eq name (codes "data")
    then record s { data_parts = s.data_parts ++ value ∷ [] }
    else if list_eq name (codes "event")
    then record s { event = some value }
    else if list_eq name (codes "id")
    then (if has 0 value
        then note_malformed nul_in_id s
        else record s { id = some value; last_event_id = value })
    else if list_eq name (codes "retry")
    then (if is_number value
        then record s { retry = some (digits_value 0 value) }
        else note_malformed bad_retry s)
    else s
