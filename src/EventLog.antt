-- ===== src/EventLog.antt =====
-- The log of a response's events, `EventLog` of `src/zhongzhuan/store/event_log.py`: the table
-- `response_events` as a list of rows with the key of a response and a number. `json.dumps` and
-- `json.loads` are parameters. A number that is allocated is read and written under a lock of the
-- response.
pub mod Order
pub mod Sequences
pub mod Reading
pub mod Catchup
use zhongzhuan.Base.{
  ℕ, suc, ◌+◌, max, String, Bool, true, false, ◌&&◌, Option, none, some, List, [], ◌∷◌, ◌++◌,
  if◌then◌else◌, map, leb, ◌==◌,
}
use zhongzhuan.Base.Eq.{string_eq}
use zhongzhuan.Base.Json.{Json, null, object, no_fields}

-- A row of `response_events`; `body` is its `data`, the text that is stored.
pub record EventRow : Type 0 where
  pub response_id : String
  pub seq : ℕ
  pub workspace_id : String
  pub event_type : String
  pub body : List ℕ
  pub ts : ℕ
  pub expires_at : ℕ

-- What a reader gets of a row.
pub record Logged : Type 0 where
  pub seq : ℕ
  pub event_type : String
  pub body : Json

-- `SELECT COALESCE(MAX(seq), 0) FROM response_events WHERE response_id = ?`
unfoldable pub max_seq : String → List EventRow → ℕ
max_seq id [] = 0
max_seq id (r ∷ rows) =
    let rest = max_seq id rows in if string_eq.beq r.response_id id then max r.seq rest else rest

abbrev pub is_taken : String → ℕ → List EventRow → Bool
is_taken id seq [] = false
is_taken id seq (r ∷ rows) =
    if string_eq.beq r.response_id id && r.seq == seq then true else is_taken id seq rows

-- `INSERT INTO response_events`, which fails on a key that is there.
unfoldable pub insert_event : EventRow → List EventRow → Option (List EventRow)
insert_event r rows = if is_taken r.response_id r.seq rows then none else some (rows ++ r ∷ [])

-- An event to append, with the number it asks for, if it asks for one.
pub record Append : Type 0 where
  pub response_id : String
  pub workspace_id : String
  pub event_type : String
  pub body : Json
  pub seq : Option ℕ
  pub expires_at : ℕ

-- The number that an event is written under.
abbrev pub seq_for : Append → List EventRow → ℕ
seq_for a rows = elim a.seq [ none ↦ max_seq a.response_id rows + 1 | some seq ↦ seq ]

abbrev pub with_seq : ℕ → Option (List EventRow) → Option (ℕ × List EventRow)
with_seq seq none = none
with_seq seq (some rows) = some (seq, rows)

-- `json_dumps` is `json.dumps` with the arguments that `_dumps` gives it.
module _ (json_dumps : Json → List ℕ) where
  -- `_dumps`, where `null` is `None`.
  abbrev pub dumps : Json → List ℕ
  dumps null = []
  dumps v = json_dumps v

  abbrev pub row_of : Append → ℕ → ℕ → EventRow
  row_of a seq ts = record {
    response_id = a.response_id;
    seq = seq;
    workspace_id = a.workspace_id;
    event_type = a.event_type;
    body = dumps a.body;
    ts = ts;
    expires_at = a.expires_at;
  }

  -- `append_event`; `none` is the error of the database.
  unfoldable pub append_event : Append → ℕ → List EventRow → Option (ℕ × List EventRow)
  append_event a ts rows =
      with_seq (seq_for a rows) (insert_event (row_of a (seq_for a rows) ts) rows)

-- `json_loads` is `json.loads`, where `none` is its `ValueError`.
module _ (json_loads : List ℕ → Option Json) where
  -- `_loads`
  abbrev pub loads : List ℕ → Json → Json
  loads [] default = default
  loads (c ∷ cs) default = elim (json_loads (c ∷ cs)) [ none ↦ default | some v ↦ v ]

  abbrev pub logged : EventRow → Logged
  logged r = record {
    seq = r.seq;
    event_type = r.event_type;
    body = loads r.body (object no_fields);
  }

  -- `WHERE response_id = ? AND seq > ?`, for the first number that is asked for.
  unfoldable pub rows_from : String → ℕ → List EventRow → List Logged
  rows_from id first [] = []
  rows_from id first (r ∷ rows) =
      let rest = rows_from id first rows in
      if string_eq.beq r.response_id id && leb first r.seq then logged r ∷ rest else rest

abbrev pub insert_logged : Logged → List Logged → List Logged
insert_logged e [] = e ∷ []
insert_logged e (f ∷ es) =
    let rest = insert_logged e es in if leb e.seq f.seq then e ∷ f ∷ es else f ∷ rest

-- `ORDER BY seq`
unfoldable pub in_order : List Logged → List Logged
in_order [] = []
in_order (e ∷ es) = insert_logged e (in_order es)

-- `after_seq + 1`, where `none` is -1, the default.
abbrev pub following : Option ℕ → ℕ
following none = 0
following (some seq) = seq + 1

-- `read_events`
unfoldable pub read_events :
    (List ℕ → Option Json) → String → Option ℕ → List EventRow → List Logged
read_events json_loads id after_seq rows =
    in_order (rows_from json_loads id (following after_seq) rows)
