-- ===== src/Chain/Table.antt =====
-- The tables behind the reads of a chain (`src/zhongzhuan/store/response_store.py`): rows as lists, a
-- query as a walk over them. `response_id` is the key of `responses`.
use zhongzhuan.Base.{
  ℕ, zero, suc, ◌≡◌, refl, sym, ap, ◌∙◌, inl, inr, String, Bool, true, false, ◌&&◌, Option, none,
  some, List, [], ◌∷◌, if◌then◌else◌, take, map, leb, arith, Bool-cases,
}
use mathlib.Core.Option.{some-injective}
use zhongzhuan.Base.Eq.{string_eq}
use zhongzhuan.Base.Json.{Json}
use zhongzhuan.Chain.{ResponseRecord, ResponseReads}

-- A row of `response_input_items`, by its `seq`, or of `response_output_items`, by its `output_index`.
pub record ItemRow : Type 0 where
  pub response_id : String
  pub position : ℕ
  pub payload : Json

pub record ResponseTables : Type 0 where
  pub responses : List ResponseRecord
  pub response_input_items : List ItemRow
  pub response_output_items : List ItemRow

-- `WHERE response_id = ? AND workspace_id = ?`
abbrev owned_by : String → String → ResponseRecord → Bool
owned_by id ws r = string_eq.beq r.response_id id && string_eq.beq r.workspace_id ws

-- `get_response`
unfoldable pub get_response : List ResponseRecord → String → String → Option ResponseRecord
get_response [] id ws = none
get_response (r ∷ rows) id ws = if owned_by id ws r then some r else get_response rows id ws

-- `delete_response`, and whether it deleted anything.
unfoldable pub delete_response : List ResponseRecord → String → String → List ResponseRecord × Bool
delete_response [] id ws = ([], false)
delete_response (r ∷ rows) id ws =
    let (rest, affected) = delete_response rows id ws in
    if owned_by id ws r then (rest, true) else (r ∷ rest, affected)

-- `WHERE response_id = ?`
abbrev pub rows_of : String → List ItemRow → List ItemRow
rows_of id [] = []
rows_of id (r ∷ rows) =
    let rest = rows_of id rows in if string_eq.beq r.response_id id then r ∷ rest else rest

abbrev pub insert_row : ItemRow → List ItemRow → List ItemRow
insert_row r [] = r ∷ []
insert_row r (s ∷ rows) =
    let rest = insert_row r rows in if leb r.position s.position then r ∷ s ∷ rows else s ∷ rest

-- `ORDER BY`
abbrev pub in_order : List ItemRow → List ItemRow
in_order [] = []
in_order (r ∷ rows) = insert_row r (in_order rows)

-- `list_input_items` from the first row on, and `list_output_items`.
unfoldable pub list_items : List ItemRow → String → ℕ → List Json
list_items rows id limit = map (λ r. r.payload) (take limit (in_order (rows_of id rows)))

-- The payloads of all the rows of a response.
abbrev pub all_items : List ItemRow → String → List Json
all_items rows id = map (λ r. r.payload) (in_order (rows_of id rows))

map-take :
    (n : ℕ) (rows : List ItemRow)
    → map (λ r. r.payload) (take n rows) ≡ take n (map (λ r. r.payload) rows)
map-take zero rows = refl
map-take (suc n) [] = refl
map-take (suc n) (r ∷ rows) = ap (◌∷◌ r.payload) (map-take n rows)

pub list_items-take :
    (rows : List ItemRow) (id : String) (limit : ℕ)
    → list_items rows id limit ≡ take limit (all_items rows id)
unfolding list_items
list_items-take rows id limit = map-take limit (in_order (rows_of id rows))

pub get_response-found_lem :
    (rows : List ResponseRecord) (id ws : String) (r : ResponseRecord)
    → get_response rows id ws ≡ some r
    → (r.response_id ≡ id) × (r.workspace_id ≡ ws)
unfolding get_response
get_response-found_lem [] id ws r h = absurd (ground (arith, h))
get_response-found_lem (s ∷ rows) id ws r h = elim (Bool-cases (string_eq.beq s.response_id id)) [
  | inl e ↦ elim (Bool-cases (string_eq.beq s.workspace_id ws)) [
    | inl f ↦
        let same = some-injective s r (rw (e, f) at h) in
        (
          ap (λ x. x.response_id) (sym same) ∙ (string_eq.beq_iff s.response_id id).0 e,
          ap (λ x. x.workspace_id) (sym same) ∙ (string_eq.beq_iff s.workspace_id ws).0 f,
        )
    | inr f ↦ get_response-found_lem rows id ws r (rw (e, f) at h)
  ]
  | inr e ↦ get_response-found_lem rows id ws r (rw e at h)
]

-- The tables as the reads of a walk.
unfoldable pub reads : ResponseTables → ResponseReads
reads t = record {
  get_response = get_response t.responses;
  list_input_items = list_items t.response_input_items;
  list_output_items = list_items t.response_output_items;
  input_items = all_items t.response_input_items;
  output_items = all_items t.response_output_items;
  list_input_items-take = list_items-take t.response_input_items;
  list_output_items-take = list_items-take t.response_output_items;
  get_response-found = get_response-found_lem t.responses;
}

-- A response that is deleted in a workspace is no longer found there; those of other ids and in
-- other workspaces are found as before, and the deletion reports whether there was one.
pub get_response-delete_response :
    (rows : List ResponseRecord) (id ws other_id other_ws : String)
    → let (left, affected) = delete_response rows id ws in
      (get_response left other_id other_ws ≡ (
        if string_eq.beq other_id id && string_eq.beq other_ws ws
        then none
        else get_response rows other_id other_ws))
      × (affected ≡ (elim (get_response rows id ws) [ none ↦ false | some r ↦ true ]))
unfolding get_response delete_response
get_response-delete_response [] id ws other_id other_ws = (ground arith, refl)
get_response-delete_response (r ∷ rows) id ws other_id other_ws =
    let (a, b) = get_response-delete_response rows id ws other_id other_ws in
    (
      ground (
        arith,
        a,
        string_eq.beq_iff r.response_id id,
        string_eq.beq_iff r.workspace_id ws,
        string_eq.beq_iff r.response_id other_id,
        string_eq.beq_iff r.workspace_id other_ws,
        string_eq.beq_iff other_id id,
        string_eq.beq_iff other_ws ws,
      ),
      ground (arith, b),
    )
