-- ===== src/EventLog/Order.antt =====
-- The log of a response is a sequence that only grows (`src/zhongzhuan/store/event_log.py`).
use zhongzhuan.Base.{
  ℕ, suc, max, ◌<◌, ◌≡◌, refl, inl, inr, String, true, false, ◌&&◌, Option, none, some, List, [],
  ◌∷◌, ◌++◌, if◌then◌else◌, leb, ◌==◌, arith, Bool-cases,
}
use zhongzhuan.Base.Eq.{string_eq}
use zhongzhuan.Base.Json.{Json, null, boolean, number, text, array, object, no_fields}
use zhongzhuan.EventLog.{
  EventRow, Logged, Append, max_seq, is_taken, append_event, logged, rows_from, dumps, loads,
}

-- The events of the sequence, with the numbers from `n` on.
abbrev pub numbered : ℕ → List (String × Json) → List Logged
numbered n [] = []
numbered n ((event_type, body) ∷ es) =
    record { seq = n; event_type = event_type; body = body } ∷ numbered (suc n) es

-- What the appends add to the sequence of a response, each body as it is read.
abbrev pub sequence_read : (Json → Json) → String → List Append → List (String × Json)
sequence_read read id [] = []
sequence_read read id (a ∷ appends) =
    let rest = sequence_read read id appends in
    if string_eq.beq a.response_id id then (a.event_type, read a.body) ∷ rest else rest

-- A reader gets an empty object for `None`.
abbrev pub or_object : Json → Json
or_object null = object no_fields
or_object v = v

abbrev pub sequence : String → List Append → List (String × Json)
sequence = sequence_read or_object

-- The appends one after the other, at a time; an error ends them.
unfoldable pub append_all :
    (Json → List ℕ) → List Append → ℕ → List EventRow → Option (List EventRow)
append_all json_dumps [] ts rows = some rows
append_all json_dumps (a ∷ appends) ts rows = elim (append_event json_dumps a ts rows) [
  | none ↦ none
  | some (seq, next) ↦ append_all json_dumps appends ts next
]

loads-some :
    (json_loads : List ℕ → Option Json) (s : List ℕ) (v w : Json)
    → json_loads [] ≡ none
    → json_loads s ≡ some v
    → loads json_loads s w ≡ v
loads-some json_loads [] v w nothing h = ground (arith, nothing, h)
loads-some json_loads (c ∷ cs) v w nothing h = rw (loads, h) refl

-- A body that is written is read back.
pub loads-dumps :
    (json_dumps : Json → List ℕ) (json_loads : List ℕ → Option Json) (v : Json)
    → json_loads [] ≡ none
    → json_loads (json_dumps v) ≡ some v
    → loads json_loads (dumps json_dumps v) (object no_fields) ≡ or_object v
loads-dumps json_dumps json_loads null nothing h = refl
loads-dumps json_dumps json_loads (boolean b) nothing h =
    loads-some json_loads (json_dumps (boolean b)) (boolean b) (object no_fields) nothing h
loads-dumps json_dumps json_loads (number n) nothing h =
    loads-some json_loads (json_dumps (number n)) (number n) (object no_fields) nothing h
loads-dumps json_dumps json_loads (text t) nothing h =
    loads-some json_loads (json_dumps (text t)) (text t) (object no_fields) nothing h
loads-dumps json_dumps json_loads (array xs) nothing h =
    loads-some json_loads (json_dumps (array xs)) (array xs) (object no_fields) nothing h
loads-dumps json_dumps json_loads (object fs) nothing h =
    loads-some json_loads (json_dumps (object fs)) (object fs) (object no_fields) nothing h

pub rows_from-append :
    (json_loads : List ℕ → Option Json) (id : String) (first : ℕ) (rows : List EventRow)
    (r : EventRow)
    → rows_from json_loads id first (rows ++ r ∷ [])
      ≡ rows_from json_loads id first rows
        ++ (if string_eq.beq r.response_id id && leb first r.seq
            then logged json_loads r ∷ []
            else [])
unfolding rows_from
rows_from-append json_loads id first [] r = ground arith
rows_from-append json_loads id first (s ∷ rows) r =
    ground (arith, rows_from-append json_loads id first rows r)

max_seq-own :
    (id : String) (s : EventRow) (rows : List EventRow)
    → string_eq.beq s.response_id id ≡ true
    → max_seq id (s ∷ rows) ≡ max s.seq (max_seq id rows)
unfolding max_seq
max_seq-own id s rows h = rw h refl

max_seq-other :
    (id : String) (s : EventRow) (rows : List EventRow)
    → string_eq.beq s.response_id id ≡ false
    → max_seq id (s ∷ rows) ≡ max_seq id rows
unfolding max_seq
max_seq-other id s rows h = rw h refl

pub max_seq-nil : (id : String) → max_seq id [] ≡ 0
unfolding max_seq
max_seq-nil id = refl

-- A row of the response that is added raises the greatest number to its own, and another leaves it.
pub max_seq-append_own :
    (id : String) (rows : List EventRow) (r : EventRow)
    → string_eq.beq r.response_id id ≡ true
    → max_seq id (rows ++ r ∷ []) ≡ max (max_seq id rows) r.seq
max_seq-append_own id [] r h = omega (arith, max_seq-own id r [] h, max_seq-nil id)
max_seq-append_own id (s ∷ rows) r h = elim (Bool-cases (string_eq.beq s.response_id id)) [
  | inl e ↦ omega (
    arith,
    max_seq-own id s (rows ++ r ∷ []) e,
    max_seq-own id s rows e,
    max_seq-append_own id rows r h,
  )
  | inr e ↦ omega (
    arith,
    max_seq-other id s (rows ++ r ∷ []) e,
    max_seq-other id s rows e,
    max_seq-append_own id rows r h,
  )
]

pub max_seq-append_other :
    (id : String) (rows : List EventRow) (r : EventRow)
    → string_eq.beq r.response_id id ≡ false
    → max_seq id (rows ++ r ∷ []) ≡ max_seq id rows
max_seq-append_other id [] r h = max_seq-other id r [] h
max_seq-append_other id (s ∷ rows) r h = elim (Bool-cases (string_eq.beq s.response_id id)) [
  | inl e ↦ omega (
    arith,
    max_seq-own id s (rows ++ r ∷ []) e,
    max_seq-own id s rows e,
    max_seq-append_other id rows r h,
  )
  | inr e ↦ omega (
    arith,
    max_seq-other id s (rows ++ r ∷ []) e,
    max_seq-other id s rows e,
    max_seq-append_other id rows r h,
  )
]

-- A number above the greatest is free.
pub is_taken-max :
    (id : String) (seq : ℕ) (rows : List EventRow)
    → max_seq id rows < seq
    → is_taken id seq rows ≡ false
is_taken-max id seq [] h = refl
is_taken-max id seq (r ∷ rows) h = elim (Bool-cases (string_eq.beq r.response_id id)) [
  | inl e ↦
      let m = max_seq-own id r rows e in
      let differs : (r.seq == seq) ≡ false = ground (arith, m, h) in
      rw (e, differs) (is_taken-max id seq rows (omega (arith, m, h)))
  | inr e ↦ rw e (is_taken-max id seq rows (omega (arith, max_seq-other id r rows e, h)))
]
