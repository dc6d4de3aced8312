-- ===== src/EventLog/Reading.antt =====
-- What a reader gets of the log of a response (`src/zhongzhuan/store/event_log.py`).
use zhongzhuan.Base.{
  ℕ, ◌+◌, ◌≡◌, refl, sym, ap, ◌∙◌, inl, inr, String, true, false, Option, none, some, List, [], ◌∷◌,
  ◌++◌, append-nil, append_assoc, All, if◌then◌else◌, length, length-append, drop, leb, arith,
  Bool-cases,
}
use zhongzhuan.Base.Eq.{string_eq}
use zhongzhuan.Base.Json.{Json, object, no_fields}
use zhongzhuan.EventLog.{
  EventRow, Append, max_seq, insert_event, row_of, append_event, logged, rows_from, in_order,
  read_events, loads, dumps,
}
use zhongzhuan.EventLog.Order.{
  append_all, is_taken-max, max_seq-append_other, max_seq-append_own, max_seq-nil, numbered,
  rows_from-append, sequence, sequence_read, loads-dumps,
}
use zhongzhuan.EventLog.Sequences.{
  numbered-append, in_order-numbered, keep_from, keep_from-all, keep_from-drop, numbered_after,
}

abbrev pub Unnumbered : List Append → Type 0
Unnumbered = All (λ a. a.seq ≡ none)

module _ (json_dumps : Json → List ℕ) (json_loads : List ℕ → Option Json) where
  -- The rows of a response are the events of a sequence, numbered from 1 on.
  abbrev pub Kept : String → List (String × Json) → List EventRow → Type 0
  Kept id es rows = (rows_from json_loads id 0 rows ≡ numbered 1 es) × (max_seq id rows ≡ length es)

  -- What is read of a body that was written.
  abbrev pub stored : Json → Json
  stored v = loads json_loads (dumps json_dumps v) (object no_fields)

  abbrev extended : String → List (String × Json) → Append → List (String × Json)
  extended id es a =
      if string_eq.beq a.response_id id then es ++ (a.event_type, stored a.body) ∷ [] else es

  rows_from-own :
      (id : String) (rows : List EventRow) (r : EventRow)
      → string_eq.beq r.response_id id ≡ true
      → rows_from json_loads id 0 (rows ++ r ∷ [])
        ≡ rows_from json_loads id 0 rows ++ logged json_loads r ∷ []
  rows_from-own id rows r e =
      let any : leb 0 r.seq ≡ true = ground arith in
      rows_from-append json_loads id 0 rows r ∙ rw (e, any) refl

  rows_from-other :
      (id : String) (rows : List EventRow) (r : EventRow)
      → string_eq.beq r.response_id id ≡ false
      → rows_from json_loads id 0 (rows ++ r ∷ []) ≡ rows_from json_loads id 0 rows
  rows_from-other id rows r e =
      rows_from-append json_loads id 0 rows r ∙ rw e (append-nil (rows_from json_loads id 0 rows))

  Kept-append :
      (id : String) (es : List (String × Json)) (a : Append) (ts seq : ℕ) (rows : List EventRow)
      → Kept id es rows
      → seq ≡ max_seq a.response_id rows + 1
      → Kept id (extended id es a) (rows ++ row_of json_dumps a seq ts ∷ [])
  Kept-append id es a ts seq rows (k, m) h =
      let r = row_of json_dumps a seq ts in
      elim (Bool-cases (string_eq.beq a.response_id id)) [
        | inl e ↦
            let same = (string_eq.beq_iff a.response_id id).0 e in
            let number : seq ≡ 1 + length es = omega (arith, h, ap (λ i. max_seq i rows) same, m) in
            rw e (
              rows_from-own id rows r e
                  ∙ ap (λ l. l ++ logged json_loads r ∷ []) k
                  ∙ ap
                      (λ n.
                        numbered 1 es
                        ++ record { seq = n; event_type = a.event_type; body = stored a.body } ∷ [])
                      number
                  ∙ sym (numbered-append 1 es a.event_type (stored a.body)),
              omega (
                arith,
                max_seq-append_own id rows r e,
                number,
                m,
                length-append es ((a.event_type, stored a.body) ∷ []),
              ),
            )
        | inr e ↦ rw e (rows_from-other id rows r e ∙ k, max_seq-append_other id rows r e ∙ m)
      ]

  -- An append that asks for no number is written under the next one.
  append_event-next :
      (a : Append) (ts : ℕ) (rows : List EventRow)
      → a.seq ≡ none
      → append_event json_dumps a ts rows
        ≡ some (
          max_seq a.response_id rows + 1,
          rows ++ row_of json_dumps a (max_seq a.response_id rows + 1) ts ∷ [],
        )
  unfolding append_event insert_event
  append_event-next a ts rows h =
      let free = is_taken-max a.response_id (max_seq a.response_id rows + 1) rows (omega arith) in
      rw (h, free) refl

  pub rows_from-keep_from :
      (id : String) (first : ℕ) (rows : List EventRow)
      → rows_from json_loads id first rows ≡ keep_from first (rows_from json_loads id 0 rows)
  unfolding rows_from
  rows_from-keep_from id first [] = refl
  rows_from-keep_from id first (r ∷ rows) = ground (arith, rows_from-keep_from id first rows)

  sequence-extended :
      (id : String) (es : List (String × Json)) (a : Append) (rest : List Append)
      → extended id es a ++ sequence_read stored id rest ≡ es ++ sequence_read stored id (a ∷ rest)
  sequence-extended id es a rest = elim (Bool-cases (string_eq.beq a.response_id id)) [
    | inl e ↦
        rw e (append_assoc es ((a.event_type, stored a.body) ∷ []) (sequence_read stored id rest))
    | inr e ↦ rw e refl
  ]

  pub append_all-Kept :
      (id : String) (appends : List Append) (ts : ℕ) (rows : List EventRow)
      (es : List (String × Json))
      → Unnumbered appends
      → Kept id es rows
      → (after : List EventRow) × (append_all json_dumps appends ts rows ≡ some after)
        × Kept id (es ++ sequence_read stored id appends) after
  unfolding append_all
  append_all-Kept id [] ts rows es u (k, m) =
      (rows, refl, (k ∙ ap (numbered 1) (sym (append-nil es)), m ∙ ap length (sym (append-nil es))))
  append_all-Kept id (a ∷ rest) ts rows es (u, us) kept =
      let seq = max_seq a.response_id rows + 1 in
      let (after, e, (k, m)) =
        append_all-Kept id rest ts (rows ++ row_of json_dumps a seq ts ∷ []) (extended id es a) us
          (Kept-append id es a ts seq rows kept refl) in
      let same = sequence-extended id es a rest in
      (
        after,
        rw (append_all, append_event-next a ts rows u) e,
        (k ∙ ap (numbered 1) same, m ∙ ap length same),
      )

  -- `json.loads` gives back the bodies of the events from what `json.dumps` made of them.
  abbrev pub RoundTrips : List Append → Type 0
  RoundTrips = All (λ a. json_loads (json_dumps a.body) ≡ some a.body)

  sequence-stored :
      (id : String) (appends : List Append)
      → json_loads [] ≡ none
      → RoundTrips appends
      → sequence_read stored id appends ≡ sequence id appends
  sequence-stored id [] nothing h = refl
  sequence-stored id (a ∷ rest) nothing (h, hs) =
      let body = loads-dumps json_dumps json_loads a.body nothing h in
      rw (body, sequence-stored id rest nothing hs) refl

  -- What a log that was empty keeps.
  pub append_all-empty :
      (id : String) (appends : List Append) (ts : ℕ) (rows : List EventRow)
      (es : List (String × Json))
      → json_loads [] ≡ none
      → RoundTrips appends
      → Unnumbered appends
      → Kept id es rows
      → (after : List EventRow) × (append_all json_dumps appends ts rows ≡ some after)
        × Kept id (es ++ sequence id appends) after
  append_all-empty id appends ts rows es nothing h u kept =
      let (after, e, (k, m)) = append_all-Kept id appends ts rows es u kept in
      let same = ap (◌++◌ es) (sequence-stored id appends nothing h) in
      (after, e, (k ∙ ap (numbered 1) same, m ∙ ap length same))

  pub read_events-Kept :
      (id : String) (es : List (String × Json)) (rows : List EventRow)
      → Kept id es rows
      → (after_seq : Option ℕ)
      → read_events json_loads id after_seq rows ≡ numbered_after after_seq es
  unfolding read_events
  read_events-Kept id es rows (k, _) none =
      ap in_order
        (rows_from-keep_from id 0 rows ∙ ap (keep_from 0) k ∙ keep_from-all 0 1 es (omega arith))
      ∙ in_order-numbered 1 es
  read_events-Kept id es rows (kept, _) (some k) =
      ap in_order
        (rows_from-keep_from id (k + 1) rows ∙ ap (keep_from (k + 1)) kept ∙ keep_from-drop k 1 es)
      ∙ in_order-numbered (k + 1) (drop k es)

  -- Events that ask for no number are all written, and a reader of a response, from the start or
  -- after any number, gets the rest of its events in the order in which they were appended, numbered
  -- 1, 2, 3, ... without a gap, whatever events of other responses come between; a body `None` is
  -- read as an empty object. `json.loads` is taken to fail on the empty text and to give back each
  -- event's body from what `json.dumps` made of it.
  pub read_events-append_all :
      (id : String) (appends : List Append) (ts : ℕ) (after_seq : Option ℕ)
      → json_loads [] ≡ none
      → RoundTrips appends
      → Unnumbered appends
      → (rows : List EventRow) × (append_all json_dumps appends ts [] ≡ some rows)
        × (read_events json_loads id after_seq rows
            ≡ numbered_after after_seq (sequence id appends))
  unfolding rows_from
  read_events-append_all id appends ts after_seq nothing h u =
      let (rows, e, kept) =
        append_all-empty id appends ts [] [] nothing h u (refl, max_seq-nil id) in
      (rows, e, read_events-Kept id (sequence id appends) rows kept after_seq)
