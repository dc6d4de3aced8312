-- ===== src/EventLog/Catchup.antt =====
-- A client that comes back and reads on, `CatchupStream` of
-- `src/zhongzhuan/responses_v3/catchup.py`.
use zhongzhuan.Base.{
  ℕ, suc, ◌+◌, ◌≡◌, refl, sym, ap, ◌∙◌, String, Option, none, some, List, [], ◌∷◌, ◌++◌, drop,
  length, arith,
}
use zhongzhuan.Base.Json.{Json}
use zhongzhuan.EventLog.{EventRow, Logged, Append, rows_from, read_events}
use zhongzhuan.EventLog.Order.{numbered, sequence, append_all, max_seq-nil}
use zhongzhuan.EventLog.Reading.{Kept, Unnumbered, RoundTrips, append_all-empty, read_events-Kept}

-- The number of the last of the events, if there is one.
abbrev pub last_of : List Logged → Option ℕ
last_of [] = none
last_of (e ∷ []) = some e.seq
last_of (e ∷ f ∷ es) = last_of (f ∷ es)

module _ (json_loads : List ℕ → Option Json) where
  -- `CatchupStream.last_seq`, where `none` is -1.
  unfoldable pub last_seq : String → List EventRow → Option ℕ
  last_seq id rows = last_of (read_events json_loads id none rows)

  -- `CatchupStream.events`
  unfoldable pub events_after : String → Option ℕ → List EventRow → List Logged
  events_after id after_seq rows = read_events json_loads id after_seq rows

last_of-numbered :
    (n : ℕ) (e : String × Json) (es : List (String × Json))
    → last_of (numbered n (e ∷ es)) ≡ some (n + length es)
last_of-numbered n e [] = ap some (omega arith)
last_of-numbered n e (f ∷ es) = last_of-numbered (suc n) f es ∙ ap some (omega arith)

numbered-split :
    (n : ℕ) (es fs : List (String × Json))
    → numbered n (es ++ fs) ≡ numbered n es ++ numbered (length es + n) fs
numbered-split n [] fs = ap (λ k. numbered k fs) (omega arith)
numbered-split n ((t, b) ∷ es) fs =
    ap (◌∷◌ (record { seq = n; event_type = t; body = b }))
      (numbered-split (suc n) es fs ∙ ap (λ k. numbered (suc n) es ++ numbered k fs) (omega arith))

drop-prefix : (es fs : List (String × Json)) → drop (length es) (es ++ fs) ≡ fs
drop-prefix [] fs = refl
drop-prefix (e ∷ es) fs = drop-prefix es fs

module _ (json_dumps : Json → List ℕ) (json_loads : List ℕ → Option Json) where
  rest_of :
      (id : String) (es fs : List (String × Json)) (rows1 rows2 : List EventRow)
      → Kept json_dumps json_loads id es rows1
      → Kept json_dumps json_loads id (es ++ fs) rows2
      → events_after json_loads id (last_seq json_loads id rows1) rows2
        ≡ numbered (length es + 1) fs
  unfolding events_after last_seq
  rest_of id [] fs rows1 rows2 k1 k2 =
      ap (λ l. read_events json_loads id (last_of l) rows2)
        (read_events-Kept json_dumps json_loads id [] rows1 k1 none)
      ∙ read_events-Kept json_dumps json_loads id fs rows2 k2 none
  rest_of id (e ∷ es) fs rows1 rows2 k1 k2 =
      let all = e ∷ es ++ fs in
      let n = length (e ∷ es) in
      ap (λ l. read_events json_loads id (last_of l) rows2)
        (read_events-Kept json_dumps json_loads id (e ∷ es) rows1 k1 none)
      ∙ ap (λ o. read_events json_loads id o rows2) (last_of-numbered 1 e es)
      ∙ read_events-Kept json_dumps json_loads id all rows2 k2 (some (1 + length es))
      ∙ ap (λ m. numbered (m + 1) (drop m all)) {y = n} (omega arith)
      ∙ ap (numbered (n + 1)) (drop-prefix (e ∷ es) fs)

  -- A client that has read the events so far, and asks for those after the last number it saw once
  -- more events have been appended, has read all the events of the response, each once and in order,
  -- as they were appended, where a body `None` is read as an empty object. The events ask for no
  -- numbers; `json.loads` is taken to fail on the empty text and to give back each event's body from
  -- what `json.dumps` made of it.
  pub events_after-last_seq :
      (id : String) (appends more : List Append) (ts later : ℕ)
      → json_loads [] ≡ none
      → RoundTrips json_dumps json_loads appends
      → RoundTrips json_dumps json_loads more
      → Unnumbered appends
      → Unnumbered more
      → (rows1 rows2 : List EventRow) × (append_all json_dumps appends ts [] ≡ some rows1)
        × (append_all json_dumps more later rows1 ≡ some rows2)
        × (events_after json_loads id none rows1
              ++ events_after json_loads id (last_seq json_loads id rows1) rows2
            ≡ events_after json_loads id none rows2)
        × (events_after json_loads id none rows2
            ≡ numbered 1 (sequence id appends ++ sequence id more))
  unfolding events_after rows_from
  events_after-last_seq id appends more ts later nothing h h' u v =
      let (rows1, e1, k1) =
        append_all-empty json_dumps json_loads id appends ts [] [] nothing h u
          (refl, max_seq-nil id) in
      let es = sequence id appends in
      let fs = sequence id more in
      let (rows2, e2, k2) =
        append_all-empty json_dumps json_loads id more later rows1 es nothing h' v k1 in
      let whole = read_events-Kept json_dumps json_loads id (es ++ fs) rows2 k2 none in
      let seen = read_events-Kept json_dumps json_loads id es rows1 k1 none in
      (
        rows1,
        rows2,
        e1,
        e2,
        ap (λ l. l ++ events_after json_loads id (last_seq json_loads id rows1) rows2) seen
            ∙ ap (◌++◌ (numbered 1 es)) (rest_of id es fs rows1 rows2 k1 k2)
            ∙ sym (numbered-split 1 es fs)
            ∙ sym whole,
        whole,
      )
