-- ===== src/Tests/Logs.antt =====
-- Runs of the event log and of the rendering of errors.
use zhongzhuan.Base.{◌++◌, ℕ, zero, suc, ◌≡◌, refl, String, Option, none, some, List, [], ◌∷◌, inl}
use zhongzhuan.Base.Text.{codes}
use zhongzhuan.Base.Json.{Json, null, text, object, no_fields, field}
use zhongzhuan.EventLog.{EventRow, Append, read_events}
use zhongzhuan.EventLog.Order.{numbered, sequence, append_all}
use zhongzhuan.EventLog.Sequences.{numbered_after}
use zhongzhuan.EventLog.Reading.{read_events-append_all}
use zhongzhuan.EventLog.Catchup.{last_seq, events_after, events_after-last_seq}
use zhongzhuan.Errors.{redact_headers, is_sensitive}
use zhongzhuan.Errors.Bounds.{Masked, redact_headers-Masked}

abbrev event : String → String → Json → Append
event id event_type body = record {
  response_id = id;
  workspace_id = "";
  event_type = event_type;
  body = body;
  seq = none;
  expires_at = 0;
}

-- A format for objects of one text and for `null`.
abbrev json_dumps : Json → List ℕ
json_dumps (object (field k (text t) no_fields)) = 1 ∷ t
json_dumps v = 0 ∷ []

abbrev json_loads : List ℕ → Option Json
json_loads [] = none
json_loads (suc n ∷ t) = some (object (field "type" (text t) no_fields))
json_loads (zero ∷ t) = some null

abbrev body : String → Json
body t = object (field "type" (text (codes t)) no_fields)

abbrev appends : List Append
appends =
    event "resp_1" "response.created" (body "created")
    ∷ event "resp_2" "response.created" (body "other")
    ∷ event "resp_1" "response.completed" null
    ∷ []

read_events-append_all_example :
    (rows : List EventRow) × (append_all json_dumps appends 7 [] ≡ some rows)
    × (read_events json_loads "resp_1" none rows ≡ numbered_after none (sequence "resp_1" appends))
read_events-append_all_example =
    read_events-append_all json_dumps json_loads "resp_1" appends 7 none refl
      (refl, (refl, (refl, tt))) (refl, (refl, (refl, tt)))

abbrev lower : String → String
lower name = name

abbrev redact : List ℕ → List ℕ
redact s = s

redact_headers-Masked_example :
    Masked redact "cookie"
      (redact_headers redact lower (("accept", codes "*") ∷ ("cookie", codes "k=1") ∷ []) [])
unfolding is_sensitive
redact_headers-Masked_example =
    redact_headers-Masked redact lower "cookie"
      (("accept", codes "*") ∷ ("cookie", codes "k=1") ∷ []) [] refl (inl refl)

abbrev more : List Append
more = event "resp_1" "response.failed" (body "failed") ∷ []

events_after-last_seq_example :
    (rows1 rows2 : List EventRow) × (append_all json_dumps appends 7 [] ≡ some rows1)
    × (append_all json_dumps more 9 rows1 ≡ some rows2)
    × (events_after json_loads "resp_1" none rows1
          ++ events_after json_loads "resp_1" (last_seq json_loads "resp_1" rows1) rows2
        ≡ events_after json_loads "resp_1" none rows2)
    × (events_after json_loads "resp_1" none rows2
        ≡ numbered 1 (sequence "resp_1" appends ++ sequence "resp_1" more))
events_after-last_seq_example =
    events_after-last_seq json_dumps json_loads "resp_1" appends more 7 9 refl
      (refl, (refl, (refl, tt))) (refl, tt) (refl, (refl, (refl, tt))) (refl, tt)
