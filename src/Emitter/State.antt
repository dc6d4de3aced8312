-- ===== src/Emitter/State.antt =====
-- The states of an emitter and their legal transitions
-- (`src/zhongzhuan/proxy/protocol/responses_models.py`).
use zhongzhuan.Base.{ℕ, String, Bool, true, false, List, [], ◌∷◌, ◌==◌, if◌then◌else◌}

pub data EmitterState : Type 0 where
  init queued created in_progress streaming completing : EmitterState
  completed failed incomplete cancelled : EmitterState

-- `class ResponseStatus`
pub data ResponseStatus : Type 0 where
  status_queued status_in_progress status_completed : ResponseStatus
  status_failed status_incomplete status_cancelled : ResponseStatus

-- `ResponseStatus.value`
abbrev pub status_name : ResponseStatus → String
status_name status_queued = "queued"
status_name status_in_progress = "in_progress"
status_name status_completed = "completed"
status_name status_failed = "failed"
status_name status_incomplete = "incomplete"
status_name status_cancelled = "cancelled"

-- `TERMINAL_EMITTER_STATES`
abbrev pub terminal_emitter_states : List EmitterState
terminal_emitter_states = completed ∷ failed ∷ incomplete ∷ cancelled ∷ []

-- `ALLOWED_TRANSITIONS`
abbrev pub allowed_transitions : EmitterState → List EmitterState
allowed_transitions init = queued ∷ created ∷ []
allowed_transitions queued = created ∷ []
allowed_transitions created = in_progress ∷ []
allowed_transitions in_progress = streaming ∷ completing ∷ []
allowed_transitions streaming = streaming ∷ completing ∷ []
allowed_transitions completing = terminal_emitter_states
allowed_transitions completed = []
allowed_transitions failed = []
allowed_transitions incomplete = []
allowed_transitions cancelled = []

abbrev state_code : EmitterState → ℕ
state_code init = 0
state_code queued = 1
state_code created = 2
state_code in_progress = 3
state_code streaming = 4
state_code completing = 5
state_code completed = 6
state_code failed = 7
state_code incomplete = 8
state_code cancelled = 9

abbrev is_one_of : EmitterState → List EmitterState → Bool
is_one_of s [] = false
is_one_of s (t ∷ ts) = if state_code t == state_code s then true else is_one_of s ts

-- `is_legal_transition`
unfoldable pub is_legal_transition : EmitterState → EmitterState → Bool
is_legal_transition src dst = is_one_of dst (allowed_transitions src)

-- `state in TERMINAL_EMITTER_STATES`
unfoldable pub is_terminal_state : EmitterState → Bool
is_terminal_state s = is_one_of s terminal_emitter_states

-- The state that `terminate` enters.
unfoldable pub terminal_state : ResponseStatus → EmitterState
terminal_state status_completed = completed
terminal_state status_failed = failed
terminal_state status_incomplete = incomplete
terminal_state status_cancelled = cancelled
terminal_state status_queued = completed
terminal_state status_in_progress = completed
