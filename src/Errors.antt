-- ===== src/Errors.antt =====
-- The classes of errors and the bodies they are answered with
-- (`src/zhongzhuan/proxy/protocol/responses_errors.py`, with `ErrorClass` and `TerminalReason` of
-- `responses_models.py`). The redaction of credentials, which is a table of regular expressions, and
-- `str.lower` are parameters.
pub mod Bounds
use zhongzhuan.Base.{
  ℕ, ◌+◌, String, Bool, true, false, ◌&&◌, Option, none, some, List, [], ◌∷◌, ◌++◌, if◌then◌else◌,
  length, take, ltb, leb, ◌==◌,
}
use zhongzhuan.Base.Eq.{string_eq}
use zhongzhuan.Base.Dict.{Dict, insert}
use zhongzhuan.Base.Text.{codes, strip, rstrip, is_space}
use zhongzhuan.Base.Json.{Json, null, text, object, Fields, no_fields, field}
use zhongzhuan.Budget.{TerminalReason}

-- `class ErrorClass`
pub data ErrorClass : Type 0 where
  invalid_client_request unsupported_input_block upstream_connect_error upstream_rate_limited :
      ErrorClass
  upstream_server_error first_token_timeout read_idle_timeout upstream_truncated : ErrorClass
  invalid_sse_frame invalid_tool_arguments client_disconnected internal_translation_error :
      ErrorClass
  unsupported_tool_capability capability_route_unavailable : ErrorClass

-- `ErrorClass.value`
abbrev pub error_value : ErrorClass → String
error_value invalid_client_request = "invalid_client_request"
error_value unsupported_input_block = "unsupported_input_block"
error_value upstream_connect_error = "upstream_connect_error"
error_value upstream_rate_limited = "upstream_rate_limited"
error_value upstream_server_error = "upstream_server_error"
error_value first_token_timeout = "first_token_timeout"
error_value read_idle_timeout = "read_idle_timeout"
error_value upstream_truncated = "upstream_truncated"
error_value invalid_sse_frame = "invalid_sse_frame"
error_value invalid_tool_arguments = "invalid_tool_arguments"
error_value client_disconnected = "client_disconnected"
error_value internal_translation_error = "internal_translation_error"
error_value unsupported_tool_capability = "unsupported_tool_capability"
error_value capability_route_unavailable = "capability_route_unavailable"

-- `TerminalReason.value`
abbrev pub reason_value : TerminalReason → String
reason_value TerminalReason.normal_finish = "normal_finish"
reason_value TerminalReason.max_tool_rounds = "max_tool_rounds"
reason_value TerminalReason.max_total_tool_calls = "max_total_tool_calls"
reason_value TerminalReason.repeated_tool_call = "repeated_tool_call"
reason_value TerminalReason.repeated_tool_failure = "repeated_tool_failure"
reason_value TerminalReason.max_response_time = "max_response_time"
reason_value TerminalReason.max_output_budget = "max_output_budget"
reason_value TerminalReason.response_chain_cycle = "response_chain_cycle"
reason_value TerminalReason.response_chain_too_deep = "response_chain_too_deep"
reason_value TerminalReason.retry_budget_exhausted = "retry_budget_exhausted"
reason_value TerminalReason.background_budget_exhausted = "background_budget_exhausted"
reason_value TerminalReason.upstream_truncated = "upstream_truncated"
reason_value TerminalReason.invalid_tool_arguments = "invalid_tool_arguments"
reason_value TerminalReason.capability_route_unavailable = "capability_route_unavailable"
reason_value TerminalReason.client_disconnected = "client_disconnected"
reason_value TerminalReason.upstream_error = "upstream_error"
reason_value TerminalReason.cancelled_by_client = "cancelled_by_client"
reason_value TerminalReason.upstream_connect = "upstream_connect"
reason_value TerminalReason.first_token_timeout = "first_token_timeout"
reason_value TerminalReason.read_idle_timeout = "read_idle_timeout"

-- `class ErrorSpec`, but for its class.
pub record ErrorSpec : Type 0 where
  pub http_status : ℕ
  pub error_type : String
  pub code : String
  pub emits_body : Bool
  pub retryable : Bool

abbrev spec : ℕ → String → String → Bool → Bool → ErrorSpec
spec http_status error_type code emits_body retryable = record {
  http_status = http_status;
  error_type = error_type;
  code = code;
  emits_body = emits_body;
  retryable = retryable;
}

-- `ERROR_SPECS` and `get_spec`, which finds each class there.
unfoldable pub get_spec : ErrorClass → ErrorSpec
get_spec invalid_client_request = spec 400 "invalid_request_error" "invalid_request" true false
get_spec unsupported_input_block =
    spec 400 "invalid_request_error" "unsupported_input_block" true false
get_spec upstream_connect_error = spec 502 "server_error" "upstream_connect_error" true true
get_spec upstream_rate_limited = spec 429 "rate_limit_error" "rate_limit_exceeded" true true
get_spec upstream_server_error = spec 502 "server_error" "upstream_error" true true
get_spec first_token_timeout = spec 504 "server_error" "first_token_timeout" true true
get_spec read_idle_timeout = spec 504 "server_error" "read_idle_timeout" true false
get_spec upstream_truncated = spec 200 "" "upstream_truncated" false false
get_spec invalid_sse_frame = spec 502 "server_error" "invalid_sse_frame" true false
get_spec invalid_tool_arguments =
    spec 400 "invalid_request_error" "invalid_tool_arguments" true false
get_spec client_disconnected = spec 499 "" "" false false
get_spec internal_translation_error = spec 500 "server_error" "internal_error" true false
get_spec unsupported_tool_capability =
    spec 400 "invalid_request_error" "unsupported_tool" true false
get_spec capability_route_unavailable =
    spec 503 "server_error" "capability_route_unavailable" true false

-- `TERMINAL_REASON_TO_ERROR_CLASS`
unfoldable pub error_class_of : TerminalReason → Option ErrorClass
error_class_of TerminalReason.upstream_truncated = some ErrorClass.upstream_truncated
error_class_of TerminalReason.capability_route_unavailable =
    some ErrorClass.capability_route_unavailable
error_class_of TerminalReason.client_disconnected = some ErrorClass.client_disconnected
error_class_of TerminalReason.cancelled_by_client = some ErrorClass.client_disconnected
error_class_of TerminalReason.upstream_error = some ErrorClass.upstream_server_error
error_class_of TerminalReason.upstream_connect = some ErrorClass.upstream_connect_error
error_class_of TerminalReason.first_token_timeout = some ErrorClass.first_token_timeout
error_class_of TerminalReason.read_idle_timeout = some ErrorClass.read_idle_timeout
error_class_of _ = none

-- `http_status_for`
unfoldable pub http_status_for : ErrorClass → ℕ
http_status_for err_class = (get_spec err_class).http_status

-- `is_retryable`
unfoldable pub is_retryable : ErrorClass → Bool
is_retryable err_class = (get_spec err_class).retryable

-- `classify_http_status`; a negative status acts as 0 does.
unfoldable pub classify_http_status : ℕ → ErrorClass
classify_http_status status =
    if status == 429
    then upstream_rate_limited
    else if leb 500 status
    then upstream_server_error
    else if leb 400 status && ltb status 500
    then invalid_client_request
    else upstream_server_error

-- `_WHITESPACE_RUN.sub(" ", text)`, where `spaced` says that a space has just been written.
abbrev pub collapse_from : Bool → List ℕ → List ℕ
collapse_from spaced [] = []
collapse_from true (c ∷ s) = if is_space c then collapse_from true s else c ∷ collapse_from false s
collapse_from false (c ∷ s) =
    if is_space c then 32 ∷ collapse_from true s else c ∷ collapse_from false s

-- `_SENSITIVE_HEADERS`
abbrev sensitive_headers : List String
sensitive_headers =
    "authorization" ∷ "proxy-authorization" ∷ "x-api-key" ∷ "api-key" ∷ "anthropic-api-key"
    ∷ "x-goog-api-key" ∷ "openai-api-key" ∷ "cookie" ∷ "set-cookie" ∷ "x-auth-token" ∷ []

abbrev pub is_listed : String → List String → Bool
is_listed name [] = false
is_listed name (h ∷ hs) = if string_eq.beq h name then true else is_listed name hs

-- `name.lower() in _SENSITIVE_HEADERS`
unfoldable pub is_sensitive : (String → String) → String → Bool
is_sensitive lower name = is_listed (lower name) sensitive_headers

-- `value or other`
abbrev or_text : String → String → List ℕ
or_text String.[] other = codes other
or_text (String.◌∷◌ c s) other = codes (String.◌∷◌ c s)

-- `param if param else None`
abbrev or_null : Option String → Json
or_null none = null
or_null (some String.[]) = null
or_null (some (String.◌∷◌ c s)) = text (codes (String.◌∷◌ c s))

-- `redact` is the function of that name.
module _ (redact : List ℕ → List ℕ) where
  -- The end of `sanitize_message`.
  abbrev pub truncate : ℕ → List ℕ → List ℕ
  truncate max_chars cleaned =
      if ltb 0 max_chars && ltb max_chars (length cleaned)
      then rstrip (take max_chars cleaned) ++ codes "... [truncated]"
      else cleaned

  -- `sanitize_message`; a negative bound acts as 0 does.
  unfoldable pub sanitize_message : List ℕ → ℕ → List ℕ
  sanitize_message message max_chars =
      truncate max_chars (strip (collapse_from false (redact message)))

  -- `redact_headers`
  unfoldable pub redact_headers :
      (String → String) → Dict String (List ℕ) → Dict String (List ℕ) → Dict String (List ℕ)
  redact_headers lower [] out = out
  redact_headers lower ((name, value) ∷ headers) out =
      redact_headers lower headers
        (insert name (if is_sensitive lower name then codes "[REDACTED]" else redact value) out)

  -- `error_payload`
  unfoldable pub error_payload : ErrorClass → List ℕ → Option String → Fields
  error_payload err_class message param =
      let s = get_spec err_class in
      field "type" (text (or_text s.error_type "server_error")) (
        field "code" (text (or_text s.code (error_value err_class))) (
          field "message" (text (sanitize_message message 512))
            (field "param" (or_null param) no_fields)))

  abbrev or_emits : Option Bool → Bool → Bool
  or_emits none emits = emits
  or_emits (some include_body) emits = include_body

  -- `to_error_response`
  unfoldable pub to_error_response : ErrorClass → List ℕ → Option String → Option Bool → ℕ × Fields
  to_error_response err_class message param include_body =
      let s = get_spec err_class in
      if or_emits include_body s.emits_body
      then (s.http_status, field "error" (object (error_payload err_class message param)) no_fields)
      else (s.http_status, no_fields)
