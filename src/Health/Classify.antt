-- ===== src/Health/Classify.antt =====
-- The classification of an upstream failure, `classify_label` and the block-page tests of
-- `src/zhongzhuan/proxy/retry.py`.
use zhongzhuan.Base.{
  [], ℕ, Bool, true, false, ◌&&◌, ◌||◌, Option, none, some, String, List, ◌∷◌, take, ltb, leb, ◌==◌,
  if◌then◌else◌,
}
use zhongzhuan.Base.Eq.{string_eq}
use zhongzhuan.Base.Int.{ℤ}
use zhongzhuan.Base.Dict.{Dict, lookup, insert}
use zhongzhuan.Base.Text.{codes, contains, contains_any, lower_bytes, or_empty}
use zhongzhuan.Health.{
  FailureClass, permanent, banned, balance, rate_limit, transient, no_retry, unknown,
}

-- What the module takes of Python's text library.
pub record Python : Type 0 where
  pub lower : String → String  -- str.lower
  pub decode_lower : List ℕ → List ℕ  -- bytes.decode("utf-8", "replace").lower(), as code points
  pub parse_int : String → Option ℤ  -- int(text); `none` is a ValueError
  pub parse_seconds : String → Option ℤ  -- float(text), in ticks; `none` is a ValueError

abbrev pub Headers : Type 0
Headers = Dict String String

module _ (py : Python) where
  lower_headers_onto : Headers → Headers → Headers
  lower_headers_onto [] out = out
  lower_headers_onto ((k, v) ∷ headers) out = lower_headers_onto headers (insert (py.lower k) v out)

  -- `_lower_headers`
  unfoldable pub lower_headers : Headers → Headers
  unfolding lower_headers_onto
  lower_headers headers = lower_headers_onto headers []

abbrev pub is_present : Option String → Bool
is_present none = false
is_present (some v) = true

-- `_CLOUDFLARE_BODY_MARKERS`
abbrev pub cloudflare_body_markers : List (List ℕ)
cloudflare_body_markers =
    codes "cloudflare"
    ∷ codes "cf-chl"
    ∷ codes "just a moment"
    ∷ codes "checking your browser"
    ∷ codes "_cf_chl"
    ∷ codes "cf-ray"
    ∷ codes "attack-scanner"
    ∷ []

-- `_PROXY_BLOCK_BODY_MARKERS`
abbrev pub proxy_block_body_markers : List (List ℕ)
proxy_block_body_markers =
    codes "please check your network settings"
    ∷ codes "error code: 1010"
    ∷ codes "error code: 1011"
    ∷ codes "error code: 1015"
    ∷ codes "error code: 1020"
    ∷ codes "cf-error-code"
    ∷ []

-- `_PERMANENT_BODY_MARKERS`
abbrev pub permanent_body_markers : List (List ℕ)
permanent_body_markers =
    codes "model_not_found"
    ∷ codes "no available channel"
    ∷ codes "invalid token"
    ∷ codes "invalid_api_key"
    ∷ codes "unauthorized"
    ∷ []

-- `_BALANCE_BODY_MARKERS`
abbrev pub balance_body_markers : List (List ℕ)
balance_body_markers =
    codes "insufficient_balance" ∷ codes "insufficient balance" ∷ codes "topup" ∷ []

-- `_QUOTA_TRANSIENT_BODY_MARKERS`
abbrev pub quota_transient_body_markers : List (List ℕ)
quota_transient_body_markers =
    codes "insufficient_user_quota" ∷ codes "insufficient user quota" ∷ []

module _ (py : Python) where
  unfoldable pub looks_like_cloudflare_block : ℕ → Headers → List ℕ → Bool
  looks_like_cloudflare_block status headers body =
      let h = lower_headers py headers in
      contains (codes "cloudflare") (or_empty (lookup "server" h))
      || (is_present (lookup "cf-ray" h) || is_present (lookup "cf-mitigated" h))
      || contains (codes "text/html") (or_empty (lookup "content-type" h))
        && (status == 403 || status == 503 || status == 429)
      || contains_any cloudflare_body_markers (lower_bytes (take 4096 body))

-- `looks_like_proxy_block`; the headers are not read.
unfoldable pub looks_like_proxy_block : ℕ → List ℕ → Bool
looks_like_proxy_block status body =
    if status == 403 || status == 503
    then contains_any proxy_block_body_markers (lower_bytes (take 8192 body))
    else false

-- The tests on the bare status code, with which `classify_label` ends.
unfoldable pub label_of_status : ℕ → FailureClass
label_of_status status =
    if status == 402
    then balance
    else if status == 401
    then permanent
    else if status == 403
    then transient
    else if status == 429
    then rate_limit
    else if status == 499
    then no_retry
    else if (status == 0 || status == 408 || status == 504 || status == 554)
        || leb 500 status && leb status 599
        || leb 600 status
    then transient
    else if leb 400 status && ltb status 500
    then no_retry
    else unknown

-- The tests on the body, then those on the status.
unfoldable pub label_of_body : List ℕ → ℕ → FailureClass
unfolding label_of_status
label_of_body low status =
    if contains_any permanent_body_markers low
    then permanent
    else if contains_any quota_transient_body_markers low
    then transient
    else if contains_any balance_body_markers low
    then balance
    else label_of_status status

module _ (py : Python) where
  unfoldable pub classify_label : ℕ → Headers → List ℕ → FailureClass
  classify_label status headers body =
      let blocked = looks_like_cloudflare_block py status headers body in
      if (status == 403 || status == 503 && blocked)
        && (blocked || looks_like_proxy_block status body)
      then banned
      else label_of_body (py.decode_lower (take 8192 body)) status
