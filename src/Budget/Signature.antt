-- ===== src/Budget/Signature.antt =====
-- The signature of a tool call, `tool_signature` of `src/zhongzhuan/responses_v3/budget.py`. A text is
-- the list of its code points. `json.loads`, `json.dumps`, `str` and SHA-256 are parameters.
use zhongzhuan.Base.{
  [], ℕ, String, Bool, true, false, ◌≡◌, refl, sym, ap, ◌∙◌, arith, Option, none, some, List, ◌∷◌,
  ◌++◌, if◌then◌else◌,
}
use zhongzhuan.Base.Eq.{string_eq}
use zhongzhuan.Base.Text.{codes, is_space, lstrip, strip}
use zhongzhuan.Base.Json.{
  Json, null, boolean, number, text, array, object, Fields, no_fields, field,
}

-- `CALL_ID_KEY`
abbrev call_id_key : String
call_id_key = "call_id"

-- `{k: v for k, v in obj.items() if k != CALL_ID_KEY}`
unfoldable pub without_call_id : Fields → Fields
without_call_id no_fields = no_fields
without_call_id (field k v fs) =
    let rest = without_call_id fs in if string_eq.beq k call_id_key then rest else field k v rest

-- `" ".join(text.split())` of a text that starts with no blank: a run of blanks becomes one space.
abbrev pub squeeze : Bool → List ℕ → List ℕ
squeeze after_blank [] = []
squeeze after_blank (c ∷ s) =
    let blank = squeeze true s in
    let rest = squeeze false s in
    if is_space c then blank else if after_blank then 32 ∷ c ∷ rest else c ∷ rest

unfoldable pub collapse : List ℕ → List ℕ
collapse s = squeeze false (lstrip s)

-- The value given as `arguments` or as `result_or_error`.
pub data Given : Type 0 where
  nothing_given : Given
  text_given : List ℕ → Given
  value_given : Json → Given

-- `json.loads`, none for an error; `json.dumps` with sorted keys, none for an error; `str`; the digest.
module _ (loads : List ℕ → Option Json) (canonical_json : Json → Option (List ℕ))
    (str : Json → List ℕ) (sha256 : List ℕ → String) where
  abbrev pub drop_call_id : Json → Json
  drop_call_id (object fs) = object (without_call_id fs)
  drop_call_id null = null
  drop_call_id (boolean b) = boolean b
  drop_call_id (number n) = number n
  drop_call_id (text s) = text s
  drop_call_id (array vs) = array vs

  abbrev dumped : Json → Option (List ℕ) → List ℕ
  dumped v none = collapse (str v)
  dumped v (some s) = s

  abbrev pub canonical_value : Json → List ℕ
  canonical_value v = dumped (drop_call_id v) (canonical_json (drop_call_id v))

  abbrev loaded : List ℕ → Option Json → List ℕ
  loaded s none = collapse s
  loaded s (some v) = canonical_value v

  abbrev canonical_text : List ℕ → List ℕ
  canonical_text [] = canonical_value (object no_fields)
  canonical_text (c ∷ s) = loaded (c ∷ s) (loads (c ∷ s))

  -- `_canonical_arguments`
  unfoldable pub canonical_arguments : Given → List ℕ
  canonical_arguments nothing_given = canonical_value (object no_fields)
  canonical_arguments (text_given s) = canonical_text (strip s)
  canonical_arguments (value_given (text s)) = canonical_text (strip s)
  canonical_arguments (value_given null) = canonical_value (object no_fields)
  canonical_arguments (value_given (boolean b)) = canonical_value (boolean b)
  canonical_arguments (value_given (number n)) = canonical_value (number n)
  canonical_arguments (value_given (array vs)) = canonical_value (array vs)
  canonical_arguments (value_given (object fs)) = canonical_value (object fs)

  abbrev or_stripped : Json → Option (List ℕ) → List ℕ
  or_stripped v none = strip (str v)
  or_stripped v (some s) = s

  -- `_normalize_result`
  unfoldable pub normalize_result : Given → List ℕ
  normalize_result nothing_given = []
  normalize_result (text_given s) = strip s
  normalize_result (value_given null) = []
  normalize_result (value_given (text s)) = strip s
  normalize_result (value_given (boolean b)) = strip (str (boolean b))
  normalize_result (value_given (number n)) = strip (str (number n))
  normalize_result (value_given (array vs)) = or_stripped (array vs) (canonical_json (array vs))
  normalize_result (value_given (object fs)) = or_stripped (object fs) (canonical_json (object fs))

  -- `tool_signature`
  unfoldable pub tool_signature : String → Given → Given → String
  tool_signature name arguments result_or_error =
      sha256
        (codes name ++ 0 ∷ canonical_arguments arguments ++ 0 ∷ normalize_result result_or_error)

module _ (loads : List ℕ → Option Json) (canonical_json : Json → Option (List ℕ))
    (str : Json → List ℕ) (sha256 : List ℕ → String) where
  dumped_lem :
      (v : Json) (printed : List ℕ)
      → canonical_json v ≡ some printed
      → dumped loads canonical_json str sha256 v (canonical_json v) ≡ printed
  dumped_lem v printed p = rw p refl

  canonical_text_lem :
      (s : List ℕ) (fs : Fields)
      → loads [] ≡ none
      → loads s ≡ some (object fs)
      → canonical_text loads canonical_json str sha256 s
        ≡ canonical_value loads canonical_json str sha256 (object fs)
  canonical_text_lem [] fs n p = absurd (ground (arith, n, p))
  canonical_text_lem (c ∷ s) fs n p = rw p refl

-- If two arguments, with `call_id` dropped, print alike, whatever the order of their keys, and the
-- empty text does not parse, then a text that parses to the one and the other as a value have the
-- same signature.
pub tool_signature_same :
    (loads : List ℕ → Option Json) (canonical_json : Json → Option (List ℕ)) (str : Json → List ℕ)
    (sha256 : List ℕ → String) (name : String) (s : List ℕ) (fs gs : Fields) (outcome : Given)
    (printed : List ℕ)
    → loads [] ≡ none
    → loads (strip s) ≡ some (object fs)
    → canonical_json (object (without_call_id fs)) ≡ some printed
    → canonical_json (object (without_call_id gs)) ≡ some printed
    → tool_signature loads canonical_json str sha256 name (text_given s) outcome
      ≡ tool_signature loads canonical_json str sha256 name (value_given (object gs)) outcome
unfolding tool_signature canonical_arguments
tool_signature_same loads canonical_json str sha256 name s fs gs outcome printed nothing parsed p
      q =
    let same =
      canonical_text_lem loads canonical_json str sha256 (strip s) fs nothing parsed
      ∙ dumped_lem loads canonical_json str sha256 (object (without_call_id fs)) printed p in
    let same' =
      dumped_lem loads canonical_json str sha256 (object (without_call_id gs)) printed q in
    ap
      (λ (k : List ℕ).
        sha256
          (codes name ++ 0 ∷ k ++ 0 ∷ normalize_result loads canonical_json str sha256 outcome))
      (same ∙ sym same')
