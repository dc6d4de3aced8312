-- ===== src/Items/Redaction.antt =====
-- The text of a reasoning item is dropped when it is parsed (`redact_item` of
-- `src/zhongzhuan/proxy/protocol/item_registry.py`).
use zhongzhuan.Base.{
  ℕ, ◌≡◌, refl, sym, ap, ◌∙◌, String, Bool, true, false, ◌&&◌, not, Option, none, some, List, [],
  ◌∷◌, if◌then◌else◌, arith, Bool-cases, inl, inr,
}
use zhongzhuan.Base.Eq.{string_eq, text_eq}
use zhongzhuan.Base.Dict.{Dict, lookup, insert, erase, lookup-insert, lookup-erase}
use zhongzhuan.Base.Text.{codes}
use zhongzhuan.Base.Decimal.{decimal}
use zhongzhuan.Base.Json.{
  Json, null, boolean, number, text, array, object, Items, no_items, item, Fields, no_fields, field,
}
use zhongzhuan.Items.{
  NormalizedItem, get_handler, without_text, summary_parts, redact_summary, text_of, item_role,
  redacted_fields, redact_item, set_role, bound_payload, parse_item, item_registry, parsed_by,
}

-- No field has the name.
abbrev pub has_no : String → Fields → Bool
has_no k no_fields = true
has_no k (field j v fs) = not (string_eq.beq j k) && has_no k fs

-- The parts are objects without a text.
abbrev pub textless : Items → Bool
textless no_items = true
textless (item (object s) rest) = has_no "text" s && textless rest
textless (item null rest) = false
textless (item (boolean b) rest) = false
textless (item (number n) rest) = false
textless (item (text t) rest) = false
textless (item (array vs) rest) = false

-- A summary that is a list has textless parts.
abbrev pub bare_summary : Option Json → Bool
bare_summary (some (array parts)) = textless parts
bare_summary (some null) = true
bare_summary (some (boolean b)) = true
bare_summary (some (number n)) = true
bare_summary (some (text t)) = true
bare_summary (some (object fs)) = true
bare_summary none = true

without_text-has_no : (s : Fields) → has_no "text" (without_text s) ≡ true
without_text-has_no no_fields = refl
without_text-has_no (field k v fs) = ground (arith, without_text-has_no fs)

summary_parts-textless : (parts : Items) → textless (summary_parts parts) ≡ true
summary_parts-textless no_items = refl
summary_parts-textless (item (object s) rest) =
    ground (arith, without_text-has_no s, summary_parts-textless rest)
summary_parts-textless (item null rest) = summary_parts-textless rest
summary_parts-textless (item (boolean b) rest) = summary_parts-textless rest
summary_parts-textless (item (number n) rest) = summary_parts-textless rest
summary_parts-textless (item (text t) rest) = summary_parts-textless rest
summary_parts-textless (item (array vs) rest) = summary_parts-textless rest

-- The new value of a summary.
abbrev pub summary_of : Option Json → Option Json
summary_of (some (array parts)) = some (array (summary_parts parts))
summary_of (some null) = some null
summary_of (some (boolean b)) = some (boolean b)
summary_of (some (number n)) = some (number n)
summary_of (some (text t)) = some (text t)
summary_of (some (object fs)) = some (object fs)
summary_of none = none

summary_of-bare : (v : Option Json) → bare_summary (summary_of v) ≡ true
summary_of-bare (some (array parts)) = summary_parts-textless parts
summary_of-bare (some null) = refl
summary_of-bare (some (boolean b)) = refl
summary_of-bare (some (number n)) = refl
summary_of-bare (some (text t)) = refl
summary_of-bare (some (object fs)) = refl
summary_of-bare none = refl

kept-summary :
    (k : String) (v : Option Json) (d : Dict String Json)
    → lookup "summary" d ≡ v
    → lookup k d ≡ (if string_eq.beq "summary" k then v else lookup k d)
kept-summary k v d h = elim (Bool-cases (string_eq.beq "summary" k)) [
  | inl e ↦ rw e (sym (ap (λ j. lookup j d) ((string_eq.beq_iff "summary" k).0 e)) ∙ h)
  | inr e ↦ rw e refl
]

-- What `redact_summary` leaves under each key.
pub lookup-redact_summary :
    (v : Option Json) (k : String) (d : Dict String Json)
    → lookup "summary" d ≡ v
    → lookup k (redact_summary v d)
      ≡ (if string_eq.beq "summary" k then summary_of v else lookup k d)
lookup-redact_summary (some (array parts)) k d h =
    lookup-insert "summary" k (array (summary_parts parts)) d
lookup-redact_summary (some null) k d h = kept-summary k (some null) d h
lookup-redact_summary (some (boolean b)) k d h = kept-summary k (some (boolean b)) d h
lookup-redact_summary (some (number n)) k d h = kept-summary k (some (number n)) d h
lookup-redact_summary (some (text t)) k d h = kept-summary k (some (text t)) d h
lookup-redact_summary (some (object fs)) k d h = kept-summary k (some (object fs)) d h
lookup-redact_summary none k d h = kept-summary k none d h

module _ (str_or_empty : Json → List ℕ) where
  -- Nothing that a reasoning item says is left under the keys that hold its text.
  abbrev pub Bare : Dict String Json → Type 0
  Bare payload =
      (lookup "content" payload ≡ none)
      × (lookup "text" payload ≡ none)
      × (lookup "encrypted_content" payload ≡ none)
      × (bare_summary (lookup "summary" payload) ≡ true)

  -- What redaction leaves under each key.
  pub lookup-redacted_fields :
      (k : String) (d : Dict String Json)
      → lookup k (redacted_fields str_or_empty d) ≡ (
          if string_eq.beq "encrypted_content" k
          then none
          else if string_eq.beq "text" k
          then none
          else if string_eq.beq "content" k
          then none
          else if string_eq.beq "summary" k
          then summary_of (lookup "summary" d)
          else lookup k d)
  lookup-redacted_fields k d =
      let s = redact_summary (lookup "summary" d) d in
      let c = erase "content" s in
      let t = erase "text" c in
      rw
        (
          lookup-erase "encrypted_content" k t,
          lookup-erase "text" k c,
          lookup-erase "content" k s,
          lookup-redact_summary (lookup "summary" d) k d refl,
        )
        refl

  redacted_fields-Bare : (d : Dict String Json) → Bare (redacted_fields str_or_empty d)
  redacted_fields-Bare d = (
    lookup-redacted_fields "content" d,
    lookup-redacted_fields "text" d,
    lookup-redacted_fields "encrypted_content" d,
    ap bare_summary (lookup-redacted_fields "summary" d) ∙ summary_of-bare (lookup "summary" d),
  )

  type-set_role :
      (role : List ℕ) (d : Dict String Json)
      → lookup "type" (set_role str_or_empty role d) ≡ lookup "type" d
  type-set_role [] d = refl
  type-set_role (c ∷ role) d = lookup-insert "role" "type" (text (c ∷ role)) d

  pub type-bound_payload :
      (raw : Dict String Json) (seq : ℕ)
      → lookup "type" (bound_payload str_or_empty raw seq)
        ≡ some (text (text_of str_or_empty (lookup "type" raw)))
  unfolding bound_payload
  type-bound_payload raw seq =
      let t = text (text_of str_or_empty (lookup "type" raw)) in
      let i = text (text_of str_or_empty (lookup "id" raw)) in
      type-set_role (item_role str_or_empty raw)
        (insert "seq" (number (decimal seq)) (insert "id" i (insert "type" t raw)))
      ∙ lookup-insert "seq" "type" (number (decimal seq)) (insert "id" i (insert "type" t raw))
      ∙ lookup-insert "id" "type" i (insert "type" t raw)
      ∙ lookup-insert "type" "type" t raw

  pub redact_item-Bare :
      (d : Dict String Json)
      → text_of str_or_empty (lookup "type" d) ≡ codes "reasoning"
      → Bare (redact_item str_or_empty d)
  unfolding redact_item
  redact_item-Bare d h =
      rw ((text_eq.beq_iff (text_of str_or_empty (lookup "type" d)) (codes "reasoning")).1 h)
        (redacted_fields-Bare d)

  -- Whatever a reasoning item held, it parses to an item of its type, its id and its number without
  -- a content, a text or an encrypted content, and without a text in the parts of a summary list.
  pub parse_item-reasoning :
      (raw : Dict String Json) (seq : ℕ)
      → text_of str_or_empty (lookup "type" raw) ≡ codes "reasoning"
      → (it : NormalizedItem) × (parse_item str_or_empty raw seq ≡ some it)
        × (it.item_type ≡ codes "reasoning")
        × (it.id ≡ text_of str_or_empty (lookup "id" raw))
        × (it.seq ≡ seq)
        × Bare it.payload
  unfolding parse_item get_handler item_registry
  parse_item-reasoning raw seq h =
      let it : NormalizedItem = record {
        id = text_of str_or_empty (lookup "id" raw);
        seq = seq;
        item_type = text_of str_or_empty (lookup "type" raw);
        role = item_role str_or_empty raw;
        payload = redact_item str_or_empty (bound_payload str_or_empty raw seq);
        redacted = true;
      } in
      let t = type-bound_payload raw seq in
      (
        it,
        ap (λ t. parsed_by str_or_empty raw seq (get_handler t)) h,
        h,
        refl,
        refl,
        redact_item-Bare (bound_payload str_or_empty raw seq) (ap (text_of str_or_empty) t ∙ h),
      )
