-- ===== src/Errors/Bounds.antt =====
-- What an error body may let through (`src/zhongzhuan/proxy/protocol/responses_errors.py`).
use zhongzhuan.Base.{
  ℕ, zero, suc, ◌+◌, ◌≤◌, ◌≡◌, ◌⊎◌, refl, ap, ◌∙◌, inl, inr, String, true, false, ◌&&◌, none, some,
  List, [], ◌∷◌, if◌then◌else◌, length, take, length-append, ltb, arith, Bool-cases,
}
use zhongzhuan.Base.Eq.{string_eq}
use zhongzhuan.Base.Dict.{Dict, lookup, insert, lookup-insert}
use zhongzhuan.Base.Text.{codes, strip, rstrip, is_space, cons_unless_blank}
use zhongzhuan.Errors.{collapse_from, truncate, sanitize_message, is_sensitive, redact_headers}

length-take : (n : ℕ) (s : List ℕ) → length (take n s) ≤ n
length-take zero s = omega arith
length-take (suc n) [] = omega arith
length-take (suc n) (c ∷ s) = omega (arith, length-take n s)

length-cons_unless_blank : (c : ℕ) (s : List ℕ) → length (cons_unless_blank c s) ≤ suc (length s)
length-cons_unless_blank c [] = elim (Bool-cases (is_space c)) [
  | inl h ↦ rw h (omega arith)
  | inr h ↦ rw h (omega arith)
]
length-cons_unless_blank c (d ∷ s) = omega arith

length-rstrip : (s : List ℕ) → length (rstrip s) ≤ length s
length-rstrip [] = omega arith
length-rstrip (c ∷ s) = omega (arith, length-cons_unless_blank c (rstrip s), length-rstrip s)

module _ (redact : List ℕ → List ℕ) where
  length-truncate : (n : ℕ) (s : List ℕ) → 1 ≤ n → length (truncate redact n s) ≤ n + 15
  length-truncate n s h = elim (Bool-cases (ltb 0 n && ltb n (length s))) [
    | inl e ↦ rw e (
        omega (
          arith,
          length-append (rstrip (take n s)) (codes "... [truncated]"),
          length-rstrip (take n s),
          length-take n s,
        ))
    | inr e ↦ rw e (ground (arith, e, h))
  ]

  -- However long the text of an upstream is and whatever the redaction leaves of it, a message that is
  -- cut at a positive bound has no more characters than that and the fifteen of the mark.
  pub length-sanitize_message :
      (message : List ℕ) (max_chars : ℕ)
      → 1 ≤ max_chars
      → length (sanitize_message redact message max_chars) ≤ max_chars + 15
  unfolding sanitize_message
  length-sanitize_message message max_chars h =
      length-truncate max_chars (strip (collapse_from false (redact message))) h

  -- The value of a header, if it has one, is masked.
  abbrev pub Masked : String → Dict String (List ℕ) → Type 0
  Masked name out = (lookup name out ≡ none) ⊎ (lookup name out ≡ some (codes "[REDACTED]"))

  Masked-insert :
      (lower : String → String) (name key : String) (value : List ℕ) (out : Dict String (List ℕ))
      → is_sensitive lower name ≡ true
      → Masked name out
      → Masked name (insert key (if is_sensitive lower key then codes "[REDACTED]" else value) out)
  Masked-insert lower name key value out h m = elim (Bool-cases (string_eq.beq key name)) [
    | inl e ↦
        let same = ap (is_sensitive lower) ((string_eq.beq_iff key name).0 e) ∙ h in
        inr (
          rw
            (
              lookup-insert key name (if is_sensitive lower key then codes "[REDACTED]" else value)
                  out,
              e,
              same,
            )
            refl)
    | inr e ↦
        rw
          (
            lookup-insert key name (if is_sensitive lower key then codes "[REDACTED]" else value)
                out,
            e,
          )
          m
  ]

  -- No header whose name is sensitive keeps its value, whatever else the headers hold.
  pub redact_headers-Masked :
      (lower : String → String) (name : String) (headers out : Dict String (List ℕ))
      → is_sensitive lower name ≡ true
      → Masked name out
      → Masked name (redact_headers redact lower headers out)
  unfolding redact_headers
  redact_headers-Masked lower name [] out h m = m
  redact_headers-Masked lower name ((key, value) ∷ headers) out h m =
      redact_headers-Masked lower name headers
        (insert key (if is_sensitive lower key then codes "[REDACTED]" else redact value) out) h
        (Masked-insert lower name key (redact value) out h m)
