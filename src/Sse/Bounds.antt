-- ===== src/Sse/Bounds.antt =====
-- What the parser of `sse_parser.py` keeps at all times: bounded memory, and honest counts.
use zhongzhuan.Base.{
  [], ℕ, zero, suc, ◌+◌, ◌≤◌, max, ◌≡◌, refl, Bool, true, false, Option, none, some, List, ◌∷◌,
  ◌++◌, length, arith, Option-cases, inl, inr, if◌then◌else◌,
}
use zhongzhuan.Base.Dict.{Dict, lookup_or, insert}
use zhongzhuan.Sse.{
  Bytes, Text, Codec, Config, Reason, reason_eq, State, Parser, note_malformed, reset_block,
  oversize, apply_field, decode_line, parse_field, check_json, dispatch, consume_line, lines,
  last_line, guard_size, drain_lines, drain_stripped, strip_bom, drain, split_colon, field_value,
  join_lines, cut_line, feed, feed_all,
}

-- The sum of the counts by reason.
abbrev pub total_count : Dict Reason ℕ → ℕ
total_count [] = 0
total_count ((r, n) ∷ d) = n + total_count d

total_count-insert :
    (r : Reason) (d : Dict Reason ℕ)
    → total_count (insert r (lookup_or r 0 d + 1) d) ≡ total_count d + 1
total_count-insert r [] = refl
total_count-insert r ((q, n) ∷ d) = ground (arith, total_count-insert r d)

-- The collected bytes are within the limit, and `malformed_count` is the sum of its buckets.
pub record IsBounded (c : Config) (s : State) : Type 0 where
  pub raw_small : length s.raw_block ≤ c.max_event_bytes
  pub counted : total_count s.reasons ≡ s.malformed

module _ (c : Config) where
  note_malformed-IsBounded :
      (r : Reason) (s : State) → IsBounded c s → IsBounded c (note_malformed r s)
  note_malformed-IsBounded r s v = record {
    raw_small = v.raw_small;
    counted = omega (arith, total_count-insert r s.reasons, v.counted);
  }

  reset_block-IsBounded :
      (s : State) → total_count s.reasons ≡ s.malformed → IsBounded c (reset_block s)
  reset_block-IsBounded s h = record { raw_small = omega arith; counted = h }

  apply_field-IsBounded :
      (name value : Text) (s : State) → IsBounded c s → IsBounded c (apply_field name value s)
  unfolding apply_field
  apply_field-IsBounded name value s v = ground (
    arith,
    note_malformed-IsBounded Reason.nul_in_id s v,
    note_malformed-IsBounded Reason.bad_retry s v,
  )

  module _ (codec : Codec) where
    decode_line-IsBounded :
        (raw : Bytes) (s : State) → IsBounded c s → IsBounded c (decode_line codec raw s).1
    unfolding decode_line
    decode_line-IsBounded raw s v = ground (arith, note_malformed-IsBounded Reason.invalid_utf8 s v)

    parse_field-IsBounded :
        (line : Bytes) (s : State) → IsBounded c s → IsBounded c (parse_field codec line s)
    unfolding parse_field
    parse_field-IsBounded [] s v = v
    parse_field-IsBounded (b ∷ line) s v =
        let (text, s') = decode_line codec (b ∷ line) s in
        let (name, value) = split_colon text in
        ground (
          arith,
          apply_field-IsBounded name (field_value value) s' (decode_line-IsBounded (b ∷ line) s v),
        )

    check_json_counted :
        (t : Text) (s : State)
        → total_count s.reasons ≡ s.malformed
        → total_count (check_json codec c t s).reasons ≡ (check_json codec c t s).malformed
    unfolding check_json
    check_json_counted t s h = ground (arith, total_count-insert Reason.bad_json s.reasons)

    dispatch-IsBounded :
        (s : State) → total_count s.reasons ≡ s.malformed → IsBounded c (dispatch codec c s).1
    unfolding dispatch
    dispatch-IsBounded s h = ground (arith, check_json_counted (join_lines s.data_parts) s h)

    consume_line-IsBounded :
        (line raw : Bytes) (s : State)
        → IsBounded c s
        → IsBounded c (consume_line codec c line raw s).1
    unfolding consume_line
    consume_line-IsBounded line raw s v =
        let s' = record s { raw_block = s.raw_block ++ raw } in
        ground (
          arith,
          v.raw_small,
          v.counted,
          dispatch-IsBounded s' v.counted,
          note_malformed-IsBounded oversize s v,
          λ (h : length s'.raw_block ≤ c.max_event_bytes).
              parse_field-IsBounded line s' (record { raw_small = h; counted = v.counted }),
        )

    lines-IsBounded :
        (n : ℕ) (final : Bool) (s : State) (buf : Bytes)
        → IsBounded c s
        → IsBounded c (lines codec n final c s buf).1
    unfolding lines
    lines-IsBounded zero final s buf v = v
    lines-IsBounded (suc n) final s buf v = elim (Option-cases (cut_line final buf)) [
      | inl e ↦ rw (e, lines) v
      | inr (cut, e) ↦
          rw (e, lines) (lines-IsBounded n final _ cut.2 (consume_line-IsBounded cut.0 cut.1 s v))
    ]

    last_line-IsBounded :
        (final : Bool) (s : State) (left : Bytes)
        → IsBounded c s
        → IsBounded c (last_line codec final c s left).1
    unfolding last_line
    last_line-IsBounded false s left v = v
    last_line-IsBounded true s [] v = v
    last_line-IsBounded true s (b ∷ left) v = consume_line-IsBounded (b ∷ left) (b ∷ left) s v

    guard_size-IsBounded :
        (s : State) (left : Bytes)
        → IsBounded c s
        → IsBounded c (guard_size codec c s left).0
          × (length (guard_size codec c s left).1 ≤ c.max_event_bytes)
    unfolding guard_size
    guard_size-IsBounded s left v = ground (arith, total_count-insert oversize s.reasons)

    drain_lines-IsBounded :
        (final : Bool) (s : State) (buf : Bytes)
        → IsBounded c s
        → let (frames, s', left) = drain_lines codec final c s buf in
          IsBounded c s' × (length left ≤ c.max_event_bytes)
    drain_lines-IsBounded final s buf v =
        unfold drain_lines in
        guard_size-IsBounded _ _
          (last_line-IsBounded final _ _ (lines-IsBounded (suc (length buf)) final s buf v))

-- The retained bytes too; two of them may be the start of a byte order mark.
pub record IsValid (p : Parser) : Type 0 where
  pub bounded : IsBounded p.config p.state
  pub buf_small : length p.buf ≤ max p.config.max_event_bytes 2

drain_stripped-IsValid :
    (codec : Codec) (final : Bool) (p : Parser) (out : Option Bytes)
    → IsBounded p.config p.state
    → (out ≡ none → length p.buf ≤ 2)
    → IsValid (drain_stripped codec final p out).1
unfolding drain_stripped
drain_stripped-IsValid codec final p none v h = record {
  bounded = v;
  buf_small = omega (arith, h refl);
}
drain_stripped-IsValid codec final p (some buf) v h =
    let (v', small) = drain_lines-IsBounded p.config codec final p.state buf v in
    record { bounded = v'; buf_small = omega arith }

waits_short :
    (final done : Bool) (buf : Bytes)
    → (if done then some buf else strip_bom final buf) ≡ none
    → length buf ≤ 2
unfolding strip_bom
waits_short final done buf h = ground arith

pub drain-IsValid :
    (codec : Codec) (final : Bool) (p : Parser)
    → IsBounded p.config p.state
    → IsValid (drain codec final p).1
unfolding drain
drain-IsValid codec final p v =
    drain_stripped-IsValid codec final p _ v (waits_short final p.bom_done p.buf)

feed-IsValid :
    (codec : Codec) (chunk : Bytes) (p : Parser) → IsValid p → IsValid (feed codec chunk p).1
unfolding feed
feed-IsValid codec [] p v = v
feed-IsValid codec (b ∷ chunk) p v =
    drain-IsValid codec false (record p { buf = p.buf ++ b ∷ chunk }) v.bounded

-- Whatever chunks are fed, a parser's collected event and its buffer stay within `max_event_bytes`
-- (or the two bytes of an unfinished byte order mark), and its count of malformed frames stays the
-- sum of the counts by reason.
pub feed_all-IsValid :
    (codec : Codec) (chunks : List Bytes) (p : Parser)
    → IsValid p
    → IsValid (feed_all codec chunks p).1
unfolding feed_all
feed_all-IsValid codec [] p v = v
feed_all-IsValid codec (chunk ∷ chunks) p v =
    feed_all-IsValid codec chunks (feed codec chunk p).1 (feed-IsValid codec chunk p v)
