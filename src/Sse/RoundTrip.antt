-- ===== src/Sse/RoundTrip.antt =====
-- Frames that are written as an SSE stream come back from the parser of `sse_parser.py`.
use zhongzhuan.Base.{
  [], ℕ, zero, suc, ◌≤◌, ◌<◌, ◌≡◌, ◌≢◌, refl, ap, ◌∙◌, Bool, true, false, none, some, List, ◌∷◌,
  ◌++◌, map, length, arith, All, append_assoc, append-nil, length-append, ltb,
}
use zhongzhuan.Base.Text.{codes}
use zhongzhuan.Sse.{
  Bytes, Text, Codec, Config, State, Frame, Parser, cut_line, split_colon, apply_field, decode_line,
  parse_field, dispatch, consume_line, lines, last_line, guard_size, drain_lines, drain_stripped,
  drain, feed, feed_all, join_lines, reset_block,
}
use zhongzhuan.Sse.Chunks.{lines_step, lines_stop}

-- A line's content holds no line terminator.
abbrev pub NoBreak : Bytes → Type 0
NoBreak = All (λ b. (b ≢ b'\n') × (b ≢ b'\r'))

-- A data line: its bytes, and the text that they decode to.
abbrev pub DataLine : Type 0
DataLine = Bytes × Text

abbrev pub IsData : Codec → DataLine → Type 0
IsData codec (bytes, text) = NoBreak bytes × (codec.decode bytes ≡ some text)

-- `data: ...`, for each line, and an empty line.
abbrev pub encode : List DataLine → Bytes
encode [] = b'\n' ∷ []
encode ((bytes, text) ∷ ls) = codes "data: " ++ bytes ++ b'\n' ∷ encode ls

cut_line-NoBreak :
    (final : Bool) (l rest : Bytes)
    → NoBreak l
    → cut_line final (l ++ b'\n' ∷ rest) ≡ some (l, l ++ b'\n' ∷ [], rest)
unfolding cut_line
cut_line-NoBreak final [] rest h = refl
cut_line-NoBreak final (b ∷ l) rest h = ground (arith, cut_line-NoBreak final l rest h.1, h.0)

-- The frame that a block gives at the empty line.
abbrev pub frame_of : State → Bytes → List Text → Frame
frame_of s raw texts = record {
  event = s.event;
  content = join_lines texts;
  id = s.id;
  retry = s.retry;
  raw = raw;
}

data-NoBreak : (bytes : Bytes) → NoBreak bytes → NoBreak (codes "data: " ++ bytes)
data-NoBreak bytes h = ground (arith)

regroup : (a line rest : Bytes) → (a ++ (line ++ b'\n' ∷ [])) ++ rest ≡ a ++ (line ++ b'\n' ∷ rest)
regroup a line rest = simp append_assoc

abbrev pub texts : List DataLine → List Text
texts [] = []
texts ((bytes, text) ∷ ls) = text ∷ texts ls

module _ (codec : Codec) where
  decode_data :
      (bytes : Bytes) (text : Text)
      → codec.decode bytes ≡ some text
      → codec.decode (codes "data: " ++ bytes) ≡ some (codes "data: " ++ text)
  decode_data bytes text h = codec.decode_ascii 100 _ _ (omega arith) (
      codec.decode_ascii 97 _ _ (omega arith) (
        codec.decode_ascii 116 _ _ (omega arith) (
          codec.decode_ascii 97 _ _ (omega arith)
            (codec.decode_ascii 58 _ _ (omega arith) (codec.decode_ascii 32 _ _ (omega arith) h)))))

  decode_line_ok :
      (raw : Bytes) (s : State) {text : Text}
      → codec.decode raw ≡ some text
      → decode_line codec raw s ≡ (text, s)
  unfolding decode_line
  decode_line_ok raw s h = rw (h, decode_line)

  parse_field-data :
      (bytes : Bytes) (s : State) (text : Text)
      → codec.decode bytes ≡ some text
      → parse_field codec (codes "data: " ++ bytes) s
        ≡ record s { data_parts = s.data_parts ++ text ∷ [] }
  unfolding parse_field split_colon apply_field
  parse_field-data bytes s text h =
      rw (decode_line_ok (codes "data: " ++ bytes) s (decode_data bytes text h))

  data_step :
      (c : Config) (s : State) (bytes raw : Bytes) (text : Text)
      → codec.decode bytes ≡ some text
      → s.skip_block ≡ false
      → length (s.raw_block ++ raw) ≤ c.max_event_bytes
      → consume_line codec c (codes "data: " ++ bytes) raw s ≡ (
        none,
        record s { raw_block = s.raw_block ++ raw; data_parts = s.data_parts ++ text ∷ [] },
      )
  unfolding consume_line
  data_step c s bytes raw text d k h =
      let small : ltb c.max_event_bytes (length (s.raw_block ++ raw)) ≡ false = ground arith in
      let open_block = record s { raw_block = s.raw_block ++ raw } in
      ground (arith, k, small, parse_field-data bytes open_block text d)

  blank_step :
      (c : Config) (s : State)
      → c.validate_json ≡ false
      → s.skip_block ≡ false
      → s.data_parts ≢ []
      → consume_line codec c [] (b'\n' ∷ []) s
        ≡ (some (frame_of s (s.raw_block ++ b'\n' ∷ []) s.data_parts), reset_block s)
  unfolding consume_line dispatch
  blank_step c s v k d = ground arith

  encoded_lines :
      (c : Config) (ls : List DataLine) (n : ℕ) (s : State)
      → length (encode ls) < n
      → c.validate_json ≡ false
      → s.skip_block ≡ false
      → s.data_parts ++ texts ls ≢ []
      → All (IsData codec) ls
      → length (s.raw_block ++ encode ls) ≤ c.max_event_bytes
      → lines codec n false c s (encode ls)
        ≡ (frame_of s (s.raw_block ++ encode ls) (s.data_parts ++ texts ls) ∷ [], reset_block s, [])
  encoded_lines c ls zero s h v k d a small = absurd (omega arith)
  encoded_lines c [] (suc n) s h v k d a small =
      let e : cut_line false (encode []) ≡ some ([], b'\n' ∷ [], []) = unfold cut_line in refl in
      let blank = blank_step c s v k (rw (append-nil s.data_parts) at d) in
      lines_step codec c n false s (encode []) ([], b'\n' ∷ [], []) e
      ∙ rw (blank, append-nil s.data_parts)
          (ap
            (λ (r : List Frame × State × Bytes).
              (frame_of s (s.raw_block ++ b'\n' ∷ []) s.data_parts ∷ r.0, r.1, r.2))
            (lines_stop codec c n false (reset_block s) [] (unfold cut_line in refl)))
  encoded_lines c ((bytes, text) ∷ ls) (suc n) s h v k d a small =
      let line = codes "data: " ++ bytes in
      let raw = line ++ b'\n' ∷ [] in
      let s' = record s {
        raw_block = s.raw_block ++ raw;
        data_parts = s.data_parts ++ text ∷ [];
      } in
      let e = cut_line-NoBreak false line (encode ls) (data-NoBreak bytes a.0.0) in
      let joined = regroup s.raw_block line (encode ls) in
      let parts = append_assoc s.data_parts (text ∷ []) (texts ls) in
      lines_step codec c n false s (encode ((bytes, text) ∷ ls)) (line, raw, encode ls) e
      ∙ rw
          (data_step c s bytes raw text a.0.1 k
            (omega (arith, ap length joined, length-append (s.raw_block ++ raw) (encode ls))))
          (encoded_lines c ls n s' (omega (arith, length-append line (b'\n' ∷ encode ls))) v k
              (rw parts d) a.1 (rw joined small)
            ∙ rw (joined, parts))

-- A parser between two events, as `flush` and an empty line leave it.
abbrev pub ready : Parser → Parser
ready p = record p {
  buf = [];
  bom_done = true;
  state = record (reset_block p.state) { skip_block = false };
}

-- The frame that a list of data lines stands for.
abbrev pub data_frame : List DataLine → Frame
data_frame ls = record {
  event = none;
  content = join_lines (texts ls);
  id = none;
  retry = none;
  raw = encode ls;
}

guard_size_nil : (codec : Codec) (c : Config) (s : State) → guard_size codec c s [] ≡ (s, [])
unfolding guard_size
guard_size_nil codec c s = ground arith

-- An event that is written as `data:` lines and an empty line is parsed as one frame: its content is
-- the lines' texts joined by line feeds, its raw bytes are those that were written, and the parser
-- is ready for the next. The lines hold no CR or LF and decode, and they fit the size limit.
pub feed-encode :
    (codec : Codec) (p : Parser) (ls : List DataLine)
    → p.config.validate_json ≡ false
    → ls ≢ []
    → All (IsData codec) ls
    → length (encode ls) ≤ p.config.max_event_bytes
    → feed codec (encode ls) (ready p) ≡ (data_frame ls ∷ [], ready p)
unfolding feed drain drain_stripped drain_lines last_line
feed-encode codec p [] v ne a small = absurd (ne refl)
feed-encode codec p ((bytes, text) ∷ ls) v ne a small =
    let all = encode ((bytes, text) ∷ ls) in
    let s = (ready p).state in
    let e =
      encoded_lines codec p.config ((bytes, text) ∷ ls) (suc (length all)) s (omega arith) v refl
        (λ h. cc) a small in
    rw e (rw (guard_size_nil codec p.config s))

-- Events that are written as `data:` lines and an empty line, each fed as one chunk, are parsed as one
-- frame each: its content is the lines' texts joined by line feeds, its raw bytes are those that were
-- written, and the parser, which is ready for an event at the start, is ready for the next. No JSON is
-- checked; each event has a line, its lines hold no CR or LF and decode, and it fits the size limit.
pub feed_all-encode :
    (codec : Codec) (p : Parser) (events : List (List DataLine))
    → p.config.validate_json ≡ false
    → All
        (λ ls. (ls ≢ []) × All (IsData codec) ls × (length (encode ls) ≤ p.config.max_event_bytes))
        events
    → feed_all codec (map encode events) (ready p) ≡ (map data_frame events, ready p)
unfolding feed_all
feed_all-encode codec p [] v a = refl
feed_all-encode codec p (ls ∷ events) v a =
    rw (feed-encode codec p ls v a.0.0 a.0.1 a.0.2) (rw (feed_all-encode codec p events v a.1))
