-- ===== src/Sse.antt =====
-- The byte-level SSE parser, `src/zhongzhuan/proxy/protocol/sse_parser.py`.
-- Bytes and code points are numbers. Python's text library is the parameter `Codec`. The digit limit
-- that newer interpreters put on `int(text)` is not modelled.
pub mod Parts
pub mod Lines
pub mod Width
pub mod Chunks
pub mod Independence
pub mod Bounds
pub mod RoundTrip
pub use Parts.{
  Codec, Reason, Frame, Config, State, Parser, invalid_utf8, bad_retry, nul_in_id, oversize,
  bad_json, Bytes, Text, reason_code, reason_beq, reason_eq, empty_state, note_malformed,
  reset_block, list_eq, elem, has, strip_space, field_value, is_digit, all_digits, is_number,
  digits_value, is_some, has_parts, join_lines, reason_beq_iff,
}
unfoldable pub use Parts.{split_colon, new_parser, apply_field}
use zhongzhuan.Base.{
  [], ℕ, zero, suc, ◌+◌, ◌-◌, ◌*◌, ◌<◌, ◌≡◌, Bool, true, false, ◌&&◌, ◌||◌, not, Option, none, some,
  List, ◌∷◌, ◌++◌, ltb, leb, ◌==◌, if◌then◌else◌, length, drop, arith, ◌↔◌,
}
use zhongzhuan.Base.Eq.{Eq}
use zhongzhuan.Base.Dict.{Dict, lookup_or, insert}
use zhongzhuan.Base.Text.{codes, starts_with}

module _ (codec : Codec) where
  -- `_decode`
  unfoldable pub decode_line : Bytes → State → Text × State
  decode_line raw s = elim (codec.decode raw) [
    | some t ↦ (t, s)
    | none ↦ (codec.decode_replace raw, note_malformed invalid_utf8 s)
  ]

  -- `_parse_field`, for a line that is not empty.
  unfoldable pub parse_field : Bytes → State → State
  parse_field [] s = s
  parse_field (b ∷ line) s =
      let (text, s') = decode_line (b ∷ line) s in
      let (name, value) = split_colon text in
      if b == b':' then s else apply_field name (field_value value) s'

  -- `_check_json`
  unfoldable pub check_json : Config → Text → State → State
  check_json c t s =
      let probe = codec.strip t in
      if list_eq probe [] || elem probe c.json_exempt || codec.is_json probe
      then s
      else note_malformed bad_json s

  -- `_dispatch`
  unfoldable pub dispatch : Config → State → Option Frame × State
  dispatch c s =
      let has_meta = is_some s.event || is_some s.id || is_some s.retry in
      let content = join_lines s.data_parts in
      let frame : Frame = record {
        event = s.event;
        content = content;
        id = s.id;
        retry = s.retry;
        raw = s.raw_block;
      } in
      if not (has_parts s.data_parts) && not (c.emit_dataless && has_meta)
      then (none, reset_block s)
      else (some frame, reset_block (if c.validate_json then check_json c content s else s))

  -- `_consume_line`
  unfoldable pub consume_line : Config → Bytes → Bytes → State → Option Frame × State
  consume_line c line raw_line s =
      let s' = record s { raw_block = s.raw_block ++ raw_line } in
      if s.skip_block
      then (none, if list_eq line [] then record (reset_block s) { skip_block = false } else s)
      else if list_eq line []
      then dispatch c s'
      else if ltb c.max_event_bytes (length s'.raw_block)
      then (none, record (reset_block (note_malformed oversize s')) { skip_block = true })
      else (none, parse_field line s')

-- A line, the same with its terminator, and what follows it.
abbrev pub Cut : Type 0
Cut = Bytes × Bytes × Bytes

abbrev pub push_byte : ℕ → Option Cut → Option Cut
push_byte b none = none
push_byte b (some (line, raw_line, rest)) = some (b ∷ line, b ∷ raw_line, rest)

-- After a CR: an LF belongs to it, and at the end of the buffer only `final` decides.
abbrev pub cut_after_cr : Bool → Bytes → Option Cut
cut_after_cr final [] = if final then some ([], b'\r' ∷ [], []) else none
cut_after_cr final (c ∷ rest) =
    if c == b'\n' then some ([], b'\r' ∷ b'\n' ∷ [], rest) else some ([], b'\r' ∷ [], c ∷ rest)

-- One round of the loop of `_drain`: the line up to the first LF, CR or CRLF.
unfoldable pub cut_line : Bool → Bytes → Option Cut
cut_line final [] = none
cut_line final (b ∷ rest) =
    let more = push_byte b (cut_line final rest) in
    if b == b'\n'
    then some ([], b'\n' ∷ [], rest)
    else if b == b'\r'
    then cut_after_cr final rest
    else more

abbrev pub cons_frame : Option Frame → List Frame → List Frame
cons_frame none fs = fs
cons_frame (some f) fs = f ∷ fs

-- The UTF-8 byte order mark.
abbrev pub utf8_bom : Bytes
utf8_bom = 0xef ∷ 0xbb ∷ 0xbf ∷ []

-- `_strip_bom` where `_bom_done` is not set: the buffer without the mark, or `none` while too few
-- bytes are there to tell.
unfoldable pub strip_bom : Bool → Bytes → Option Bytes
strip_bom final buf =
    if leb 3 (length buf)
    then some (if starts_with utf8_bom buf then drop 3 buf else buf)
    else if final || not (starts_with buf utf8_bom)
    then some buf
    else none

module _ (codec : Codec) where
  -- The loop of `_drain`, on as much fuel as there are bytes: each round takes one or more.
  unfoldable pub lines : ℕ → Bool → Config → State → Bytes → List Frame × State × Bytes
  lines zero final c s buf = ([], s, buf)
  lines (suc fuel) final c s buf = elim (cut_line final buf) [
    | none ↦ ([], s, buf)
    | some (line, raw_line, rest) ↦
        let (frame, s1) = consume_line codec c line raw_line s in
        let (frames, s2, left) = lines fuel final c s1 rest in (cons_frame frame frames, s2, left)
  ]

  -- At the end of the stream the rest of the buffer is a line.
  last_line : Bool → Config → State → Bytes → List Frame × State × Bytes
  last_line false c s left = ([], s, left)
  last_line true c s [] = ([], s, [])
  last_line true c s (b ∷ left) =
      let (frame, s') = consume_line codec c (b ∷ left) (b ∷ left) s in
      (cons_frame frame [], s', [])

  -- A line that outgrows the limit with no end in sight is dropped, and the parser skips.
  unfoldable pub guard_size : Config → State → Bytes → State × Bytes
  guard_size c s left =
      if ltb c.max_event_bytes (length left)
      then (
        if s.skip_block
            then s
            else record (reset_block (note_malformed oversize s)) { skip_block = true },
        [],
      )
      else (s, left)

  -- `_drain` once the byte order mark is dealt with.
  unfoldable pub drain_lines : Bool → Config → State → Bytes → List Frame × State × Bytes
  unfolding last_line guard_size
  drain_lines final c s buf =
      let (frames, s1, left1) = lines (suc (length buf)) final c s buf in
      let (last, s2, left2) = last_line final c s1 left1 in
      let (s3, left3) = guard_size c s2 left2 in (frames ++ last, s3, left3)

  drain_stripped : Bool → Parser → Option Bytes → List Frame × Parser
  drain_stripped final p none = ([], p)
  drain_stripped final p (some buf) =
      let (frames, s, left) = drain_lines final p.config p.state buf in
      (frames, record p { buf = left; bom_done = true; state = s })

  -- `_drain`
  unfoldable pub drain : Bool → Parser → List Frame × Parser
  unfolding drain_stripped
  drain final p = drain_stripped final p (if p.bom_done then some p.buf else strip_bom final p.buf)

  unfoldable pub feed : Bytes → Parser → List Frame × Parser
  unfolding drain
  feed [] p = ([], p)
  feed (b ∷ chunk) p = drain false (record p { buf = p.buf ++ b ∷ chunk })

  unfoldable pub flush : Parser → List Frame × Parser
  flush p =
      let (frames, p1) = drain true p in
      let (residual, s) = dispatch codec p1.config p1.state in
      let done = record (reset_block (if p1.state.skip_block then p1.state else s)) {
        skip_block = false;
      } in
      (
        frames ++ (if p1.state.skip_block then [] else cons_frame residual []),
        record p1 { buf = []; bom_done = true; state = done },
      )

  -- `SSEParser.parse`
  unfoldable pub parse : Config → Bytes → List Frame
  unfolding feed flush new_parser
  parse c stream =
      let (frames, p) = feed stream (new_parser c) in let (rest, p') = flush p in frames ++ rest

  -- `feed` for each chunk, then `flush`.
  unfoldable pub feed_all : List Bytes → Parser → List Frame × Parser
  feed_all [] p = ([], p)
  feed_all (chunk ∷ chunks) p =
      let (frames, p1) = feed chunk p in let (more, p2) = feed_all chunks p1 in (frames ++ more, p2)

-- `reset`
unfoldable pub reset : Parser → Parser
reset p = record p { buf = []; bom_done = false; state = empty_state }

-- `pending_bytes`
unfoldable pub pending_bytes : Parser → ℕ
pending_bytes p = length p.buf + length p.state.raw_block

-- `is_done_sentinel`
unfoldable pub is_done_sentinel : Codec → Frame → Bool
is_done_sentinel codec f = list_eq (codec.strip f.content) (codes "[DONE]")
