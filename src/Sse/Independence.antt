-- ===== src/Sse/Independence.antt =====
-- Feeding a stream to the parser of `sse_parser.py` in chunks.
use zhongzhuan.Base.{
  [], ℕ, suc, ◌≡◌, refl, sym, ap, ◌∙◌, true, false, Option, some, List, ◌∷◌, ◌++◌, length,
  if◌then◌else◌, arith, ◌<◌, ◌⊎◌, Option-cases, Bool-cases, inl, inr, append_assoc, append-nil,
}
use zhongzhuan.Sse.{
  Bytes, Codec, Config, Frame, Parser, drain_stripped, strip_bom, drain, feed, feed_all, flush,
  parse, new_parser,
}
use zhongzhuan.Sse.Width.{LinesWithin, within_mono}
use zhongzhuan.Sse.Chunks.{
  drain_lines_append, drain_lines_small, strip_bom-append, lines-within, retained-le,
}

abbrev buffered : Parser → Bytes → Parser
buffered p bytes = record p { buf = p.buf ++ bytes }

-- The buffer without the byte order mark, if that can be told.
abbrev stripped : Parser → Option Bytes
stripped p = if p.bom_done then some p.buf else strip_bom false p.buf

stripped-append :
    (p : Parser) (more : Bytes) {out : Bytes}
    → stripped p ≡ some out
    → stripped (buffered p more) ≡ some (out ++ more)
stripped-append p more h = elim (Bool-cases p.bom_done) [
  | inl e ↦ ground arith
  | inr e ↦ rw e (strip_bom-append p.buf more (rw e at h))
]

strip_bom_short :
    (buf : Bytes) {out : Bytes} → length buf < 3 → strip_bom false buf ≡ some out → out ≡ buf
unfolding strip_bom
strip_bom_short buf h e = ground arith

strip_bom_long :
    (a b d : ℕ) (buf : Bytes) {out : Bytes}
    → strip_bom false (a ∷ b ∷ d ∷ buf) ≡ some out
    → (out ≡ buf) ⊎ (out ≡ a ∷ b ∷ d ∷ buf)
unfolding strip_bom
strip_bom_long a b d buf e = ground arith

strip_bom-within :
    (m : ℕ) (buf more : Bytes) {out : Bytes}
    → strip_bom false buf ≡ some out
    → LinesWithin m 0 (buf ++ more)
    → LinesWithin m 0 (out ++ more)
strip_bom-within m [] more e w = rw (strip_bom_short [] (omega arith) e) w
strip_bom-within m (a ∷ []) more e w = rw (strip_bom_short (a ∷ []) (omega arith) e) w
strip_bom-within m (a ∷ b ∷ []) more e w = rw (strip_bom_short (a ∷ b ∷ []) (omega arith) e) w
strip_bom-within m (a ∷ b ∷ d ∷ buf) more e w = elim (strip_bom_long a b d buf e) [
  | inl bom ↦ rw bom (within_mono m _ 0 (buf ++ more) (omega arith) w.1.1.1)
  | inr same ↦ rw same w
]

within_stripped :
    (p : Parser) (more : Bytes) (m : ℕ) {out : Bytes}
    → stripped p ≡ some out
    → LinesWithin m 0 (p.buf ++ more)
    → LinesWithin m 0 (out ++ more)
within_stripped p more m {out} h w = elim (Bool-cases p.bom_done) [
  | inl e ↦ let q : out ≡ p.buf = ground arith in rw q w
  | inr e ↦ strip_bom-within m p.buf more (rw e at h) w
]

-- What one drain leaves behind.
abbrev after : List Frame × Parser → (Parser → List Frame × Parser) → List Frame × Parser
after (frames, p) next = let (more, p') = next p in (frames ++ more, p')

module _ (codec : Codec) where
  drain_append :
      (p : Parser) (more : Bytes)
      → LinesWithin p.config.max_event_bytes 0 (p.buf ++ more)
      → drain codec false (buffered p more)
        ≡ after (drain codec false p) (λ p'. drain codec false (buffered p' more))
  unfolding drain drain_stripped
  drain_append p more w = elim (Option-cases (stripped p)) [
    | inl wait ↦ rw wait refl
    | inr (out, told) ↦
        let fits =
          retained-le codec p.config p.state out more
            (within_stripped p more p.config.max_event_bytes told w) in
        rw (stripped-append p more told, told)
          (ap (λ r. (r.0, record p { buf = r.2; bom_done = true; state = r.1 }))
            (drain_lines_append codec p.config p.state out more fits))
  ]

  drain_within :
      (p : Parser) (more : Bytes)
      → LinesWithin p.config.max_event_bytes 0 (p.buf ++ more)
      → LinesWithin p.config.max_event_bytes 0 ((drain codec false p).1.buf ++ more)
        × ((drain codec false p).1.config ≡ p.config)
  unfolding drain drain_stripped
  drain_within p more w = elim (Option-cases (stripped p)) [
    | inl wait ↦ rw wait (w, refl)
    | inr (out, told) ↦
        let m = p.config.max_event_bytes in
        let w' = within_stripped p more m told w in
        let fits = retained-le codec p.config p.state out more w' in
        rw told (
          rw (drain_lines_small codec p.config p.state out fits)
              (lines-within codec p.config m (suc (length out)) p.state out more w'),
          refl,
        )
  ]

  -- Feeding two chunks in turn is feeding them as one.
  feed_append :
      (a b : Bytes) (p : Parser)
      → LinesWithin p.config.max_event_bytes 0 (p.buf ++ (a ++ b))
      → feed codec (a ++ b) p ≡ after (feed codec a p) (feed codec b)
  unfolding feed
  feed_append [] b p w = refl
  feed_append (x ∷ a) [] p w =
      rw (append-nil a)
        let r = drain codec false (buffered p (x ∷ a)) in
          ap {B = List Frame × Parser} (λ frames. (frames, r.1)) (sym (append-nil r.0))
  feed_append (x ∷ a) (y ∷ b) p w =
      let regroup = append_assoc p.buf (x ∷ a) (y ∷ b) in
      ap (λ bytes. drain codec false (record p { buf = bytes })) (sym regroup)
      ∙ drain_append (buffered p (x ∷ a)) (y ∷ b) (rw regroup w)

  feed_within :
      (a b : Bytes) (p : Parser)
      → LinesWithin p.config.max_event_bytes 0 (p.buf ++ (a ++ b))
      → LinesWithin p.config.max_event_bytes 0 ((feed codec a p).1.buf ++ b)
        × ((feed codec a p).1.config ≡ p.config)
  unfolding feed
  feed_within [] b p w = (w, refl)
  feed_within (x ∷ a) b p w =
      drain_within (buffered p (x ∷ a)) b (rw (append_assoc p.buf (x ∷ a) b) w)

-- The stream that the chunks make up.
abbrev pub concat : List Bytes → Bytes
concat [] = []
concat (chunk ∷ chunks) = chunk ++ concat chunks

module _ (codec : Codec) where
  pub feed_all-concat :
      (chunks : List Bytes) (p : Parser)
      → LinesWithin p.config.max_event_bytes 0 (p.buf ++ concat chunks)
      → feed_all codec chunks p ≡ feed codec (concat chunks) p
  unfolding feed_all
  feed_all-concat [] p w = unfold feed in refl
  feed_all-concat (chunk ∷ chunks) p w =
      let p1 = (feed codec chunk p).1 in
      let (within, same) = feed_within codec chunk (concat chunks) p w in
      ap (λ (r : List Frame × Parser). ((feed codec chunk p).0 ++ r.0, r.1))
        (feed_all-concat chunks p1 (rw same within))
      ∙ sym (feed_append codec chunk (concat chunks) p w)

  -- However a stream is cut into chunks, feeding them in turn and flushing gives the frames that
  -- parsing the whole stream gives, as long as no line of it outgrows `max_event_bytes`.
  pub feed_all-flush-parse :
      (c : Config) (chunks : List Bytes)
      → LinesWithin c.max_event_bytes 0 (concat chunks)
      → let (frames, p) = feed_all codec chunks (new_parser c) in
        frames ++ (flush codec p).0 ≡ parse codec c (concat chunks)
  unfolding parse new_parser
  feed_all-flush-parse c chunks w =
      ap (λ (r : List Frame × Parser). r.0 ++ (flush codec r.1).0)
        (feed_all-concat chunks (new_parser c) w)
