-- ===== src/Sse/Chunks.antt =====
-- The parser of `sse_parser.py` does not depend on how the stream is cut into chunks.
use zhongzhuan.Base.{
  [], ℕ, zero, suc, ◌+◌, ◌≤◌, ◌<◌, ◌≡◌, refl, sym, ap, ◌∙◌, Bool, false, Option, none, some, List,
  ◌∷◌, ◌++◌, length, arith, Option-cases, inl, inr, append_assoc, append-nil, length-append,
}
use zhongzhuan.Sse.{
  Bytes, Cut, cut_line, Codec, Config, State, Frame, consume_line, cons_frame, lines, drain_lines,
  guard_size, strip_bom,
}
use zhongzhuan.Sse.Width.{LinesWithin, within_prefix, within_cut, within_uncut}
use zhongzhuan.Sse.Lines.{cut_line-append, cut_line-shorter}

abbrev pub Lined : Type 0
Lined = List Frame × State × Bytes

-- Frames that came before.
abbrev pub prepend : List Frame → Lined → Lined
prepend frames (more, s, left) = (frames ++ more, s, left)

abbrev cons_lined : Option Frame → Lined → Lined
cons_lined f (frames, s, left) = (cons_frame f frames, s, left)

cons-prepend :
    (f : Option Frame) (frames : List Frame) (r : Lined)
    → cons_lined f (prepend frames r) ≡ prepend (cons_frame f frames) r
cons-prepend none frames r = refl
cons-prepend (some f) frames r = refl

module _ (codec : Codec) (c : Config) where
  pub lines_stop :
      (n : ℕ) (final : Bool) (s : State) (buf : Bytes)
      → cut_line final buf ≡ none
      → lines codec n final c s buf ≡ ([], s, buf)
  unfolding lines
  lines_stop zero final s buf e = refl
  lines_stop (suc n) final s buf e = rw (e, lines)

  pub lines_step :
      (n : ℕ) (final : Bool) (s : State) (buf : Bytes) (cut : Cut)
      → cut_line final buf ≡ some cut
      → let (f, s1) = consume_line codec c cut.0 cut.1 s in
        lines codec (suc n) final c s buf ≡ cons_lined f (lines codec n final c s1 cut.2)
  unfolding lines
  lines_step n final s buf cut e = rw (e, lines)

  -- Fuel above the number of bytes is enough.
  lines_fuel :
      (n m : ℕ) (final : Bool) (s : State) (buf : Bytes)
      → length buf < n
      → length buf < m
      → lines codec n final c s buf ≡ lines codec m final c s buf
  lines_fuel zero m final s buf h k = absurd (omega arith)
  lines_fuel (suc n) zero final s buf h k = absurd (omega arith)
  lines_fuel (suc n) (suc m) final s buf h k = elim (Option-cases (cut_line final buf)) [
    | inl e ↦ lines_stop (suc n) final s buf e ∙ sym (lines_stop (suc m) final s buf e)
    | inr (cut, e) ↦
        let s1 = (consume_line codec c cut.0 cut.1 s).1 in
        let f = (consume_line codec c cut.0 cut.1 s).0 in
        lines_step n final s buf cut e
        ∙ ap (cons_lined f) (
            lines_fuel n m final s1 cut.2 (omega (arith, cut_line-shorter final buf e))
              (omega (arith, cut_line-shorter final buf e)))
        ∙ sym (lines_step m final s buf cut e)
  ]

  -- Cutting a prefix of the bytes first makes no difference.
  lines_append :
      (n k m : ℕ) (s : State) (buf more : Bytes)
      → length buf < n
      → length buf + length more < k
      → length buf + length more < m
      → let (frames, s1, left) = lines codec n false c s buf in
        lines codec k false c s (buf ++ more)
        ≡ prepend frames (lines codec m false c s1 (left ++ more))
  lines_append zero k m s buf more h hk hm = absurd (omega arith)
  lines_append (suc n) zero m s buf more h hk hm = absurd (omega arith)
  lines_append (suc n) (suc k) m s buf more h hk hm = elim (Option-cases (cut_line false buf)) [
    | inl e ↦ rw (lines_stop (suc n) false s buf e) (
        lines_fuel (suc k) m false s (buf ++ more) (omega (arith, length-append buf more))
          (omega (arith, length-append buf more)))
    | inr (cut, e) ↦
        let s1 = (consume_line codec c cut.0 cut.1 s).1 in
        let f = (consume_line codec c cut.0 cut.1 s).0 in
        let less = cut_line-shorter false buf e in
        rw (lines_step n false s buf cut e) (
          lines_step k false s (buf ++ more) _ (cut_line-append buf more e)
          ∙ ap (cons_lined f)
              (lines_append n k m s1 cut.2 more (omega arith) (omega arith) (omega arith))
          ∙ cons-prepend f _ _)
  ]

  -- The loop takes no bytes that it was not given.
  lines-le :
      (n : ℕ) (final : Bool) (s : State) (buf : Bytes)
      → length (lines codec n final c s buf).2 ≤ length buf
  lines-le zero final s buf = unfold lines in omega arith
  lines-le (suc n) final s buf = elim (Option-cases (cut_line final buf)) [
    | inl e ↦ rw (lines_stop (suc n) final s buf e) (omega arith)
    | inr (cut, e) ↦
        let s1 = (consume_line codec c cut.0 cut.1 s).1 in
        rw (lines_step n final s buf cut e)
          (omega (arith, lines-le n final s1 cut.2, cut_line-shorter final buf e))
  ]

  -- What is retained of a buffer that is not the stream's last.
  pub retained : State → Bytes → Bytes
  retained s buf = (lines codec (suc (length buf)) false c s buf).2

  guarded : Lined → Lined
  guarded (frames, s, left) =
      let (s', left') = guard_size codec c s left in (frames ++ [], s', left')

  guarded-prepend :
      (frames : List Frame) (r : Lined) → guarded (prepend frames r) ≡ prepend frames (guarded r)
  unfolding guarded
  guarded-prepend frames (more, s, left) = rw (append_assoc frames more [])

  guarded_small : (r : Lined) → length r.2 ≤ c.max_event_bytes → guarded r ≡ r
  unfolding guarded guard_size
  guarded_small (frames, s, left) h = rw (append-nil frames) (ground arith)

  drain_lines-guarded :
      (s : State) (buf : Bytes)
      → drain_lines codec false c s buf ≡ guarded (lines codec (suc (length buf)) false c s buf)
  unfolding drain_lines guarded
  drain_lines-guarded s buf = refl

  pub drain_lines_small :
      (s : State) (buf : Bytes)
      → length (retained s buf) ≤ c.max_event_bytes
      → drain_lines codec false c s buf ≡ lines codec (suc (length buf)) false c s buf
  unfolding retained
  drain_lines_small s buf h =
      drain_lines-guarded s buf ∙ guarded_small (lines codec (suc (length buf)) false c s buf) h

  pub drain_lines_append :
      (s : State) (buf more : Bytes)
      → length (retained s buf) ≤ c.max_event_bytes
      → let (frames, s1, left) = drain_lines codec false c s buf in
        drain_lines codec false c s (buf ++ more)
        ≡ prepend frames (drain_lines codec false c s1 (left ++ more))
  drain_lines_append s buf more h =
      let (frames, s1, left) = lines codec (suc (length buf)) false c s buf in
      rw (drain_lines_small s buf h) (
        drain_lines-guarded s (buf ++ more)
        ∙ ap guarded (
            lines_append (suc (length buf)) (suc (length (buf ++ more)))
              (suc (length buf + length more)) s buf more (omega arith)
              (omega (arith, length-append buf more)) (omega arith)
            ∙ ap (prepend frames) (
                lines_fuel (suc (length buf + length more)) (suc (length (left ++ more))) false s1
                  (left ++ more)
                  (omega (arith, length-append left more, lines-le (suc (length buf)) false s buf))
                  (omega arith)))
        ∙ guarded-prepend frames
            (lines codec (suc (length (left ++ more))) false c s1 (left ++ more))
        ∙ ap (prepend frames) (sym (drain_lines-guarded s1 (left ++ more))))

-- A byte order mark, once told, is told the same with more bytes behind it.
pub strip_bom-append :
    (buf more : Bytes) {out : Bytes}
    → strip_bom false buf ≡ some out
    → strip_bom false (buf ++ more) ≡ some (out ++ more)
unfolding strip_bom
strip_bom-append [] more h = cc
strip_bom-append (a ∷ []) [] h = ground arith
strip_bom-append (a ∷ []) (x ∷ []) h = ground arith
strip_bom-append (a ∷ []) (x ∷ y ∷ more) h = ground arith
strip_bom-append (a ∷ b ∷ []) [] h = ground arith
strip_bom-append (a ∷ b ∷ []) (x ∷ more) h = ground arith
strip_bom-append (a ∷ b ∷ d ∷ buf) more h = ground arith

-- The lines that the loop leaves are short if those that it was given are.
pub lines-within :
    (codec : Codec) (c : Config) (m n : ℕ) (s : State) (buf more : Bytes)
    → LinesWithin m 0 (buf ++ more)
    → LinesWithin m 0 ((lines codec n false c s buf).2 ++ more)
lines-within codec c m zero s buf more h = unfold lines in h
lines-within codec c m (suc n) s buf more h = elim (Option-cases (cut_line false buf)) [
  | inl e ↦ rw (lines_stop codec c (suc n) false s buf e) h
  | inr (cut, e) ↦
      let s1 = (consume_line codec c cut.0 cut.1 s).1 in
      rw (lines_step codec c n false s buf cut e) (
        lines-within codec c m n s1 cut.2 more
          (within_cut m 0 false (buf ++ more) (cut_line-append buf more e) h))
]

-- Nothing is left to cut.
lines_uncut :
    (codec : Codec) (c : Config) (n : ℕ) (s : State) (buf : Bytes)
    → length buf < n
    → cut_line false (lines codec n false c s buf).2 ≡ none
lines_uncut codec c zero s buf h = absurd (omega arith)
lines_uncut codec c (suc n) s buf h = elim (Option-cases (cut_line false buf)) [
  | inl e ↦ rw (lines_stop codec c (suc n) false s buf e) e
  | inr (cut, e) ↦
      let s1 = (consume_line codec c cut.0 cut.1 s).1 in
      rw (lines_step codec c n false s buf cut e)
        (lines_uncut codec c n s1 cut.2 (omega (arith, cut_line-shorter false buf e)))
]

pub retained-le :
    (codec : Codec) (c : Config) (s : State) (buf more : Bytes)
    → LinesWithin c.max_event_bytes 0 (buf ++ more)
    → length (retained codec c s buf) ≤ c.max_event_bytes
unfolding retained
retained-le codec c s buf more h =
    let m = c.max_event_bytes in
    let left = (lines codec (suc (length buf)) false c s buf).2 in
    omega (
      arith,
      within_uncut m 0 left (lines_uncut codec c (suc (length buf)) s buf (omega arith))
          (within_prefix m 0 left more (lines-within codec c m (suc (length buf)) s buf more h)),
    )
