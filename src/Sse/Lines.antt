-- ===== src/Sse/Lines.antt =====
-- The line splitting of `sse_parser.py`: a line once cut stays cut when more bytes follow.
use zhongzhuan.Base.{
  [], ℕ, ◌≤◌, ◌<◌, ◌≡◌, refl, Bool, true, false, Option, none, some, ◌∷◌, ◌++◌, length, arith,
  Option-cases, inl, inr,
}
use zhongzhuan.Sse.{Bytes, Cut, push_byte, cut_after_cr, cut_line}

-- A cut with more bytes behind it.
abbrev pub extend : Bytes → Option Cut → Option Cut
extend more none = none
extend more (some (line, raw_line, rest)) = some (line, raw_line, rest ++ more)

push-extend :
    (b : ℕ) (more : Bytes) (c : Option Cut)
    → push_byte b (extend more c) ≡ extend more (push_byte b c)
push-extend b more none = refl
push-extend b more (some (line, raw_line, rest)) = refl

after_cr-append :
    (buf more : Bytes) {cut : Cut}
    → cut_after_cr false buf ≡ some cut
    → cut_after_cr false (buf ++ more) ≡ extend more (some cut)
after_cr-append [] more h = cc
after_cr-append (c ∷ buf) more h = ground arith

after_cr-shorter :
    (final : Bool) (buf : Bytes) {cut : Cut}
    → cut_after_cr final buf ≡ some cut
    → length cut.2 ≤ length buf
after_cr-shorter true [] h = ground arith
after_cr-shorter false [] h = cc
after_cr-shorter final (c ∷ buf) h = ground arith

pub cut_line-append :
    (buf more : Bytes) {cut : Cut}
    → cut_line false buf ≡ some cut
    → cut_line false (buf ++ more) ≡ extend more (some cut)
unfolding cut_line
cut_line-append [] more h = cc
cut_line-append (b ∷ buf) more {cut} h = elim (Option-cases (cut_line false buf)) [
  | inl e ↦ ground (arith, after_cr-append buf more {cut = cut})
  | inr (c, e) ↦
      ground (arith, after_cr-append buf more {cut = cut}, cut_line-append buf more {cut = c} e)
]

-- A cut takes at least one byte.
pub cut_line-shorter :
    (final : Bool) (buf : Bytes) {cut : Cut}
    → cut_line final buf ≡ some cut
    → length cut.2 < length buf
unfolding cut_line
cut_line-shorter final [] h = cc
cut_line-shorter final (b ∷ buf) {cut} h = elim (Option-cases (cut_line final buf)) [
  | inl e ↦ ground (arith, after_cr-shorter final buf {cut = cut})
  | inr (c, e) ↦
      ground (arith, after_cr-shorter final buf {cut = cut}, cut_line-shorter final buf {cut = c} e)
]
