-- ===== src/Sse/Width.antt =====
-- The length of the lines in a byte stream, for `sse_parser.py`.
use zhongzhuan.Base.{
  [], ℕ, ◌+◌, ◌≤◌, ◌≡◌, refl, Bool, true, false, Option, none, some, ◌∷◌, ◌++◌, length, arith, ◌==◌,
  ◌||◌, if◌then◌else◌, Option-cases, Bool-cases, inl, inr,
}
use zhongzhuan.Sse.{Bytes, Cut, cut_line, push_byte, cut_after_cr}

-- The bytes of a line so far, one more read.
abbrev pub count_after : ℕ → ℕ → ℕ
count_after b n = if b == b'\n' || b == b'\r' then 0 else n + 1

-- Every line of the bytes, its terminator's first byte included, and the unfinished one at the end,
-- is at most `m` bytes long; `n` bytes of the first line have gone before.
abbrev pub LinesWithin : ℕ → ℕ → Bytes → Type 0
LinesWithin m n [] = n ≤ m
LinesWithin m n (b ∷ bs) = (n + 1 ≤ m) × LinesWithin m (count_after b n) bs

pub within-le : (m n : ℕ) (bs : Bytes) → LinesWithin m n bs → n ≤ m
within-le m n [] h = h
within-le m n (b ∷ bs) h = omega (arith, h.0)

pub within_prefix : (m n : ℕ) (xs ys : Bytes) → LinesWithin m n (xs ++ ys) → LinesWithin m n xs
within_prefix m n [] ys h = within-le m n ys h
within_prefix m n (x ∷ xs) ys h = (h.0, within_prefix m (count_after x n) xs ys h.1)

pub within_mono : (m n k : ℕ) (bs : Bytes) → k ≤ n → LinesWithin m n bs → LinesWithin m k bs
within_mono m n k [] le h = omega arith
within_mono m n k (b ∷ bs) le h = (
  omega (arith, h.0),
  elim (Bool-cases (b == b'\n' || b == b'\r')) [
    | inl e ↦ rw e (rw e at h.1)
    | inr e ↦ rw e (within_mono m (n + 1) (k + 1) bs (omega arith) (rw e at h.1))
  ],
)

within_after_cr :
    (m : ℕ) (final : Bool) (bs : Bytes) {cut : Cut}
    → cut_after_cr final bs ≡ some cut
    → LinesWithin m 0 bs
    → LinesWithin m 0 cut.2
within_after_cr m true [] {cut} e h = let q : cut.2 ≡ [] = ground arith in rw q h
within_after_cr m false [] e h = cc
within_after_cr m final (b ∷ bs) {cut} e h = elim (Bool-cases (b == b'\n')) [
  | inl lf ↦ let q : cut.2 ≡ bs = ground arith in rw q (rw lf at h.1)
  | inr other ↦ let q : cut.2 ≡ b ∷ bs = ground arith in rw q h
]

push_byte-none : (b : ℕ) {c : Option Cut} {cut : Cut} → c ≡ none → push_byte b c ≡ some cut → ⊥
push_byte-none b e h = let h' : none ≡ some _ = rw e at h in cc

after_cr_none : (bs : Bytes) → cut_after_cr false bs ≡ none → bs ≡ []
after_cr_none [] e = refl
after_cr_none (b ∷ bs) e = ground arith

pub within_cut :
    (m n : ℕ) (final : Bool) (bs : Bytes) {cut : Cut}
    → cut_line final bs ≡ some cut
    → LinesWithin m n bs
    → LinesWithin m 0 cut.2
unfolding cut_line
within_cut m n final [] e h = cc
within_cut m n final (b ∷ bs) {cut} e h = elim (Bool-cases (b == b'\n')) [
  | inl lf ↦ let q : cut.2 ≡ bs = ground arith in rw q (rw lf at h.1)
  | inr no_lf ↦ elim (Bool-cases (b == b'\r')) [
    | inl cr ↦ within_after_cr m final bs (rw (no_lf, cr) at e) (rw (no_lf, cr) at h.1)
    | inr no_cr ↦ elim (Option-cases (cut_line final bs)) [
      | inl stuck ↦ absurd (push_byte-none b stuck (rw (no_lf, no_cr) at e))
      | inr (c, found) ↦
          let q : cut.2 ≡ c.2 = ground arith in
          rw q (within_cut m (count_after b n) final bs found h.1)
    ]
  ]
]

pub within_uncut :
    (m n : ℕ) (bs : Bytes) → cut_line false bs ≡ none → LinesWithin m n bs → n + length bs ≤ m
unfolding cut_line
within_uncut m n [] e h = omega arith
within_uncut m n (b ∷ bs) e h = elim (Bool-cases (b == b'\n')) [
  | inl lf ↦ absurd (ground arith)
  | inr no_lf ↦ elim (Bool-cases (b == b'\r')) [
    | inl cr ↦ ground (arith, after_cr_none bs, h.0)
    | inr no_cr ↦ elim (Option-cases (cut_line false bs)) [
      | inl stuck ↦ ground (arith, within_uncut m (count_after b n) bs stuck h.1)
      | inr (c, found) ↦ absurd (ground arith)
    ]
  ]
]
