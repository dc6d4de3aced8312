-- ===== src/Emitter/Sets.antt =====
-- Sets of item ids as lists, for `responses_emitter.py`.
use zhongzhuan.Base.{
  ℕ, ◌+◌, ◌≡◌, refl, ap, String, Bool, true, false, List, [], ◌∷◌, ◌++◌, if◌then◌else◌, arith,
  Bool-cases, inl, inr,
}
use zhongzhuan.Base.Eq.{string_eq}
use zhongzhuan.Emitter.{is_in, add, discard}

abbrev pub one_if : Bool → ℕ
one_if true = 1
one_if false = 0

-- How often the list has the id.
abbrev pub count : String → List String → ℕ
count i [] = 0
count i (j ∷ s) = one_if (string_eq.beq j i) + count i s

pub is_in-append :
    (i j : String) (s : List String)
    → is_in i (s ++ j ∷ []) ≡ (if string_eq.beq j i then true else is_in i s)
is_in-append i j [] = refl
is_in-append i j (k ∷ s) = ground (arith, is_in-append i j s)

pub is_in-add :
    (i j : String) (s : List String)
    → is_in i (add j s) ≡ (if string_eq.beq j i then true else is_in i s)
is_in-add i j s = elim (Bool-cases (is_in j s)) [
  | inl h ↦ rw h (ground (arith, h, string_eq.beq_iff j i, ap (λ k. is_in k s) {x = j} {y = i}))
  | inr h ↦ rw h (is_in-append i j s)
]

pub is_in-discard :
    (i j : String) (s : List String)
    → is_in i (discard j s) ≡ (if string_eq.beq j i then false else is_in i s)
is_in-discard i j [] = ground arith
is_in-discard i j (k ∷ s) = ground (
  arith,
  is_in-discard i j s,
  string_eq.beq_iff k j,
  string_eq.beq_iff k i,
  string_eq.beq_iff j i,
)
