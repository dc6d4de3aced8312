-- ===== src/Base/Decimal.antt =====
-- The decimal text of a number, `"{0}".format(n)`, and the number that a decimal text stands for.
use Prim.Native.Nat.{ℕ, zero, suc, ◌+◌, ◌-◌, ◌*◌, ◌/◌, ◌%◌, ◌<◌, ◌≤◌}
use mathlib.Core.Path.{◌≡◌, refl, sym, ap, ◌∙◌}
use mathlib.Core.Logic.{inl, inr}
use mathlib.Core.List.{[], List, ◌∷◌, ◌++◌}
use native.Mathlib.Omega.{arith}
use zhongzhuan.Base.Tests.{ltb, if◌then◌else◌, Bool-cases}

-- The digits of `n`, the highest first, on fuel.
unfoldable pub digits : ℕ → ℕ → List ℕ
digits zero n = []
digits (suc fuel) n =
    let rest = digits fuel (n / 10) in
    if ltb n 10 then (48 + n) ∷ [] else rest ++ (48 + n % 10) ∷ []

abbrev pub decimal : ℕ → List ℕ
decimal n = digits (suc n) n

abbrev pub value_from : ℕ → List ℕ → ℕ
value_from a [] = a
value_from a (d ∷ ds) = value_from (10 * a + (d - 48)) ds

value_from-append :
    (a : ℕ) (ds es : List ℕ) → value_from a (ds ++ es) ≡ value_from (value_from a ds) es
value_from-append a [] es = refl
value_from-append a (d ∷ ds) es = value_from-append (10 * a + (d - 48)) ds es

-- The fuel is enough: a decimal text stands for its number.
pub value-digits : (fuel n : ℕ) → n < fuel → value_from 0 (digits fuel n) ≡ n
unfolding digits
value-digits zero n h = absurd (omega arith)
value-digits (suc fuel) n h = elim (Bool-cases (ltb n 10)) [
  | inl e ↦ rw e (omega arith)
  | inr e ↦
      let big : 10 ≤ n = ground (arith, e) in
      rw
        (
          e,
          value_from-append 0 (digits fuel (n / 10)) ((48 + n % 10) ∷ []),
          value-digits fuel (n / 10) (omega arith),
        )
        (omega arith)
]

pub decimal-injective : (m n : ℕ) → decimal m ≡ decimal n → m ≡ n
decimal-injective m n h =
    sym (value-digits (suc m) m (omega arith))
    ∙ ap (value_from 0) h
    ∙ value-digits (suc n) n (omega arith)

pub append-cancel : (xs ys zs : List ℕ) → xs ++ ys ≡ xs ++ zs → ys ≡ zs
append-cancel [] ys zs h = h
append-cancel (x ∷ xs) ys zs h = append-cancel xs ys zs (ap tail h)
  where
    tail : List ℕ → List ℕ
    tail [] = []
    tail (y ∷ ys) = ys
