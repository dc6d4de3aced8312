-- ===== src/ToolCalls/Namespace.antt =====
-- The name of a tool in a namespace, `split_namespace_name` of
-- `src/zhongzhuan/proxy/protocol/tool_accumulator.py`.
use zhongzhuan.Base.{
  [], ℕ, ◌≡◌, refl, ap, Bool, true, false, ◌||◌, ◌∷◌, ◌++◌, ◌==◌, ==_iff, arith, if◌then◌else◌,
  Bool-cases, inl, inr,
}
use zhongzhuan.Base.Text.{codes, starts_with}
use zhongzhuan.ToolCalls.{Text}

-- `sep in name`, for one character.
abbrev pub has_char : ℕ → Text → Bool
has_char c [] = false
has_char c (d ∷ s) = d == c || has_char c s

abbrev cons_first : ℕ → Text × Text → Text × Text
cons_first d (before, after) = (d ∷ before, after)

-- `name.rpartition(sep)` without the separator, for a name that has it.
unfoldable pub rpartition : ℕ → Text → Text × Text
rpartition c [] = ([], [])
rpartition c (d ∷ s) =
    let later = rpartition c s in
    if has_char c s then cons_first d later else if d == c then ([], s) else ([], d ∷ s)

-- `split_namespace_name`: the separators are tried in the order `.`, `-`.
unfoldable pub split_namespace_name : Text → Text × Text
split_namespace_name name =
    if starts_with (codes "mcp__") name
    then (if has_char b'.' name
        then rpartition b'.' name
        else if has_char b'-' name
        then rpartition b'-' name
        else ([], name))
    else ([], name)

-- The two parts around the last separator.
pub rpartition_parts :
    (c : ℕ) (s : Text)
    → has_char c s ≡ true
    → (s ≡ (rpartition c s).0 ++ c ∷ (rpartition c s).1) × (has_char c (rpartition c s).1 ≡ false)
unfolding rpartition
rpartition_parts c [] h = absurd (ground arith)
rpartition_parts c (d ∷ s) h = elim (Bool-cases (has_char c s)) [
  | inl e ↦ let rest = rpartition_parts c s e in rw e (ap (λ t. d ∷ t) rest.0, rest.1)
  | inr e ↦
      let here : (d == c) ≡ true = ground (arith, h, e) in
      rw (e, here) (ap (λ k. k ∷ s) ((==_iff d c).0 here), e)
]

-- A last part without the separator is split off.
pub rpartition-append :
    (c : ℕ) (ns sub : Text)
    → has_char c sub ≡ false
    → (has_char c (ns ++ c ∷ sub) ≡ true) × (rpartition c (ns ++ c ∷ sub) ≡ (ns, sub))
unfolding rpartition
rpartition-append c [] sub h =
    let here : (c == c) ≡ true = (==_iff c c).1 refl in rw (here, h) (refl, refl)
rpartition-append c (d ∷ ns) sub h =
    let (p, q) = rpartition-append c ns sub h in rw (p, q) (ground arith, refl)

has_char-append : (c : ℕ) (s t : Text) → has_char c (s ++ t) ≡ (has_char c s || has_char c t)
has_char-append c [] t = refl
has_char-append c (d ∷ s) t = ground (arith, has_char-append c s t)

starts_with-append : (p s t : Text) → starts_with p s ≡ true → starts_with p (s ++ t) ≡ true
starts_with-append [] s t h = refl
starts_with-append (k ∷ p) [] t h = absurd (ground arith)
starts_with-append (k ∷ p) (d ∷ s) t h = ground (arith, starts_with-append p s t, h)

-- A namespace that starts with `mcp__` and has no dot, a dash and a name without dot and dash are
-- split again.
pub split_namespace_name-dash :
    (ns sub : Text)
    → starts_with (codes "mcp__") ns ≡ true
    → has_char b'.' ns ≡ false
    → has_char b'.' sub ≡ false
    → has_char b'-' sub ≡ false
    → split_namespace_name (ns ++ b'-' ∷ sub) ≡ (ns, sub)
unfolding split_namespace_name
split_namespace_name-dash ns sub p a b d =
    let (q, r) = rpartition-append b'-' ns sub d in
    rw
      (
        starts_with-append (codes "mcp__") ns (b'-' ∷ sub) p,
        has_char-append b'.' ns (b'-' ∷ sub),
        a,
        b,
        q,
        r,
      )
      refl

-- A namespace that starts with `mcp__`, a dot and a name without dot are split again, whatever dashes
-- they have.
pub split_namespace_name-dot :
    (ns sub : Text)
    → starts_with (codes "mcp__") ns ≡ true
    → has_char b'.' sub ≡ false
    → split_namespace_name (ns ++ b'.' ∷ sub) ≡ (ns, sub)
unfolding split_namespace_name
split_namespace_name-dot ns sub p b =
    let (q, r) = rpartition-append b'.' ns sub b in
    rw (starts_with-append (codes "mcp__") ns (b'.' ∷ sub) p, q, r) refl
