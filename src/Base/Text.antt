-- ===== src/Base/Text.antt =====
-- Python texts and byte strings as lists of numbers, and the substring test `needle in hay`.
use Prim.Native.Nat.{ℕ, ◌+◌}
use Prim.Native.Char.{code}
use Prim.Native.String.{String}
use mathlib.Core.Bool.{Bool, true, false, ◌&&◌, ◌||◌}
use mathlib.Core.Option.{Option, none, some}
use mathlib.Core.List.{[], List, ◌∷◌, map}
use zhongzhuan.Base.Tests.{leb, ◌==◌, if◌then◌else◌}

-- The code points of a text: its bytes, if it is ASCII.
abbrev pub codes : String → List ℕ
codes String.[] = []
codes (String.◌∷◌ c s) = code c ∷ codes s

-- `hay.startswith(needle)`
abbrev pub starts_with : List ℕ → List ℕ → Bool
starts_with [] hay = true
starts_with (n ∷ needle) [] = false
starts_with (n ∷ needle) (h ∷ hay) = n == h && starts_with needle hay

-- `needle in hay`
abbrev pub contains : List ℕ → List ℕ → Bool
contains needle [] = starts_with needle []
contains needle (h ∷ hay) = starts_with needle (h ∷ hay) || contains needle hay

-- `any(m in hay for m in needles)`
abbrev pub contains_any : List (List ℕ) → List ℕ → Bool
contains_any [] hay = false
contains_any (n ∷ needles) hay = contains n hay || contains_any needles hay

-- `bytes.lower()`: ASCII letters only.
abbrev pub lower_byte : ℕ → ℕ
lower_byte c = if leb b'A' c && leb c b'Z' then c + 32 else c

abbrev pub lower_bytes : List ℕ → List ℕ
lower_bytes = map lower_byte

-- The value of a header under `if value:`, where an empty text counts as absent.
abbrev pub truthy : Option String → Option String
truthy none = none
truthy (some String.[]) = none
truthy (some (String.◌∷◌ c s)) = some (String.◌∷◌ c s)

-- `value or ""`
abbrev pub or_empty : Option String → List ℕ
or_empty none = []
or_empty (some s) = codes s

-- `str.isspace` of one character.
abbrev pub is_space : ℕ → Bool
is_space c =
    (leb 9 c && leb c 13)
    || (leb 28 c && leb c 32)
    || c == 133
    || c == 160
    || c == 5760
    || (leb 8192 c && leb c 8202)
    || c == 8232
    || c == 8233
    || c == 8239
    || c == 8287
    || c == 12288

abbrev pub lstrip : List ℕ → List ℕ
lstrip [] = []
lstrip (c ∷ s) = if is_space c then lstrip s else c ∷ s

abbrev pub cons_unless_blank : ℕ → List ℕ → List ℕ
cons_unless_blank c [] = if is_space c then [] else c ∷ []
cons_unless_blank c (d ∷ s) = c ∷ d ∷ s

abbrev pub rstrip : List ℕ → List ℕ
rstrip [] = []
rstrip (c ∷ s) = cons_unless_blank c (rstrip s)

-- `text.strip()`
abbrev pub strip : List ℕ → List ℕ
strip s = rstrip (lstrip s)
