-- ===== src/Tests/Tools.antt =====
-- Runs of the tool calls of `src/zhongzhuan/proxy/protocol/tool_accumulator.py`.
use zhongzhuan.Base.{[], ℕ, ◌≡◌, refl, true, Option, none, some, List, ◌∷◌, ◌++◌, if◌then◌else◌}
use zhongzhuan.Base.Eq.{text_eq}
use zhongzhuan.Base.Text.{codes}
use zhongzhuan.Base.Json.{Json, object, no_fields}
use zhongzhuan.ToolCalls.{
  Text, Collection, new_collection, live, is_in, is_complete_at, completed, incomplete,
}
use zhongzhuan.ToolCalls.Identity.{
  Op, ensured, finalized, changed, extend_name, extend_arguments, validate, apply_all, identities,
  Extends, apply_all-Extends,
}
use zhongzhuan.ToolCalls.Partition.{count, completed-incomplete}
use zhongzhuan.ToolCalls.Namespace.{split_namespace_name, split_namespace_name-dash}

-- A loader that accepts the empty object only.
abbrev loads : Text → Option Json
loads s = if text_eq.beq s (codes "{}") then some (object no_fields) else none

-- Two calls; the second gets its call id late, and only the first gets its arguments.
abbrev fragments : List Op
fragments =
    ensured 0 (codes "call_a") (some 0)
    ∷ ensured 1 [] (some 1)
    ∷ changed 0 (extend_name (codes "search"))
    ∷ changed 0 (extend_arguments (codes "{}"))
    ∷ changed 0 (validate true)
    ∷ finalized (codes "call_b") (some 1)
    ∷ []

abbrev start : Collection
unfolding new_collection
start = new_collection (codes "resp_1")

apply_all-Extends_example :
    Extends start.response_id (identities start) (identities (apply_all loads fragments start))
apply_all-Extends_example = apply_all-Extends loads fragments start

abbrev seven : ℕ
seven = 7

abbrev both : Collection
both = apply_all loads fragments start

completed-incomplete_example :
    let here : ℕ = if is_in 1 (live both) then 1 else 0 in
    (count 1 (completed both) ≡ (if is_complete_at both.heap 1 then here else 0))
    × (count 1 (incomplete both) ≡ (if is_complete_at both.heap 1 then 0 else here))
completed-incomplete_example = completed-incomplete both 1

split_namespace_name-dash_example :
    split_namespace_name (codes "mcp__a-b__" ++ 45 ∷ codes "spawn_agent")
    ≡ (codes "mcp__a-b__", codes "spawn_agent")
split_namespace_name-dash_example =
    split_namespace_name-dash (codes "mcp__a-b__") (codes "spawn_agent") refl refl refl refl
