-- ===== src/ToolCalls/Partition.antt =====
-- The complete and the incomplete calls of a collection (`tool_accumulator.py`).
use zhongzhuan.Base.{
  [], ℕ, ◌+◌, ◌≡◌, refl, ap, ◌∙◌, Bool, true, false, not, List, ◌∷◌, ◌==◌, ==_iff, if◌then◌else◌,
  arith,
}
use zhongzhuan.ToolCalls.{
  Collection, is_in, unseen, live, list_all, keep, completed, incomplete, is_complete_at,
}

abbrev pub count : ℕ → List ℕ → ℕ
count r [] = 0
count r (s ∷ rs) = (if s == r then 1 else 0) + count r rs

count-unseen :
    (r : ℕ) (seen rs : List ℕ)
    → count r (unseen seen rs) ≡ (if is_in r seen then 0 else if is_in r rs then 1 else 0)
unfolding unseen
count-unseen r seen [] = ground arith
count-unseen r seen (s ∷ rs) =
    ground (arith, count-unseen r seen rs, count-unseen r (s ∷ seen) rs, ==_iff s r)

count-keep :
    (p : ℕ → Bool) (r : ℕ) (rs : List ℕ) → count r (keep p rs) ≡ (if p r then count r rs else 0)
count-keep p r [] = ground arith
count-keep p r (s ∷ rs) = ground (arith, count-keep p r rs, ==_iff s r)

flip : (b : Bool) (m n : ℕ) → m ≡ n → (if not b then m else 0) ≡ (if b then 0 else n)
flip true m n h = refl
flip false m n h = h

-- Each call that a key leads to is exactly once among the complete or the incomplete calls, by
-- whether it is complete, and no other call is there.
pub completed-incomplete :
    (c : Collection) (r : ℕ)
    → let here : ℕ = if is_in r (live c) then 1 else 0 in
      (count r (completed c) ≡ (if is_complete_at c.heap r then here else 0))
      × (count r (incomplete c) ≡ (if is_complete_at c.heap r then 0 else here))
unfolding completed incomplete list_all
completed-incomplete c r =
    let every = count-unseen r [] (live c) in
    (
      count-keep (is_complete_at c.heap) r (list_all c)
          ∙ ap (λ n. if is_complete_at c.heap r then n else 0) every,
      count-keep (λ s. not (is_complete_at c.heap s)) r (list_all c)
          ∙ flip (is_complete_at c.heap r) (count r (list_all c))
              (if is_in r (live c) then 1 else 0) every,
    )
