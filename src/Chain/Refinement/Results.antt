-- ===== src/Chain/Refinement/Results.antt =====
-- What the variables of `resolve_chain` hold after a chain, and the result that is made of them
-- (`src/zhongzhuan/responses_v3/chain.py`).
use zhongzhuan.Base.{
  ℕ, suc, ◌+◌, ◌-◌, ◌≤◌, ◌≡◌, refl, sym, ap, ◌∙◌, String, Bool, Option, List, [], ◌∷◌, ◌++◌,
  append_assoc, append-nil, length, length-append, arith,
}
use zhongzhuan.Base.Eq.{string_eq, text_eq}
use zhongzhuan.Base.Dict.{Dict}
use zhongzhuan.Base.Json.{Json}
use zhongzhuan.Items.{NormalizedItem}
use zhongzhuan.Chain.{
  ResponseRecord, ResponseReads, Walk, Limits, reseq, append_bucket, append_buckets, reversed,
  tokens_of, visible_items, enter,
}
use zhongzhuan.Chain.Ancestry.{advance}
use zhongzhuan.Chain.Refinement.{after, Within}
use zhongzhuan.Chain.Refinement.Acyclic.{ids}

-- The items with the numbers from `n` on.
abbrev pub numbered : ℕ → List NormalizedItem → List NormalizedItem
numbered n [] = []
numbered n (it ∷ its) = reseq it n ∷ numbered (suc n) its

abbrev pub all_of : List (List NormalizedItem) → List NormalizedItem
all_of [] = []
all_of (b ∷ bs) = b ++ all_of bs

numbered_at : (m n : ℕ) (b : List NormalizedItem) → m ≡ n → numbered m b ≡ numbered n b
numbered_at m n b e = ap (λ k. numbered k b) e

pub length-numbered : (n : ℕ) (b : List NormalizedItem) → length (numbered n b) ≡ length b
length-numbered n [] = refl
length-numbered n (it ∷ b) = ap suc (length-numbered (suc n) b)

numbered-append :
    (n : ℕ) (a b : List NormalizedItem)
    → numbered n (a ++ b) ≡ numbered n a ++ numbered (n + length a) b
numbered-append n [] b = numbered_at n (n + 0) b (omega arith)
numbered-append n (it ∷ a) b = ap (◌∷◌ (reseq it n)) (
    numbered-append (suc n) a b
    ∙ ap (◌++◌ (numbered (suc n) a))
        (numbered_at (suc n + length a) (n + suc (length a)) b (omega arith)))

append_bucket_lem :
    (out b : List NormalizedItem) → append_bucket out b ≡ out ++ numbered (length out) b
unfolding append_bucket
append_bucket_lem out [] = sym (append-nil out)
append_bucket_lem out (it ∷ b) =
    let x = reseq it (length out) in
    append_bucket_lem (out ++ x ∷ []) b
    ∙ ap (λ n. (out ++ x ∷ []) ++ numbered n b) (length-append out (x ∷ []) ∙ omega arith)
    ∙ append_assoc out (x ∷ []) (numbered (suc (length out)) b)

append_buckets_lem :
    (out : List NormalizedItem) (bs : List (List NormalizedItem))
    → append_buckets out bs ≡ out ++ numbered (length out) (all_of bs)
unfolding append_buckets
append_buckets_lem out [] = sym (append-nil out)
append_buckets_lem out (b ∷ bs) =
    let n = length out in
    let mid = out ++ numbered n b in
    let len : length mid ≡ n + length b =
      length-append out (numbered n b) ∙ ap (λ k. n + k) (length-numbered n b) in
    ap (λ o. append_buckets o bs) (append_bucket_lem out b)
    ∙ append_buckets_lem mid bs
    ∙ ap (◌++◌ mid) (numbered_at (length mid) (n + length b) (all_of bs) len)
    ∙ append_assoc out (numbered n b) (numbered (n + length b) (all_of bs))
    ∙ ap (◌++◌ out) (sym (numbered-append n b (all_of bs)))

-- The items of a result have the numbers 0, 1, 2, ..., oldest turn first.
pub append_buckets-numbered :
    (bs : List (List NormalizedItem)) → append_buckets [] bs ≡ numbered 0 (all_of bs)
append_buckets-numbered bs = append_buckets_lem [] bs

abbrev pub count_of : List (List NormalizedItem) → ℕ
count_of [] = 0
count_of (b ∷ bs) = length b + count_of bs

count_of-append :
    (bs cs : List (List NormalizedItem)) → count_of (bs ++ cs) ≡ count_of bs + count_of cs
count_of-append [] cs = omega arith
count_of-append (b ∷ bs) cs = omega (arith, count_of-append bs cs)

count_of-reversed : (bs : List (List NormalizedItem)) → count_of (reversed bs) ≡ count_of bs
count_of-reversed [] = refl
count_of-reversed (b ∷ bs) =
    omega (arith, count_of-append (reversed bs) (b ∷ []), count_of-reversed bs)

length-all_of : (bs : List (List NormalizedItem)) → length (all_of bs) ≡ count_of bs
length-all_of [] = refl
length-all_of (b ∷ bs) = length-append b (all_of bs) ∙ ap (λ n. length b + n) (length-all_of bs)

pub length-all_of-reversed :
    (bs : List (List NormalizedItem)) → length (all_of (reversed bs)) ≡ count_of bs
length-all_of-reversed bs = length-all_of (reversed bs) ∙ count_of-reversed bs

module _ (str_or_empty : Json → List ℕ) (truthy : Json → Bool)
    (payload_size : Dict String Json → Option ℕ) where
  abbrev pub tokens_in : List (List NormalizedItem) → ℕ
  tokens_in [] = 0
  tokens_in (b ∷ bs) = tokens_of str_or_empty truthy payload_size b + tokens_in bs

  module _ (store : ResponseReads) (ws : String) (limits : Limits) where
    -- The items that each row of a chain adds, where `n` have been found before.
    abbrev pub turn_items : ℕ → List ResponseRecord → List (List NormalizedItem)
    turn_items n [] = []
    turn_items n (r ∷ rs) =
        let bucket =
          visible_items str_or_empty truthy payload_size store r (limits.max_items - n + 1) in
        bucket ∷ turn_items (n + length bucket) rs

    abbrev walked : String → List ResponseRecord → Walk → Walk
    walked = after str_or_empty truthy payload_size store ws limits

    -- The variables after the rows of a chain.
    pub after_lem :
        (id : String) (rs : List ResponseRecord) (w : Walk)
        → let w1 = walked id rs w in
          (w1.res.depth ≡ w.res.depth + length rs)
          × (w1.res.visited ≡ w.res.visited ++ ids id rs)
          × (w1.res.error ≡ w.res.error)
          × (w1.buckets ≡ w.buckets ++ turn_items w.total_items rs)
    unfolding after advance enter
    after_lem id [] w =
        (omega arith, sym (append-nil w.res.visited), refl, sym (append-nil w.buckets))
    after_lem id (r ∷ rs) w =
        let w1 = advance str_or_empty truthy payload_size store ws limits id r w in
        let bucket =
          visible_items str_or_empty truthy payload_size store r
            (limits.max_items - w.total_items + 1) in
        let (d, v, e, b) = after_lem r.previous_response_id rs w1 in
        (
          omega (arith, d),
          v ∙ append_assoc w.res.visited (id ∷ []) (ids r.previous_response_id rs),
          e,
          b ∙ append_assoc w.buckets (bucket ∷ []) (turn_items (w.total_items + length bucket) rs),
        )

    -- Rows stay within the limits if and only if all of them together do.
    pub Within-iff :
        (id : String) (rs : List ResponseRecord) (w : Walk)
        → w.total_items ≤ limits.max_items
        → w.total_tokens ≤ limits.max_tokens
        → (Within str_or_empty truthy payload_size store ws limits id rs w
            → (w.total_items + count_of (turn_items w.total_items rs) ≤ limits.max_items)
              × (w.total_tokens + tokens_in (turn_items w.total_items rs) ≤ limits.max_tokens))
          × (w.total_items + count_of (turn_items w.total_items rs) ≤ limits.max_items
              → w.total_tokens + tokens_in (turn_items w.total_items rs) ≤ limits.max_tokens
              → Within str_or_empty truthy payload_size store ws limits id rs w)
    unfolding Within advance enter
    Within-iff id [] w h k = (λ x. (omega (arith, h), omega (arith, k)), λ a b. tt)
    Within-iff id (r ∷ rs) w h k =
        let w1 = advance str_or_empty truthy payload_size store ws limits id r w in
        (
          λ x.
              let (i, t, rest) = x in
              let (a, b) = (Within-iff r.previous_response_id rs w1 i t).0 rest in
              (omega (arith, a), omega (arith, b)),
          λ a b.
              let i : w1.total_items ≤ limits.max_items = omega (arith, a) in
              let t : w1.total_tokens ≤ limits.max_tokens = omega (arith, b) in
              (
                i,
                t,
                (Within-iff r.previous_response_id rs w1 i t).1 (omega (arith, a))
                    (omega (arith, b)),
              ),
        )
