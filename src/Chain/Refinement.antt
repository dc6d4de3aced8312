-- ===== src/Chain/Refinement.antt =====
-- The loop of `resolve_chain` (`src/zhongzhuan/responses_v3/chain.py`) against chains of responses.
pub mod Acyclic
pub mod Results
use mathlib.Core.Option.{some-injective}
use zhongzhuan.Base.{
  ℕ, zero, suc, ◌+◌, ◌-◌, ◌≤◌, ◌<◌, ◌≡◌, refl, sym, ap, ◌∙◌, ◌⊎◌, inl, inr, String, Bool, true,
  false, ◌||◌, Option, none, some, List, [], ◌∷◌, ◌++◌, if◌then◌else◌, length, map, arith,
  Bool-cases,
}
use zhongzhuan.Base.Eq.{string_eq, beq_refl}
use zhongzhuan.Base.Dict.{Dict}
use zhongzhuan.Base.Json.{Json}
use zhongzhuan.Emitter.{is_in}
use zhongzhuan.Items.{NormalizedItem}
use zhongzhuan.Errors.{invalid_client_request}
use zhongzhuan.Chain.{
  ResponseRecord, ResponseReads, ChainResolution, Walk, Turn, failed, arrived, goes_on, next_turn,
  Limits, is_compact_boundary, turn, walk, finish, enter, continue_with,
}
use zhongzhuan.Chain.Ancestry.{
  is_empty, is_root, Ancestry, root, child, advance, Entered, after_turn, Failure, turn-cases,
  turn-Entered,
}
use Acyclic.{ids, child_is_new}
use zhongzhuan.Emitter.Sets.{is_in-add}

next_turn-cases :
    (s : String) (w : Walk)
    → ((is_empty s ≡ true) × (next_turn s w ≡ arrived w))
      ⊎ ((is_empty s ≡ false) × (next_turn s w ≡ goes_on s w))
next_turn-cases String.[] w = inl (refl, refl)
next_turn-cases (String.◌∷◌ c s) w = inr (refl, refl)

module _ (str_or_empty : Json → List ℕ) (truthy : Json → Bool)
    (payload_size : Dict String Json → Option ℕ) (store : ResponseReads) (ws : String)
    (limits : Limits) where
  abbrev Chain : String → List ResponseRecord → Type 0
  Chain = Ancestry str_or_empty truthy payload_size store ws

  abbrev moved : String → ResponseRecord → Walk → Walk
  moved = advance str_or_empty truthy payload_size store ws limits

  -- The loop's variables after the rows of a chain.
  unfoldable pub after : String → List ResponseRecord → Walk → Walk
  after id [] w = w
  after id (r ∷ rs) w = after r.previous_response_id rs (moved id r w)

  -- Every one of the rows stays within the limits.
  unfoldable pub Within : String → List ResponseRecord → Walk → Type 0
  Within id [] w = Unit
  Within id (r ∷ rs) w =
      let w1 = moved id r w in
      (w1.total_items ≤ limits.max_items)
      × (w1.total_tokens ≤ limits.max_tokens)
      × Within r.previous_response_id rs w1

  abbrev loop : ℕ → String → Walk → Option ChainResolution
  loop = walk str_or_empty truthy payload_size store ws limits

  abbrev at : String → Walk → Turn
  at = turn str_or_empty truthy payload_size store ws limits

  walk-failed :
      (fuel : ℕ) (id : String) (w : Walk) (res : ChainResolution)
      → at id w ≡ failed res
      → loop (suc fuel) id w ≡ some res
  unfolding walk
  walk-failed fuel id w res h = ap (continue_with (loop fuel)) h

  abbrev root_of : ResponseRecord → Bool
  root_of = is_root str_or_empty truthy payload_size store ws

  continue-after :
      (rest : String → Walk → Option ChainResolution) (r : ResponseRecord) (w1 : Walk)
      → continue_with rest (after_turn str_or_empty truthy payload_size store ws limits r w1)
        ≡ (if root_of r then some (finish w1) else rest r.previous_response_id w1)
  continue-after rest r w1 =
      elim (Bool-cases (is_compact_boundary str_or_empty truthy payload_size r)) [
        | inl c ↦ rw c refl
        | inr c ↦ elim (next_turn-cases r.previous_response_id w1) [
          | inl (e, n) ↦ rw (c, e, n) refl
          | inr (e, n) ↦ rw (c, e, n) refl
        ]
      ]

  -- A turn that enters a row ends the loop at a root and goes on elsewhere.
  walk-after :
      (fuel : ℕ) (id : String) (r : ResponseRecord) (w w1 : Walk)
      → at id w ≡ after_turn str_or_empty truthy payload_size store ws limits r w1
      → loop (suc fuel) id w
        ≡ (if root_of r then some (finish w1) else loop fuel r.previous_response_id w1)
  unfolding walk
  walk-after fuel id r w w1 h = ap (continue_with (loop fuel)) h ∙ continue-after (loop fuel) r w1

  advance-depth :
      (id : String) (r : ResponseRecord) (w : Walk) → (moved id r w).res.depth ≡ w.res.depth + 1
  unfolding advance enter
  advance-depth id r w = refl

  advance-error :
      (id : String) (r : ResponseRecord) (w : Walk) → (moved id r w).res.error ≡ w.res.error
  unfolding advance enter
  advance-error id r w = refl

  -- The loop is never cut off: its fuel is what is left of the depth, and one turn more.
  pub walk_ends :
      (fuel : ℕ) (id : String) (w : Walk)
      → fuel + w.res.depth ≡ suc limits.max_depth
      → 1 ≤ fuel
      → (res : ChainResolution) × (loop fuel id w ≡ some res)
  walk_ends zero id w h p = absurd (omega arith)
  walk_ends (suc fuel) id w h p =
      elim (turn-cases str_or_empty truthy payload_size store ws limits id w) [
        | inl (res, f, _, _) ↦ (res, walk-failed fuel id w res f)
        | inr (r, (_, d, _, _, _, _), f) ↦
            let w1 = moved id r w in
            elim (Bool-cases (root_of r)) [
              | inl e ↦ (finish w1, rw (walk-after fuel id r w w1 f, e) refl)
              | inr e ↦
                  let (res, g) =
                    walk_ends fuel r.previous_response_id w1
                      (omega (arith, advance-depth id r w, h)) (omega (arith, d, h)) in
                  (res, rw (walk-after fuel id r w w1 f, e) g)
            ]
      ]

  -- What the loop gives: a failure, or what stands in the variables after the rows of a chain.
  abbrev pub Walked : String → Walk → ChainResolution → Type 0
  Walked id w res =
      ((res.error ≡ some invalid_client_request) × (res.items ≡ []))
      ⊎ ((rs : List ResponseRecord) × Chain id rs
          × Within id rs w
          × (w.res.depth + length rs ≤ limits.max_depth)
          × (res ≡ finish (after id rs w)))

  Walked-root :
      (id : String) (r : ResponseRecord) (w : Walk) (res : ChainResolution)
      → Entered str_or_empty truthy payload_size store ws limits id r w
      → root_of r ≡ true
      → res ≡ finish (moved id r w)
      → Walked id w res
  unfolding after Within
  Walked-root id r w res (_, d, g, i, t, s) e f =
      inr (r ∷ [], root id r g s e, (i, t, tt), omega (arith, d), f)

  Walked-child :
      (id : String) (r : ResponseRecord) (w : Walk) (res : ChainResolution)
      → Entered str_or_empty truthy payload_size store ws limits id r w
      → root_of r ≡ false
      → Walked r.previous_response_id (moved id r w) res
      → Walked id w res
  unfolding after Within
  Walked-child id r w res (_, d, g, i, t, s) e (inl f) = inl f
  Walked-child id r w res (_, d, g, i, t, s) e (inr (rs, c, within, k, f)) =
      inr (r ∷ rs, child id r rs g s e c, (i, t, within), omega (arith, k, advance-depth id r w), f)

  pub walk-Walked :
      (fuel : ℕ) (id : String) (w : Walk) (res : ChainResolution)
      → loop fuel id w ≡ some res
      → Walked id w res
  unfolding walk
  walk-Walked zero id w res h = absurd (ground (arith, h))
  walk-Walked (suc fuel) id w res h =
      elim (turn-cases str_or_empty truthy payload_size store ws limits id w) [
        | inl (bad, f, items, err) ↦
            let same : some bad ≡ some res = sym (walk-failed fuel id w bad f) ∙ h in
            let eq = some-injective res bad (sym same) in
            inl (ap (λ x. x.error) eq ∙ err, ap (λ x. x.items) eq ∙ items)
        | inr (r, entered, f) ↦
            let w1 = moved id r w in
            let g = sym (walk-after fuel id r w w1 f) ∙ h in
            elim (Bool-cases (root_of r)) [
              | inl e ↦
                  Walked-root id r w res entered e
                    (sym (some-injective (finish w1) res (rw e at g)))
              | inr e ↦
                  Walked-child id r w res entered e
                    (walk-Walked fuel r.previous_response_id w1 res (rw e at g))
            ]
      ]

  -- None of the chain's ids has been seen.
  abbrev pub New : String → List ResponseRecord → Walk → Type 0
  New id rs w = (k : String) → is_in k w.seen ≡ true → is_in k (ids id rs) ≡ false

  New-first :
      (id : String) (r : ResponseRecord) (rs : List ResponseRecord) (w : Walk)
      → New id (r ∷ rs) w
      → is_in id w.seen ≡ false
  New-first id r rs w new = elim (Bool-cases (is_in id w.seen)) [
    | inl h ↦ absurd (ground (arith, new id h, beq_refl ⦃e = string_eq⦄ id))
    | inr h ↦ h
  ]

  New-rest :
      (id : String) (r : ResponseRecord) (rs : List ResponseRecord) (w : Walk)
      → New id (r ∷ rs) w
      → is_in id (ids r.previous_response_id rs) ≡ false
      → New r.previous_response_id rs (moved id r w)
  unfolding advance enter
  New-rest id r rs w new h k seen = elim (Bool-cases (string_eq.beq id k)) [
    | inl e ↦
        ap (λ j. is_in j (ids r.previous_response_id rs)) (sym ((string_eq.beq_iff id k).0 e)) ∙ h
    | inr e ↦ let old = rw (is_in-add k id w.seen, e) at seen in rw e at (new k old)
  ]

  Entered-of :
      (id : String) (r : ResponseRecord) (rs : List ResponseRecord) (w : Walk)
      → New id (r ∷ rs) w
      → Within id (r ∷ rs) w
      → w.res.depth + length (r ∷ rs) ≤ limits.max_depth
      → store.get_response id ws ≡ some r
      → string_eq.beq r.previous_response_id id ≡ false
      → Entered str_or_empty truthy payload_size store ws limits id r w
  unfolding Within
  Entered-of id r rs w new (i, t, _) d g s = (New-first id r rs w new, omega (arith, d), g, i, t, s)

  Within-rest :
      (id : String) (r : ResponseRecord) (rs : List ResponseRecord) (w : Walk)
      → Within id (r ∷ rs) w
      → Within r.previous_response_id rs (moved id r w)
  unfolding Within
  Within-rest id r rs w (_, _, x) = x

  -- A chain whose rows stay within the limits, and whose ids are new, is walked to its end.
  pub walk_complete :
      (fuel : ℕ) (id : String) (rs : List ResponseRecord) (w : Walk)
      → Chain id rs
      → Within id rs w
      → New id rs w
      → w.res.depth + length rs ≤ limits.max_depth
      → length rs ≤ fuel
      → loop fuel id w ≡ some (finish (after id rs w))
  unfolding after
  walk_complete zero id _ w (root _ r g s e) within new d f = absurd (omega (arith, f))
  walk_complete zero id _ w (child _ r rs g s e c) within new d f = absurd (omega (arith, f))
  walk_complete (suc fuel) id _ w (root _ r g s e) within new d f =
      rw
        (
          walk-after fuel id r w (moved id r w) (
              turn-Entered str_or_empty truthy payload_size store ws limits id r w
                (Entered-of id r [] w new within d g s)),
          e,
        )
        refl
  walk_complete (suc fuel) id _ w (child _ r rs g s e c) within new d f =
      let fresh =
        child_is_new str_or_empty truthy payload_size store ws id r rs (child id r rs g s e c) c in
      let rest =
        walk_complete fuel r.previous_response_id rs (moved id r w) c (Within-rest id r rs w within)
          (New-rest id r rs w new fresh) (omega (arith, d, advance-depth id r w))
          (omega (arith, f)) in
      rw
        (
          walk-after fuel id r w (moved id r w) (
              turn-Entered str_or_empty truthy payload_size store ws limits id r w
                (Entered-of id r rs w new within d g s)),
          e,
        )
        rest
