-- ===== src/Scheduler.antt =====
-- The choice of a model in a group, `pick_group_model` of `src/zhongzhuan/proxy/scheduler.py`.
-- The module's two dictionaries of counters are the state `Counters`.
pub mod Swrr
pub mod Failover
pub mod Fairness
pub mod Sums
pub mod Shares
use zhongzhuan.Base.{
  [], ℕ, ◌+◌, ◌%◌, max, Bool, false, Option, none, some, List, ◌∷◌, length, get_elem?, leb, ◌==◌,
  if◌then◌else◌,
}
use zhongzhuan.Base.Eq.{nat_eq}
use zhongzhuan.Base.Int.{ℤ}
use zhongzhuan.Base.Dict.{Dict, lookup, lookup_or, insert, erase}
use Swrr.{Candidate, swrr_pick}

pub data Strategy : Type 0 where
  failover round_robin weighted other_strategy : Strategy

-- `class GroupMember`
pub record Member : Type 0 where
  pub model_id : ℕ
  pub weight : ℕ
  pub ord : ℕ

-- `class Group`, but for its name and a flag that the choice does not read.
pub record Group : Type 0 where
  pub id : ℕ
  pub strategy : Strategy
  pub members : List Member

-- `class ModelHealth`; the penalty is a float of type `P`.
pub record ModelHealth (P : Type 0) : Type 0 where
  pub model_id : ℕ
  pub available : Bool
  pub weight_penalty : P

-- `_round_robin_counters` and `_swrr_state`.
pub record Counters : Type 0 where
  pub round_robin_counters : Dict ℕ ℕ
  pub swrr_state : Dict ℕ (Dict ℕ ℤ)

-- `sorted(members, key=lambda x: x.ord)`, which is stable.
abbrev pub insert_member : Member → List Member → List Member
insert_member m [] = m ∷ []
insert_member m (n ∷ ms) = if leb m.ord n.ord then m ∷ n ∷ ms else n ∷ insert_member m ms

unfoldable pub sort_members : List Member → List Member
sort_members [] = []
sort_members (m ∷ ms) = insert_member m (sort_members ms)

-- `m.model_id == last_model_id`
abbrev pub is_last : Option ℕ → Member → Bool
is_last none m = false
is_last (some i) m = m.model_id == i

module _ {P : Type 0} where
  abbrev if_available : Option (ModelHealth P) → Option (ModelHealth P)
  if_available none = none
  if_available (some h) = if h.available then some h else none

  -- `h = models.get(model_id)`, under `if h and h.available`.
  unfoldable pub usable : Dict ℕ (ModelHealth P) → Member → Option (ModelHealth P)
  usable models m = if_available (lookup m.model_id models)

  abbrev cons_usable : Option (ModelHealth P) → List (ModelHealth P) → List (ModelHealth P)
  cons_usable none hs = hs
  cons_usable (some h) hs = h ∷ hs

  abbrev first_some : Option (ModelHealth P) → Option (ModelHealth P) → Option (ModelHealth P)
  first_some none h = h
  first_some (some h) _ = some h

  -- The first usable member of the sorted list.
  unfoldable pub first_usable : Dict ℕ (ModelHealth P) → List Member → Option (ModelHealth P)
  first_usable models [] = none
  first_usable models (m ∷ ms) = first_some (usable models m) (first_usable models ms)

  unfoldable pub usable_but_last :
      Dict ℕ (ModelHealth P) → Option ℕ → List Member → List (ModelHealth P)
  usable_but_last models last [] = []
  usable_but_last models last (m ∷ ms) =
      let rest = usable_but_last models last ms in
      if is_last last m then rest else cons_usable (usable models m) rest

  -- All usable members, where leaving out the last one leaves none.
  abbrev pub or_all :
      Dict ℕ (ModelHealth P) → List Member → List (ModelHealth P) → List (ModelHealth P)
  or_all models ms [] = usable_but_last models none ms
  or_all models ms (h ∷ hs) = h ∷ hs

  -- The turn of a group among its candidates; `%` by 0 is never reached.
  abbrev pub take_turn : ℕ → List (ModelHealth P) → Counters → Option (ModelHealth P) × Counters
  take_turn group [] s = (none, s)
  take_turn group (h ∷ hs) s =
      let idx = lookup_or group 0 s.round_robin_counters % length (h ∷ hs) in
      (
        get_elem? (h ∷ hs) idx,
        record s { round_robin_counters = insert group (idx + 1) s.round_robin_counters },
      )

  abbrev cons_candidate :
      (ℕ → P → ℕ)
      → Member
      → Option (ModelHealth P)
      → List (Candidate (ModelHealth P))
      → List (Candidate (ModelHealth P))
  cons_candidate discounted m none cs = cs
  cons_candidate discounted m (some h) cs =
      (m.model_id, h, max 1 (discounted m.weight h.weight_penalty)) ∷ cs

  -- The weights; `discounted w p` is `int(w * p + 0.5)` in floats.
  unfoldable pub weighted_candidates :
      (ℕ → P → ℕ) → Dict ℕ (ModelHealth P) → List Member → List (Candidate (ModelHealth P))
  weighted_candidates discounted models [] = []
  weighted_candidates discounted models (m ∷ ms) =
      cons_candidate discounted m (usable models m) (weighted_candidates discounted models ms)

  abbrev pub pick_weighted :
      ℕ → List (Candidate (ModelHealth P)) → Counters → Option (ModelHealth P) × Counters
  pick_weighted group [] s = (none, s)
  pick_weighted group (c ∷ cs) s =
      let (h, state) = swrr_pick c cs (lookup_or group [] s.swrr_state) in
      (some h, record s { swrr_state = insert group state s.swrr_state })

  abbrev pub pick_by :
      (ℕ → P → ℕ)
      → Strategy
      → Group
      → Dict ℕ (ModelHealth P)
      → Option ℕ
      → Counters
      → Option (ModelHealth P) × Counters
  pick_by discounted failover g models last s = (first_usable models (sort_members g.members), s)
  pick_by discounted round_robin g models last s =
      take_turn g.id (or_all models g.members (usable_but_last models last g.members)) s
  pick_by discounted weighted g models last s =
      pick_weighted g.id (weighted_candidates discounted models g.members) s
  pick_by discounted other_strategy g models last s = (none, s)

  abbrev pub pick_from :
      (ℕ → P → ℕ)
      → List Member
      → Group
      → Dict ℕ (ModelHealth P)
      → Option ℕ
      → Counters
      → Option (ModelHealth P) × Counters
  pick_from discounted [] g models last s = (
    none,
    record {
      round_robin_counters = erase g.id s.round_robin_counters;
      swrr_state = erase g.id s.swrr_state;
    },
  )
  pick_from discounted (m ∷ ms) g models last s = pick_by discounted g.strategy g models last s

  unfoldable pub pick_group_model :
      (ℕ → P → ℕ)
      → Group
      → Dict ℕ (ModelHealth P)
      → Option ℕ
      → Counters
      → Option (ModelHealth P) × Counters
  pick_group_model discounted g models last s = pick_from discounted g.members g models last s
