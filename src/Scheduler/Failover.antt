-- ===== src/Scheduler/Failover.antt =====
-- The failover choice of `pick_group_model` (`src/zhongzhuan/proxy/scheduler.py`).
use zhongzhuan.Base.{
  [], ℕ, ◌≤◌, ◌≡◌, refl, Option, none, some, List, ◌∷◌, leb, arith, Bool-cases, Option-cases, inl,
  inr, ◌⊎◌, All,
}
use zhongzhuan.Base.Dict.{Dict}
use zhongzhuan.Scheduler.{
  Counters, Group, failover, pick_group_model, Member, ModelHealth, usable, first_usable,
  insert_member, sort_members,
}

abbrev pub IsSorted : List Member → Type 0
IsSorted [] = Unit
IsSorted (m ∷ ms) = All (λ (n : Member). m.ord ≤ n.ord) ms × IsSorted ms

All-weaken :
    (a b : ℕ) (ms : List Member)
    → a ≤ b
    → All (λ (n : Member). b ≤ n.ord) ms
    → All (λ (n : Member). a ≤ n.ord) ms
All-weaken a b [] h p = tt
All-weaken a b (m ∷ ms) h p = (let q = p.0 in omega arith, All-weaken a b ms h p.1)

All-insert_member :
    (a : ℕ) (m : Member) (ms : List Member)
    → a ≤ m.ord
    → All (λ (n : Member). a ≤ n.ord) ms
    → All (λ (n : Member). a ≤ n.ord) (insert_member m ms)
All-insert_member a m [] h p = (h, tt)
All-insert_member a m (n ∷ ms) h p = elim (Bool-cases (leb m.ord n.ord)) [
  | inl e ↦ rw e (h, p)
  | inr e ↦ rw e (p.0, All-insert_member a m ms h p.1)
]

insert_member-IsSorted :
    (m : Member) (ms : List Member) → IsSorted ms → IsSorted (insert_member m ms)
insert_member-IsSorted m [] s = (tt, tt)
insert_member-IsSorted m (n ∷ ms) s = elim (Bool-cases (leb m.ord n.ord)) [
  | inl e ↦
      let le : m.ord ≤ n.ord = ground (arith, e) in rw e ((le, All-weaken m.ord n.ord ms le s.0), s)
  | inr e ↦
      let le : n.ord ≤ m.ord = ground (arith, e) in
      rw e (All-insert_member n.ord m ms le s.0, insert_member-IsSorted m ms s.1)
]

pub sort_members-IsSorted : (ms : List Member) → IsSorted (sort_members ms)
unfolding sort_members
sort_members-IsSorted [] = tt
sort_members-IsSorted (m ∷ ms) =
    insert_member-IsSorted m (sort_members ms) (sort_members-IsSorted ms)

abbrev pub MemberOf : Member → List Member → Type 0
MemberOf m [] = ⊥
MemberOf m (n ∷ ms) = (m ≡ n) ⊎ MemberOf m ms

module _ {P : Type 0} where
  -- A member of the list has the health `h`, and no usable member comes before it in the order.
  abbrev pub HasLeast : Dict ℕ (ModelHealth P) → List Member → ModelHealth P → Type 0
  HasLeast models ms h =
      (m : Member) × MemberOf m ms
      × (usable models m ≡ some h)
      × All (λ (n : Member). (usable models n ≡ none) ⊎ (m.ord ≤ n.ord)) ms

  -- The right answer of the failover strategy.
  abbrev pub Answers : Dict ℕ (ModelHealth P) → List Member → Option (ModelHealth P) → Type 0
  Answers models ms none = All (λ (n : Member). usable models n ≡ none) ms
  Answers models ms (some h) = HasLeast models ms h

module _ {P : Type 0} (models : Dict ℕ (ModelHealth P)) where
  Sorted-bound :
      (m : Member) (ms : List Member)
      → All (λ (n : Member). m.ord ≤ n.ord) ms
      → All (λ (n : Member). (usable models n ≡ none) ⊎ (m.ord ≤ n.ord)) ms
  Sorted-bound m [] a = tt
  Sorted-bound m (n ∷ ms) a = (inr a.0, Sorted-bound m ms a.1)

  Answers-cons :
      (m : Member) (ms : List Member)
      → usable models m ≡ none
      → (o : Option (ModelHealth P)) → Answers models ms o
      → Answers models (m ∷ ms) o
  Answers-cons m ms e none a = (e, a)
  Answers-cons m ms e (some h) (k, inside, good, least) = (k, inr inside, good, (inl e, least))

  first_usable-Answers :
      (ms : List Member) → IsSorted ms → Answers models ms (first_usable models ms)
  unfolding first_usable
  first_usable-Answers [] s = tt
  first_usable-Answers (m ∷ ms) s = elim (Option-cases (usable models m)) [
    | inl e ↦ rw e (Answers-cons m ms e (first_usable models ms) (first_usable-Answers ms s.1))
    | inr (h, e) ↦ rw e (m, inl refl, e, (inr (omega arith), Sorted-bound m ms s.0))
  ]

module _ (Q : Member → Type 0) where
  All-insert_back : (m : Member) (ms : List Member) → All Q (insert_member m ms) → Q m × All Q ms
  All-insert_back m [] a = a
  All-insert_back m (n ∷ ms) a = elim (Bool-cases (leb m.ord n.ord)) [
    | inl e ↦ rw e at a
    | inr e ↦
        let b : Q n × All Q (insert_member m ms) = rw e at a in
        let (p, q) = All-insert_back m ms b.1 in (p, (b.0, q))
  ]

  All-sort_back : (ms : List Member) → All Q (sort_members ms) → All Q ms
  unfolding sort_members
  All-sort_back [] a = tt
  All-sort_back (m ∷ ms) a =
      let (p, q) = All-insert_back m (sort_members ms) a in (p, All-sort_back ms q)

MemberOf-insert :
    (k m : Member) (ms : List Member) → MemberOf k (insert_member m ms) → (k ≡ m) ⊎ MemberOf k ms
MemberOf-insert k m [] a = a
MemberOf-insert k m (n ∷ ms) a = elim (Bool-cases (leb m.ord n.ord)) [
  | inl e ↦ rw e at a
  | inr e ↦
      let b : (k ≡ n) ⊎ MemberOf k (insert_member m ms) = rw e at a in
      elim b [
        | inl p ↦ inr (inl p)
        | inr q ↦ elim (MemberOf-insert k m ms q) [ inl p ↦ inl p | inr r ↦ inr (inr r) ]
      ]
]

MemberOf-sort : (k : Member) (ms : List Member) → MemberOf k (sort_members ms) → MemberOf k ms
unfolding sort_members
MemberOf-sort k [] a = a
MemberOf-sort k (m ∷ ms) a = elim (MemberOf-insert k m (sort_members ms) a) [
  | inl p ↦ inl p
  | inr q ↦ inr (MemberOf-sort k ms q)
]

Answers-sorted :
    {P : Type 0} (models : Dict ℕ (ModelHealth P)) (ms : List Member) (o : Option (ModelHealth P))
    → Answers models (sort_members ms) o
    → Answers models ms o
Answers-sorted models ms none a = All-sort_back (λ n. usable models n ≡ none) ms a
Answers-sorted models ms (some h) (m, inside, good, least) = (
  m,
  MemberOf-sort m ms inside,
  good,
  All-sort_back (λ n. (usable models n ≡ none) ⊎ (m.ord ≤ n.ord)) ms least,
)

-- The failover strategy gives the health of a usable member of the group with the least order, and
-- none if and only if no member is usable; it changes no counter.
pub pick_group_model-failover :
    {P : Type 0} (discounted : ℕ → P → ℕ) (id : ℕ) (m : Member) (ms : List Member)
    (models : Dict ℕ (ModelHealth P)) (last : Option ℕ) (s : Counters)
    → let g : Group = record { id = id; strategy = failover; members = m ∷ ms } in
      let (chosen, s') = pick_group_model discounted g models last s in
      Answers models (m ∷ ms) chosen × (s' ≡ s)
unfolding pick_group_model
pick_group_model-failover discounted id m ms models last s = (
  Answers-sorted models (m ∷ ms) _
      (first_usable-Answers models (sort_members (m ∷ ms)) (sort_members-IsSorted (m ∷ ms))),
  refl,
)
