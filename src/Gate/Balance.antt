-- ===== src/Gate/Balance.antt =====
-- No slot is lost or made (`src/zhongzhuan/proxy/concurrency.py`).
use zhongzhuan.Base.{
  ℕ, zero, suc, ◌+◌, ◌-◌, ◌≡◌, refl, sym, ap, ◌∙◌, List, [], ◌∷◌, leb, length, if◌then◌else◌, arith,
  Bool-cases, inl, inr,
}
use zhongzhuan.Base.Dict.{lookup-insert}
use zhongzhuan.Gate.{
  PoolRef, pool_eq, GateConfig, Gate, size_of, free_of, set_free, Phase, acquiring, holding,
  releasing, Request, Move, take, give_up, enter, release, put_back, take_slot, take_next,
  give_up_in, enter_in, release_in, put_back_next, move, Event, arrive_model, arrive_tool,
  arrive_background, close, moves, World, move_at, happen, run, new_gate,
}

-- How many slots of the pool are in the list.
abbrev pub slots : PoolRef → List PoolRef → ℕ
slots p [] = 0
slots p (q ∷ qs) = (if pool_eq.beq q p then 1 else 0) + slots p qs

-- How many slots of the pool the requests have.
abbrev pub held : PoolRef → List Request → ℕ
held p [] = 0
held p (r ∷ rs) = slots p r.acquired + held p rs

free_of-set_free :
    (p q : PoolRef) (n : ℕ) (g : Gate)
    → free_of (set_free p n g) q ≡ (if pool_eq.beq p q then n else free_of g q)
free_of-set_free p q n g = ground (arith, lookup-insert p q n g.free)

take_slot-balance :
    (p : PoolRef) (q : PoolRef) (qs : List PoolRef) (r : Request) (g : Gate)
    → let (r', g') = take_slot q qs r g in
      free_of g' p + slots p r'.acquired ≡ free_of g p + slots p r.acquired
take_slot-balance p q qs r g = elim (Bool-cases (leb (free_of g q) 0)) [
  | inl e ↦ rw e refl
  | inr e ↦
      let put = free_of-set_free q p (free_of g q - 1) g in
      rw (e, put) (ground (arith, e, pool_eq.beq_iff q p, ap (free_of g) {x = q} {y = p}))
]

put_back-balance :
    (p q : PoolRef) (qs : List PoolRef) (g : Gate)
    → free_of (set_free q (free_of g q + 1) g) p + slots p qs ≡ free_of g p + slots p (q ∷ qs)
put_back-balance p q qs g =
    rw (free_of-set_free q p (free_of g q + 1) g)
      (ground (arith, pool_eq.beq_iff q p, ap (free_of g) {x = q} {y = p}))

take_next-balance :
    (p : PoolRef) (phase : Phase) (ps : List PoolRef) (r : Request) (g : Gate)
    → let (r', g') = take_next phase ps r g in
      free_of g' p + slots p r'.acquired ≡ free_of g p + slots p r.acquired
take_next-balance p acquiring (q ∷ qs) r g = take_slot-balance p q qs r g
take_next-balance p acquiring [] r g = refl
take_next-balance p holding ps r g = refl
take_next-balance p releasing ps r g = refl

put_back_next-balance :
    (p : PoolRef) (phase : Phase) (ps : List PoolRef) (r : Request) (g : Gate)
    → r.acquired ≡ ps
    → let (r', g') = put_back_next phase ps r g in
      free_of g' p + slots p r'.acquired ≡ free_of g p + slots p r.acquired
put_back_next-balance p releasing (q ∷ qs) r g h =
    put_back-balance p q qs g ∙ ap (λ l. free_of g p + slots p l) (sym h)
put_back_next-balance p releasing [] r g h = refl
put_back_next-balance p acquiring ps r g h = refl
put_back_next-balance p holding ps r g h = refl

give_up_in-acquired : (phase : Phase) (r : Request) → (give_up_in phase r).acquired ≡ r.acquired
give_up_in-acquired acquiring r = refl
give_up_in-acquired holding r = refl
give_up_in-acquired releasing r = refl

enter_in-acquired :
    (phase : Phase) (ps : List PoolRef) (r : Request) → (enter_in phase ps r).acquired ≡ r.acquired
enter_in-acquired acquiring [] r = refl
enter_in-acquired acquiring (p ∷ ps) r = refl
enter_in-acquired holding ps r = refl
enter_in-acquired releasing ps r = refl

release_in-acquired : (phase : Phase) (r : Request) → (release_in phase r).acquired ≡ r.acquired
release_in-acquired acquiring r = refl
release_in-acquired holding r = refl
release_in-acquired releasing r = refl

release_twice :
    (phase : Phase) (wanted acquired : List PoolRef)
    → let r1 = release_in phase (record { wanted = wanted; acquired = acquired; phase = phase }) in
      release_in r1.phase r1 ≡ r1
release_twice holding wanted acquired = refl
release_twice acquiring wanted acquired = refl
release_twice releasing wanted acquired = refl

-- A move of a request shifts slots between it and the gate.
move-balance :
    (p : PoolRef) (m : Move) (r : Request) (g : Gate)
    → let (r', g') = move m r g in
      free_of g' p + slots p r'.acquired ≡ free_of g p + slots p r.acquired
unfolding move
move-balance p take r g = take_next-balance p r.phase r.wanted r g
move-balance p give_up r g = ap (λ l. free_of g p + slots p l) (give_up_in-acquired r.phase r)
move-balance p enter r g = ap (λ l. free_of g p + slots p l) (enter_in-acquired r.phase r.wanted r)
move-balance p release r g = ap (λ l. free_of g p + slots p l) (release_in-acquired r.phase r)
move-balance p put_back r g = put_back_next-balance p r.phase r.acquired r g refl

move_at-balance :
    (p : PoolRef) (i : ℕ) (m : Move) (rs : List Request) (g : Gate)
    → let (rs', g') = move_at i m rs g in free_of g' p + held p rs' ≡ free_of g p + held p rs
move_at-balance p i m [] g = refl
move_at-balance p zero m (r ∷ rs) g = omega (arith, move-balance p m r g)
move_at-balance p (suc i) m (r ∷ rs) g = omega (arith, move_at-balance p i m rs g)

happen-balance :
    (p : PoolRef) (e : Event) (w : World)
    → free_of (happen e w).0 p + held p (happen e w).1 ≡ free_of w.0 p + held p w.1
unfolding happen
happen-balance p (arrive_model tenant model) (g, rs) = elim (Bool-cases g.closed) [
  | inl e ↦ rw e refl
  | inr e ↦ rw e (omega arith)
]
happen-balance p arrive_tool (g, rs) = omega arith
happen-balance p arrive_background (g, rs) = omega arith
happen-balance p close (g, rs) = refl
happen-balance p (moves i m) (g, rs) = move_at-balance p i m rs g

run-balance :
    (p : PoolRef) (es : List Event) (w : World)
    → free_of (run es w).0 p + held p (run es w).1 ≡ free_of w.0 p + held p w.1
unfolding run
run-balance p [] w = refl
run-balance p (e ∷ es) w = run-balance p es (happen e w) ∙ happen-balance p e w

-- Whatever requests arrive at a new gate, and in whatever order they take slots, give up and give
-- them back, the free slots of each pool and those that requests have are as many as the pool's size.
pub run-new_gate :
    (c : GateConfig) (es : List Event) (p : PoolRef)
    → let (g, rs) = run es (new_gate c, []) in free_of g p + held p rs ≡ size_of c p
unfolding new_gate
run-new_gate c es p = run-balance p es (new_gate c, []) ∙ omega arith

-- Giving slots back, one after the other.
unfoldable pub put_back_all : ℕ → Request → Gate → Request × Gate
put_back_all zero r g = (r, g)
put_back_all (suc n) r g = let (r', g') = move put_back r g in put_back_all n r' g'

abbrev releasing_with : List PoolRef → List PoolRef → Request
releasing_with wanted ps = record { wanted = wanted; acquired = ps; phase = releasing }

releasing_with-lem :
    (p : PoolRef) (wanted ps : List PoolRef) (g : Gate)
    → let (r', g') = put_back_all (length ps) (releasing_with wanted ps) g in
      (r'.acquired ≡ []) × (free_of g' p ≡ free_of g p + slots p ps)
unfolding put_back_all move
releasing_with-lem p wanted [] g = (refl, omega arith)
releasing_with-lem p wanted (q ∷ ps) g =
    let (none_left, back) = releasing_with-lem p wanted ps (set_free q (free_of g q + 1) g) in
    let one = put_back-balance p q ps g in (none_left, omega (arith, back, one))

-- A request that gives up while it acquires, after any part of its slots, can give back as many slots
-- as it has taken; it then has none left, and each pool has those that it took back.
pub move-put_back_all :
    (p : PoolRef) (wanted ps : List PoolRef) (g : Gate)
    → let (r1, g1) =
        move give_up (record { wanted = wanted; acquired = ps; phase = acquiring }) g in
      let (r2, g2) = put_back_all (length ps) r1 g1 in
      (r2.acquired ≡ []) × (free_of g2 p ≡ free_of g p + slots p ps)
unfolding move
move-put_back_all p wanted ps g = releasing_with-lem p wanted ps g

-- A second release of a hold changes nothing.
pub move-release :
    (r : Request) (g : Gate) → let (r1, g1) = move release r g in move release r1 g1 ≡ (r1, g1)
unfolding move
move-release r g = ap (λ k. (k, g)) (release_twice r.phase r.wanted r.acquired)
