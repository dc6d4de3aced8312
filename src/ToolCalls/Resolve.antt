-- ===== src/ToolCalls/Resolve.antt =====
-- A fragment finds the call that an earlier one with the same keys made (`tool_accumulator.py`).
use zhongzhuan.Base.{
  [], ℕ, zero, suc, ◌≡◌, refl, ap, Option, none, some, List, ◌∷◌, length, inl, inr, Option-cases,
}
use zhongzhuan.Base.Eq.{Eq, nat_eq, text_eq, beq_refl}
use zhongzhuan.Base.Dict.{Dict, lookup, insert, lookup-insert}
use zhongzhuan.ToolCalls.{Text, Accumulator, Collection, update_at, get, bind_to, create, ensure}

lookup-insert_same {ℓ κ} :
    {K : Type ℓ} {V : Type κ} ⦃e : Eq K⦄ (k : K) (v : V) (d : Dict K V)
    → lookup k (insert k v d) ≡ some v
lookup-insert_same k v d = rw (lookup-insert k k v d, beq_refl k) refl

-- A fragment has a key: a call id or a source index.
abbrev pub HasKey : Text → Option ℕ → Type 0
HasKey [] none = ⊥
HasKey [] (some i) = Unit
HasKey (k ∷ id) source_index = Unit

found-get :
    (r : ℕ) (call_id : Text) (source_index : Option ℕ) (c : Collection)
    → get call_id source_index c ≡ some r
    → get call_id source_index (bind_to r call_id c) ≡ some r
unfolding get
found-get r [] source_index c h = h
found-get r (k ∷ id) source_index c h = rw (lookup-insert_same (k ∷ id) r c.tools_by_call_id) refl

created-get :
    (n : ℕ) (call_id : Text) (source_index : Option ℕ) (c : Collection)
    → HasKey call_id source_index
    → let (r, c') = create n call_id source_index c in get call_id source_index c' ≡ some r
unfolding get
created-get n [] none c h = absurd h
created-get n [] (some i) c h = lookup-insert_same i (length c.heap) c.tools_by_source_index
created-get n (k ∷ id) source_index c h =
    rw (lookup-insert_same (k ∷ id) (length c.heap) c.tools_by_call_id) refl

ensure-found :
    (n r : ℕ) (call_id : Text) (source_index : Option ℕ) (c : Collection)
    → get call_id source_index c ≡ some r
    → ensure n call_id source_index c ≡ (r, bind_to r call_id c)
unfolding ensure
ensure-found n r call_id source_index c h = rw h refl

ensure-none :
    (n : ℕ) (call_id : Text) (source_index : Option ℕ) (c : Collection)
    → get call_id source_index c ≡ none
    → ensure n call_id source_index c ≡ create n call_id source_index c
unfolding ensure
ensure-none n call_id source_index c h = rw h refl

-- The call of a fragment that has a key is found by that key from then on.
pub get-ensure :
    (n : ℕ) (call_id : Text) (source_index : Option ℕ) (c : Collection)
    → HasKey call_id source_index
    → let (r, c') = ensure n call_id source_index c in get call_id source_index c' ≡ some r
get-ensure n call_id source_index c h = elim (Option-cases (get call_id source_index c)) [
  | inl e ↦ rw (ensure-none n call_id source_index c e) (created-get n call_id source_index c h)
  | inr (r, e) ↦
      rw (ensure-found n r call_id source_index c e) (found-get r call_id source_index c e)
]

length-update_at :
    (r : ℕ) (f : Accumulator → Accumulator) (h : List Accumulator)
    → length (update_at r f h) ≡ length h
length-update_at r f [] = refl
length-update_at zero f (a ∷ h) = refl
length-update_at (suc r) f (a ∷ h) = ap suc (length-update_at r f h)

length-bind_to :
    (r : ℕ) (call_id : Text) (c : Collection) → length (bind_to r call_id c).heap ≡ length c.heap
length-bind_to r [] c = refl
length-bind_to r (k ∷ id) c = length-update_at r _ c.heap

-- A further fragment with the same key belongs to the same call, whatever output index it comes with,
-- and makes no new one.
pub ensure-ensure :
    (m n : ℕ) (call_id : Text) (source_index : Option ℕ) (c : Collection)
    → HasKey call_id source_index
    → let (r, c') = ensure n call_id source_index c in
      let (r', c'') = ensure m call_id source_index c' in
      (r' ≡ r) × (length c''.heap ≡ length c'.heap)
ensure-ensure m n call_id source_index c h =
    let (r, c') = ensure n call_id source_index c in
    rw (ensure-found m r call_id source_index c' (get-ensure n call_id source_index c h))
      (refl, length-bind_to r call_id c')
