-- ===== src/ToolCalls/Identity.antt =====
-- The identity that a tool call is published under (`tool_accumulator.py`).
use zhongzhuan.Base.{
  [], ℕ, zero, suc, ◌≡◌, refl, sym, ap, ◌∙◌, Bool, true, false, if◌then◌else◌, Option, none, some,
  List, ◌∷◌, ◌++◌, append-nil, append_assoc, map,
}
use zhongzhuan.Base.Text.{codes, strip}
use zhongzhuan.Base.Json.{Json}
use zhongzhuan.Base.Decimal.{decimal, decimal-injective, append-cancel}
use zhongzhuan.ToolCalls.{
  Text, Accumulator, Collection, bind_call_id, append_name, replace_name, append_arguments,
  validate_arguments, mark_item_done, function_call_item_id, update_at, get, bind_to,
  new_accumulator, found_or_created, ensure, bind_found, finalize_call_id, by_source, is_accepted,
}

-- A change of one call, of a collection, or of the call that a reference names.
pub data Change : Type 0 where
  bind : Text → Change
  extend_name : Text → Change
  set_name : Text → Change
  extend_arguments : Text → Change
  validate : Bool → Change
  item_done : Change

pub data Op : Type 0 where
  ensured : ℕ → Text → Option ℕ → Op
  finalized : Text → Option ℕ → Op
  changed : ℕ → Change → Op

module _ (loads : Text → Option Json) where
  unfoldable pub apply_change : Change → Accumulator → Accumulator
  apply_change (bind call_id) a = bind_call_id call_id a
  apply_change (extend_name s) a = append_name s a
  apply_change (set_name s) a = replace_name s a
  apply_change (extend_arguments s) a = append_arguments s a
  apply_change (validate require_object) a = (validate_arguments loads require_object a).1
  apply_change item_done a = mark_item_done a

  unfoldable pub apply : Op → Collection → Collection
  apply (ensured output_index call_id source_index) c =
      (ensure output_index call_id source_index c).1
  apply (finalized call_id source_index) c = finalize_call_id call_id source_index c
  apply (changed r change) c = record c { heap = update_at r (apply_change change) c.heap }

  unfoldable pub apply_all : List Op → Collection → Collection
  apply_all [] c = c
  apply_all (o ∷ os) c = apply_all os (apply o c)

-- What the client has been told of a call.
abbrev pub identity : Accumulator → ℕ × Text
identity a = (a.output_index, a.item_id)

abbrev pub identities : Collection → List (ℕ × Text)
identities c = map identity c.heap

identities-update_at :
    (r : ℕ) (f : Accumulator → Accumulator) (h : List Accumulator)
    → ((a : Accumulator) → identity (f a) ≡ identity a)
    → map identity (update_at r f h) ≡ map identity h
identities-update_at r f [] same = refl
identities-update_at zero f (a ∷ h) same = ap (λ i. i ∷ map identity h) (same a)
identities-update_at (suc r) f (a ∷ h) same =
    ap (λ is. identity a ∷ is) (identities-update_at r f h same)

pub identities-bind_to :
    (r : ℕ) (call_id : Text) (c : Collection) → identities (bind_to r call_id c) ≡ identities c
unfolding bind_call_id
identities-bind_to r [] c = refl
identities-bind_to r (k ∷ id) c = identities-update_at r (bind_call_id (k ∷ id)) c.heap (λ a. refl)

map-snoc :
    (h : List Accumulator) (a : Accumulator)
    → map identity (h ++ a ∷ []) ≡ map identity h ++ identity a ∷ []
map-snoc [] a = refl
map-snoc (b ∷ h) a = ap (λ is. identity b ∷ is) (map-snoc h a)

-- The identities that an operation adds: each is made from its output index.
abbrev pub made_from : Text → ℕ → ℕ × Text
made_from response_id n = (n, function_call_item_id response_id n)

pub Extends : Text → List (ℕ × Text) → List (ℕ × Text) → Type 0
Extends response_id old new = (ns : List ℕ) × (new ≡ old ++ map (made_from response_id) ns)

Extends-same : (rid : Text) (old new : List (ℕ × Text)) → new ≡ old → Extends rid old new
unfolding Extends
Extends-same rid old new h = ([], h ∙ sym (append-nil old))

identity-validated :
    (ok : Bool) (a : Accumulator)
    → identity (if ok then record a { arguments_done = true } else a) ≡ identity a
identity-validated true a = refl
identity-validated false a = refl

identity-change :
    (loads : Text → Option Json) (change : Change) (a : Accumulator)
    → identity (apply_change loads change a) ≡ identity a
unfolding apply_change bind_call_id append_name append_arguments validate_arguments mark_item_done
    replace_name
identity-change loads (bind s) a = refl
identity-change loads (extend_name s) a = refl
identity-change loads (set_name []) a = refl
identity-change loads (set_name (k ∷ s)) a = refl
identity-change loads (extend_arguments s) a = refl
identity-change loads (validate b) a =
    identity-validated (is_accepted loads b (strip a.arguments)) a
identity-change loads item_done a = refl

found_or_created-Extends :
    (found : Option ℕ) (n : ℕ) (call_id : Text) (source_index : Option ℕ) (c : Collection)
    → Extends c.response_id
        (identities c)
        (identities (found_or_created found n call_id source_index c).1)
unfolding Extends
found_or_created-Extends (some r) n call_id source_index c =
    Extends-same c.response_id _ _ (identities-bind_to r call_id c)
found_or_created-Extends none n call_id source_index c =
    (n ∷ [], map-snoc c.heap (new_accumulator c.response_id n call_id source_index))

bind_found-Extends :
    (found : Option ℕ) (call_id : Text) (c : Collection)
    → Extends c.response_id (identities c) (identities (bind_found found call_id c))
bind_found-Extends none call_id c = Extends-same c.response_id _ _ refl
bind_found-Extends (some r) call_id c =
    Extends-same c.response_id _ _ (identities-bind_to r call_id c)

pub apply-Extends :
    (loads : Text → Option Json) (o : Op) (c : Collection)
    → Extends c.response_id (identities c) (identities (apply loads o c))
unfolding apply ensure finalize_call_id
apply-Extends loads (ensured n call_id source_index) c =
    found_or_created-Extends (get call_id source_index c) n call_id source_index c
apply-Extends loads (finalized call_id source_index) c =
    bind_found-Extends (by_source source_index c) call_id c
apply-Extends loads (changed r change) c =
    Extends-same c.response_id _ _
      (identities-update_at r (apply_change loads change) c.heap (identity-change loads change))

response_id-bind_to :
    (r : ℕ) (call_id : Text) (c : Collection) → (bind_to r call_id c).response_id ≡ c.response_id
response_id-bind_to r [] c = refl
response_id-bind_to r (k ∷ id) c = refl

response_id-bind_found :
    (found : Option ℕ) (call_id : Text) (c : Collection)
    → (bind_found found call_id c).response_id ≡ c.response_id
response_id-bind_found none call_id c = refl
response_id-bind_found (some r) call_id c = response_id-bind_to r call_id c

response_id-found_or_created :
    (found : Option ℕ) (n : ℕ) (call_id : Text) (source_index : Option ℕ) (c : Collection)
    → (found_or_created found n call_id source_index c).1.response_id ≡ c.response_id
response_id-found_or_created none n call_id source_index c = refl
response_id-found_or_created (some r) n call_id source_index c = response_id-bind_to r call_id c

response_id-apply :
    (loads : Text → Option Json) (o : Op) (c : Collection)
    → (apply loads o c).response_id ≡ c.response_id
unfolding apply ensure finalize_call_id
response_id-apply loads (ensured n call_id source_index) c =
    response_id-found_or_created (get call_id source_index c) n call_id source_index c
response_id-apply loads (finalized call_id source_index) c =
    response_id-bind_found (by_source source_index c) call_id c
response_id-apply loads (changed r change) c = refl

map-append :
    (rid : Text) (ns ms : List ℕ)
    → map (made_from rid) (ns ++ ms) ≡ map (made_from rid) ns ++ map (made_from rid) ms
map-append rid [] ms = refl
map-append rid (n ∷ ns) ms = ap (λ is. made_from rid n ∷ is) (map-append rid ns ms)

Extends-trans :
    (rid : Text) (a b c : List (ℕ × Text)) → Extends rid a b → Extends rid b c → Extends rid a c
unfolding Extends
Extends-trans rid a b c (ns, p) (ms, q) = (
  ns ++ ms,
  q
      ∙ ap (λ l. l ++ map (made_from rid) ms) p
      ∙ append_assoc a (map (made_from rid) ns) (map (made_from rid) ms)
      ∙ ap (λ l. a ++ l) (sym (map-append rid ns ms)),
)

Extends-cast :
    (rid rid' : Text) (a b : List (ℕ × Text)) → rid' ≡ rid → Extends rid' a b → Extends rid a b
Extends-cast rid rid' a b e h = rw e at h

-- Whatever is done to a collection and its calls, each call keeps the output index and the item id
-- that it was created with, and every new call gets an item id made from the response and its index.
pub apply_all-Extends :
    (loads : Text → Option Json) (os : List Op) (c : Collection)
    → Extends c.response_id (identities c) (identities (apply_all loads os c))
unfolding apply_all
apply_all-Extends loads [] c = Extends-same c.response_id _ _ refl
apply_all-Extends loads (o ∷ os) c =
    let c' = apply loads o c in
    Extends-trans c.response_id (identities c) (identities c') (identities (apply_all loads os c'))
      (apply-Extends loads o c)
      (Extends-cast c.response_id c'.response_id (identities c')
        (identities (apply_all loads os c')) (response_id-apply loads o c)
        (apply_all-Extends loads os c'))

-- Two calls of one response have the same item id only if they have the same output index.
pub function_call_item_id-injective :
    (response_id : Text) (m n : ℕ)
    → function_call_item_id response_id m ≡ function_call_item_id response_id n
    → m ≡ n
unfolding function_call_item_id
function_call_item_id-injective response_id m n h = decimal-injective m n (
    append-cancel (codes "_") (decimal m) (decimal n) (
      append-cancel response_id (codes "_" ++ decimal m) (codes "_" ++ decimal n) (
        append-cancel (codes "fc_") (response_id ++ (codes "_" ++ decimal m))
          (response_id ++ (codes "_" ++ decimal n)) h)))
