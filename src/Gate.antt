-- ===== src/Gate.antt =====
-- The concurrency gate, `src/zhongzhuan/proxy/concurrency.py`: pools of slots, and requests that take
-- their slots one by one. Every `await` lets other requests run, so a request is a state of its own,
-- and a run is a sequence of moves of the requests, in any order. When a waiting request gives up, by
-- a timeout or a cancellation, is a move too: the clock and the order of wake-ups are left open.
pub mod Balance
use zhongzhuan.Base.{
  ℕ, zero, suc, ◌+◌, ◌-◌, String, Bool, true, false, List, [], ◌∷◌, ◌++◌, ◌↔◌, ◌≡◌, refl, leb,
  if◌then◌else◌, arith,
}
use zhongzhuan.Base.Eq.{Eq, string_eq}
use zhongzhuan.Base.Dict.{Dict, lookup_or, insert}

-- The pools of a gate; those of tenants and models are made when they are first asked for.
pub data PoolRef : Type 0 where
  global_pool tool_pool background_pool : PoolRef
  tenant_pool model_pool : String → PoolRef

abbrev pool_beq : PoolRef → PoolRef → Bool
pool_beq global_pool global_pool = true
pool_beq tool_pool tool_pool = true
pool_beq background_pool background_pool = true
pool_beq (tenant_pool s) (tenant_pool t) = string_eq.beq s t
pool_beq (model_pool s) (model_pool t) = string_eq.beq s t
pool_beq _ _ = false

pub pool_beq_iff : (p q : PoolRef) → (pool_beq p q ≡ true) ↔ (p ≡ q)
pool_beq_iff (tenant_pool s) (tenant_pool t) = ground (arith, string_eq.beq_iff s t)
pool_beq_iff (model_pool s) (model_pool t) = ground (arith, string_eq.beq_iff s t)
pool_beq_iff p q = ground arith

-- `class GateConfig`, but for the persistence pool and the timeout.
pub record GateConfig : Type 0 where
  pub global_limit : ℕ
  pub tenant_limit : ℕ
  pub model_limit : ℕ
  pub background_limit : ℕ
  pub tool_pool_size : ℕ

instance abbrev pub pool_eq : Eq PoolRef
pool_eq = record { beq = pool_beq; beq_iff = pool_beq_iff }

-- `class ConcurrencyGate`: the free slots of the pools that have been used. `closed` is `_closed`.
pub record Gate : Type 0 where
  pub config : GateConfig
  pub free : Dict PoolRef ℕ
  pub closed : Bool

-- The size that a pool is made with.
abbrev pub size_of : GateConfig → PoolRef → ℕ
size_of c global_pool = c.global_limit
size_of c tool_pool = c.tool_pool_size
size_of c background_pool = c.background_limit
size_of c (tenant_pool s) = c.tenant_limit
size_of c (model_pool s) = c.model_limit

-- `_free`
abbrev pub free_of : Gate → PoolRef → ℕ
free_of g p = lookup_or p (size_of g.config p) g.free

abbrev pub set_free : PoolRef → ℕ → Gate → Gate
set_free p n g = record g { free = insert p n g.free }

abbrev unless_zero : ℕ → PoolRef → List PoolRef
unless_zero limit p = if leb limit 0 then [] else p ∷ []

-- The pools of `acquire_model`, in order: a limit of 0 means that there is no such pool.
unfoldable pub model_chain : GateConfig → String → String → List PoolRef
model_chain c tenant model =
    global_pool ∷ unless_zero c.tenant_limit (tenant_pool tenant)
    ++ unless_zero c.model_limit (model_pool model)

-- A request acquires its slots, holds them all, or gives back those it has.
pub data Phase : Type 0 where
  acquiring holding releasing : Phase

-- `acquired` has the slots taken last first; `wanted` those still to take.
pub record Request : Type 0 where
  pub wanted : List PoolRef
  pub acquired : List PoolRef
  pub phase : Phase

abbrev pub new_request : List PoolRef → Request
new_request pools = record { wanted = pools; acquired = []; phase = acquiring }

-- What a request does next: it takes a slot that is free, gives up, has all its slots, ends its hold
-- or gives one slot back.
pub data Move : Type 0 where
  take give_up enter release put_back : Move

-- `_TimedSlotPool.acquire`, once a slot is free, and the entry in `acquired`.
abbrev pub take_slot : PoolRef → List PoolRef → Request → Gate → Request × Gate
take_slot p ps r g =
    if leb (free_of g p) 0
    then (r, g)
    else (record r { wanted = ps; acquired = p ∷ r.acquired }, set_free p (free_of g p - 1) g)

abbrev pub take_next : Phase → List PoolRef → Request → Gate → Request × Gate
take_next acquiring (p ∷ ps) r g = take_slot p ps r g
take_next acquiring [] r g = (r, g)
take_next holding ps r g = (r, g)
take_next releasing ps r g = (r, g)

-- `QueueTimeout` or a cancellation: `except BaseException` starts to give the slots back.
abbrev give_up_in : Phase → Request → Request
give_up_in acquiring r = record r { phase = releasing }
give_up_in holding r = r
give_up_in releasing r = r

-- `return _Hold(acquired)`
abbrev enter_in : Phase → List PoolRef → Request → Request
enter_in acquiring [] r = record r { phase = holding }
enter_in acquiring (p ∷ ps) r = r
enter_in holding ps r = r
enter_in releasing ps r = r

-- `_Hold.release`: a second one does nothing.
abbrev release_in : Phase → Request → Request
release_in holding r = record r { phase = releasing }
release_in acquiring r = r
release_in releasing r = r

-- `_TimedSlotPool.release` of the slot that was taken last.
abbrev pub put_back_next : Phase → List PoolRef → Request → Gate → Request × Gate
put_back_next releasing (p ∷ ps) r g = (record r { acquired = ps }, set_free p (free_of g p + 1) g)
put_back_next releasing [] r g = (r, g)
put_back_next acquiring ps r g = (r, g)
put_back_next holding ps r g = (r, g)

-- A move that is not open to the request changes nothing.
unfoldable pub move : Move → Request → Gate → Request × Gate
move take r g = take_next r.phase r.wanted r g
move give_up r g = (give_up_in r.phase r, g)
move enter r g = (enter_in r.phase r.wanted r, g)
move release r g = (release_in r.phase r, g)
move put_back r g = put_back_next r.phase r.acquired r g

-- What happens at a gate: a request arrives, the request of a number moves, or the gate is closed.
pub data Event : Type 0 where
  arrive_model : String → String → Event
  arrive_tool arrive_background close : Event
  moves : ℕ → Move → Event

abbrev pub World : Type 0
World = Gate × List Request

-- The move of the request at a place.
abbrev pub move_at : ℕ → Move → List Request → Gate → List Request × Gate
move_at i m [] g = ([], g)
move_at zero m (r ∷ rs) g = let (r', g') = move m r g in (r' ∷ rs, g')
move_at (suc i) m (r ∷ rs) g = let (rs', g') = move_at i m rs g in (r ∷ rs', g')

-- `acquire_model` refuses to start at a gate that is closed; the other two do not ask.
unfoldable pub happen : Event → World → World
happen (arrive_model tenant model) (g, rs) =
    (g, if g.closed then rs else new_request (model_chain g.config tenant model) ∷ rs)
happen arrive_tool (g, rs) = (g, new_request (tool_pool ∷ []) ∷ rs)
happen arrive_background (g, rs) = (g, new_request (background_pool ∷ []) ∷ rs)
happen close (g, rs) = (record g { closed = true }, rs)
happen (moves i m) (g, rs) = let (rs', g') = move_at i m rs g in (g', rs')

unfoldable pub run : List Event → World → World
run [] w = w
run (e ∷ es) w = run es (happen e w)

unfoldable pub new_gate : GateConfig → Gate
new_gate c = record { config = c; free = []; closed = false }
