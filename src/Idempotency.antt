-- ===== src/Idempotency.antt =====
-- The records of idempotency keys, `IdempotencyStore` of `src/zhongzhuan/store/idempotency.py`: the
-- table `idempotency_records` by its primary key, each method as its statements. Times are whole
-- seconds, and a negative time to live acts as 0 does.
pub mod Laws
pub mod Attempts
pub mod Executed
use zhongzhuan.Base.{
  ℕ, ◌+◌, ◌≡◌, ◌↔◌, refl, ap, String, Bool, true, false, ◌&&◌, ◌||◌, not, Option, none, some, List,
  [], ◌∷◌, if◌then◌else◌, ltb, leb, ◌==◌, arith,
}
use zhongzhuan.Base.Eq.{Eq, string_eq}
use zhongzhuan.Base.Dict.{Dict, lookup, insert}

-- The primary key: a workspace and a key.
abbrev pub Owner : Type 0
Owner = String × String

abbrev pub owner_beq : Owner → Owner → Bool
owner_beq (w, k) (v, l) = string_eq.beq w v && string_eq.beq k l

pub owner_beq_iff : (a b : Owner) → (owner_beq a b ≡ true) ↔ (a ≡ b)
owner_beq_iff (w, k) (v, l) = ground (arith, string_eq.beq_iff w v, string_eq.beq_iff k l)

instance abbrev pub owner_eq : Eq Owner
owner_eq = record { beq = owner_beq; beq_iff = owner_beq_iff }

-- The other columns of a row.
pub record Row : Type 0 where
  pub request_digest : String
  pub response_id : String
  pub status_code : ℕ
  pub state : String
  pub created_at : ℕ
  pub expires_at : ℕ

abbrev pub Records : Type 0
Records = Dict Owner Row

abbrev pub is_empty : String → Bool
is_empty String.[] = true
is_empty (String.◌∷◌ c s) = false

-- `row[2] or STATE_IN_FLIGHT`
abbrev pub or_in_flight : String → String
or_in_flight String.[] = "in_flight"
or_in_flight (String.◌∷◌ c s) = String.◌∷◌ c s

-- `expires_at and expires_at <= ts`
abbrev pub has_expired : ℕ → Row → Bool
has_expired ts r = ltb 0 r.expires_at && leb r.expires_at ts

-- The row of `lookup`, if it has not expired.
abbrev pub unless_expired : ℕ → Option Row → Option Row
unless_expired ts none = none
unless_expired ts (some r) =
    if has_expired ts r then none else some (record r { state = or_in_flight r.state })

-- `lookup`
unfoldable pub lookup_record : String → String → ℕ → Records → Option Row
lookup_record workspace key ts t =
    if is_empty key then none else unless_expired ts (lookup (workspace, key) t)

-- `state in BLOCKING_STATES`
abbrev pub is_blocking : Option Row → Bool
is_blocking none = false
is_blocking (some r) = string_eq.beq r.state "in_flight" || string_eq.beq r.state "done"

-- `seen`
unfoldable pub seen : String → String → ℕ → Records → Bool
seen workspace key ts t = is_blocking (lookup_record workspace key ts t)

-- `ts + int(ttl_seconds) if ttl_seconds > 0 else 0`
abbrev pub expiry : ℕ → ℕ → ℕ
expiry ts ttl_seconds = if ltb 0 ttl_seconds then ts + ttl_seconds else 0

-- What `INSERT` and the guarded `UPDATE` of `reserve` do where the key has the row or none.
abbrev pub take_over : Owner → Row → ℕ → Option Row → Records → Bool × Records
take_over owner new ts none t = (true, insert owner new t)
take_over owner new ts (some old) t =
    if has_expired ts old then (true, insert owner new t) else (false, t)

abbrev pub reservation : String → String → ℕ → ℕ → Row
reservation response_id request_digest ttl_seconds ts = record {
  request_digest = request_digest;
  response_id = response_id;
  status_code = 0;
  state = "in_flight";
  created_at = ts;
  expires_at = expiry ts ttl_seconds;
}

-- `reserve`
unfoldable pub reserve : String → String → String → String → ℕ → ℕ → Records → Bool × Records
reserve workspace key response_id request_digest ttl_seconds ts t =
    if is_empty key
    then (true, t)
    else take_over (workspace, key) (reservation response_id request_digest ttl_seconds ts) ts
        (lookup (workspace, key) t) t

abbrev pub digest_or : String → String → String
digest_or String.[] old = old
digest_or (String.◌∷◌ c s) old = String.◌∷◌ c s

-- `_write`, of a row that is done.
abbrev pub written : String → String → ℕ → ℕ → ℕ → Row
written response_id request_digest status_code ttl_seconds ts = record {
  request_digest = request_digest;
  response_id = response_id;
  status_code = status_code;
  state = "done";
  created_at = ts;
  expires_at = expiry ts ttl_seconds;
}

-- The row that `mark_executed` leaves: a row in flight is flipped, and another is replaced.
abbrev pub executed : String → String → ℕ → ℕ → ℕ → Option Row → Row
executed response_id request_digest status_code ttl_seconds ts none =
    written response_id request_digest status_code ttl_seconds ts
executed response_id request_digest status_code ttl_seconds ts (some old) =
    if string_eq.beq old.state "in_flight"
    then record old {
      response_id = response_id;
      status_code = status_code;
      state = "done";
      request_digest = digest_or request_digest old.request_digest;
      expires_at = expiry ts ttl_seconds;
    }
    else written response_id request_digest status_code ttl_seconds ts

-- `mark_executed`
unfoldable pub mark_executed : String → String → String → String → ℕ → ℕ → ℕ → Records → Records
mark_executed workspace key response_id request_digest status_code ttl_seconds ts t =
    if is_empty key
    then t
    else insert (workspace, key)
        (executed response_id request_digest status_code ttl_seconds ts (lookup (workspace, key) t))
        t
