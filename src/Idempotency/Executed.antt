-- ===== src/Idempotency/Executed.antt =====
-- What marking a key as executed promises (`src/zhongzhuan/store/idempotency.py`).
use zhongzhuan.Base.{
  ℕ, ◌+◌, ◌<◌, ◌≡◌, ◌⊎◌, refl, ap, ◌∙◌, inl, inr, String, true, false, Option, none, some, arith,
  Bool-cases,
}
use zhongzhuan.Base.Eq.{string_eq, beq_refl}
use zhongzhuan.Base.Dict.{lookup, lookup-insert}
use zhongzhuan.Idempotency.{
  Owner, owner_eq, Row, Records, is_empty, has_expired, unless_expired, lookup_record, is_blocking,
  seen, expiry, executed, mark_executed,
}

executed-done :
    (response_id request_digest : String) (status_code ttl_seconds ts : ℕ) (o : Option Row)
    → let r = executed response_id request_digest status_code ttl_seconds ts o in
      (r.state ≡ "done") × (r.expires_at ≡ expiry ts ttl_seconds)
executed-done response_id request_digest status_code ttl_seconds ts none = (refl, refl)
executed-done response_id request_digest status_code ttl_seconds ts (some old) =
    elim (Bool-cases (string_eq.beq old.state "in_flight")) [
      | inl e ↦ rw e (refl, refl)
      | inr e ↦ rw e (refl, refl)
    ]

done-blocks :
    (now : ℕ) (r : Row)
    → r.state ≡ "done"
    → has_expired now r ≡ false
    → is_blocking (unless_expired now (some r)) ≡ true
done-blocks now r s e = rw (e, s) refl

lookup-mark_executed :
    (workspace key response_id request_digest : String) (status_code ttl_seconds ts : ℕ)
    (t : Records)
    → is_empty key ≡ false
    → lookup
        (workspace, key)
        (mark_executed workspace key response_id request_digest status_code ttl_seconds ts t)
      ≡ some (
          executed response_id request_digest status_code ttl_seconds ts
            (lookup (workspace, key) t))
unfolding mark_executed
lookup-mark_executed workspace key response_id request_digest status_code ttl_seconds ts t h =
    let owner : Owner = (workspace, key) in
    let new = executed response_id request_digest status_code ttl_seconds ts (lookup owner t) in
    rw (h, lookup-insert owner owner new t, beq_refl ⦃e = owner_eq⦄ owner) refl

-- Once a key that is not empty is marked as executed, it is seen until the mark expires.
pub seen-mark_executed :
    (workspace key response_id request_digest : String) (status_code ttl_seconds ts now : ℕ)
    (t : Records)
    → is_empty key ≡ false
    → (now < ts + ttl_seconds) ⊎ (ttl_seconds ≡ 0)
    → seen workspace key now
        (mark_executed workspace key response_id request_digest status_code ttl_seconds ts t)
      ≡ true
unfolding seen lookup_record
seen-mark_executed workspace key response_id request_digest status_code ttl_seconds ts now t h
      live =
    let owner : Owner = (workspace, key) in
    let new = executed response_id request_digest status_code ttl_seconds ts (lookup owner t) in
    let (state, ends) =
      executed-done response_id request_digest status_code ttl_seconds ts (lookup owner t) in
    let fresh : has_expired now new ≡ false = ground (arith, ends, live) in
    rw
      (
        h,
        lookup-mark_executed workspace key response_id request_digest status_code ttl_seconds ts t
            h,
      )
      (done-blocks now new state fresh)

-- A key that another response has taken over, in flight, is marked as executed by the former one too:
-- the row then names that one, and the state is done.
pub mark_executed-overtakes :
    (workspace key response_id request_digest : String) (status_code ttl_seconds ts : ℕ)
    (t : Records) (taken : Row)
    → is_empty key ≡ false
    → lookup (workspace, key) t ≡ some taken
    → taken.state ≡ "in_flight"
    → (r : Row) × (lookup
          (workspace, key)
          (mark_executed workspace key response_id request_digest status_code ttl_seconds ts t)
        ≡ some r)
      × (r.response_id ≡ response_id)
      × (r.state ≡ "done")
      × (r.created_at ≡ taken.created_at)
mark_executed-overtakes workspace key response_id request_digest status_code ttl_seconds ts t taken
      h found s =
    let r = executed response_id request_digest status_code ttl_seconds ts (some taken) in
    let flips : string_eq.beq taken.state "in_flight" ≡ true =
      (string_eq.beq_iff taken.state "in_flight").1 s in
    (
      r,
      lookup-mark_executed workspace key response_id request_digest status_code ttl_seconds ts t h
          ∙ ap (λ o. some (executed response_id request_digest status_code ttl_seconds ts o)) found,
      rw flips refl,
      rw flips refl,
      rw flips refl,
    )
