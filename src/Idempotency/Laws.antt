-- ===== src/Idempotency/Laws.antt =====
-- What a reservation of an idempotency key promises (`src/zhongzhuan/store/idempotency.py`).
use zhongzhuan.Base.{
  ℕ, ◌≡◌, ◌↔◌, ◌⊎◌, refl, sym, ap, ◌∙◌, inl, inr, String, true, false, none, some, arith,
  Bool-cases, Option-cases,
}
use zhongzhuan.Base.Eq.{string_eq}
use zhongzhuan.Base.Dict.{lookup, insert}
use zhongzhuan.Idempotency.{
  owner_eq, Row, Records, is_empty, has_expired, lookup_record, reservation, reserve,
}

pub reserve-cases :
    (workspace key response_id request_digest : String) (ttl_seconds ts : ℕ) (t : Records)
    → is_empty key ≡ false
    → ((lookup_record workspace key ts t ≡ none)
        × (reserve workspace key response_id request_digest ttl_seconds ts t ≡ (
          true,
          insert (workspace, key) (reservation response_id request_digest ttl_seconds ts) t,
        )))
      ⊎ ((r : Row) × (lookup (workspace, key) t ≡ some r)
          × (has_expired ts r ≡ false)
          × (reserve workspace key response_id request_digest ttl_seconds ts t ≡ (false, t)))
unfolding reserve lookup_record
reserve-cases workspace key response_id request_digest ttl_seconds ts t h =
    elim (Option-cases (lookup (workspace, key) t)) [
      | inl e ↦ inl (rw (h, e) refl, rw (h, e) refl)
      | inr (r, e) ↦ elim (Bool-cases (has_expired ts r)) [
        | inl x ↦ inl (rw (h, e, x) refl, rw (h, e, x) refl)
        | inr x ↦ inr (r, e, x, rw (h, e, x) refl)
      ]
    ]

-- A key that is not empty is reserved if and only if no record of it is in force.
pub reserve_iff :
    (workspace key response_id request_digest : String) (ttl_seconds ts : ℕ) (t : Records)
    → is_empty key ≡ false
    → ((reserve workspace key response_id request_digest ttl_seconds ts t).0 ≡ true)
      ↔ (lookup_record workspace key ts t ≡ none)
unfolding lookup_record
reserve_iff workspace key response_id request_digest ttl_seconds ts t h =
    elim (reserve-cases workspace key response_id request_digest ttl_seconds ts t h) [
      | inl (free, e) ↦ (λ _. free, λ _. ap (λ p. p.0) e)
      | inr (r, found, old, e) ↦ (
        λ won. absurd (ground (arith, sym (ap (λ p. p.0) e) ∙ won)),
        λ free. absurd (ground (arith, rw (h, found, old) at free)),
      )
    ]
