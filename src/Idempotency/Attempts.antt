-- ===== src/Idempotency/Attempts.antt =====
-- Attempts to reserve keys, one after the other (`src/zhongzhuan/store/idempotency.py`).
use zhongzhuan.Base.{
  ℕ, suc, ◌+◌, ◌≤◌, ◌≡◌, ◌⊎◌, refl, ap, ◌∙◌, inl, inr, String, Bool, true, false, ◌&&◌, ◌||◌, none,
  some, List, [], ◌∷◌, All, if◌then◌else◌, leb, arith, Bool-cases,
}
use zhongzhuan.Base.Eq.{string_eq}
use zhongzhuan.Base.Dict.{lookup, lookup-insert}
use zhongzhuan.Idempotency.{
  Owner, owner_beq, owner_beq_iff, owner_eq, Row, Records, is_empty, has_expired, lookup_record,
  expiry, reservation, reserve,
}
use zhongzhuan.Idempotency.Laws.{reserve-cases}

-- A call of `reserve`.
pub record Attempt : Type 0 where
  pub workspace : String
  pub key : String
  pub response_id : String
  pub request_digest : String
  pub ttl_seconds : ℕ
  pub ts : ℕ

abbrev pub owner_of : Attempt → Owner
owner_of a = (a.workspace, a.key)

abbrev pub try_reserve : Attempt → Records → Bool × Records
try_reserve a t = reserve a.workspace a.key a.response_id a.request_digest a.ttl_seconds a.ts t

-- How many of the attempts, made one after the other, reserve the key of the owner.
unfoldable pub wins : Owner → List Attempt → Records → ℕ
wins owner [] t = 0
wins owner (a ∷ rest) t =
    let (won, t1) = try_reserve a t in
    (if owner_beq (owner_of a) owner && won then 1 else 0) + wins owner rest t1

-- The attempt is made before `until`, for longer than that.
abbrev pub Timely : ℕ → Attempt → Type 0
Timely until a =
    (a.ts ≤ until) × (leb (suc until) (expiry a.ts a.ttl_seconds) || leb a.ttl_seconds 0 ≡ true)

-- The key is taken until after `until`.
abbrev Held : ℕ → Owner → Records → Type 0
Held until owner t =
    (r : Row) × (lookup owner t ≡ some r)
    × (leb (suc until) r.expires_at || leb r.expires_at 0 ≡ true)

Held-at : (until : ℕ) (o p : Owner) (t : Records) → o ≡ p → Held until p t → Held until o t
Held-at until o p t e (r, found, long) = (r, ap (λ q. lookup q t) e ∙ found, long)

-- A record that is held has not expired.
in_force :
    (until : ℕ) (workspace key : String) (ts : ℕ) (t : Records)
    → is_empty key ≡ false
    → ts ≤ until
    → Held until (workspace, key) t
    → lookup_record workspace key ts t ≡ none
    → ⊥
unfolding lookup_record
in_force until workspace key ts t h l (r, found, long) free =
    let fresh : has_expired ts r ≡ false = ground (arith, long, l) in
    ground (arith, rw (h, found, fresh) at free)

Held-after :
    (until : ℕ) (owner : Owner) (t t1 : Records)
    → lookup owner t1 ≡ lookup owner t
    → Held until owner t
    → Held until owner t1
Held-after until owner t t1 e (r, found, long) = (r, e ∙ found, long)

-- An attempt on another key leaves the record.
other_key :
    (owner : Owner) (a : Attempt) (t : Records)
    → owner_beq (owner_of a) owner ≡ false
    → lookup owner (try_reserve a t).1 ≡ lookup owner t
unfolding reserve
other_key owner a t h = elim (Bool-cases (is_empty a.key)) [
  | inl e ↦ rw e refl
  | inr e ↦
      let new = reservation a.response_id a.request_digest a.ttl_seconds a.ts in
      elim (reserve-cases a.workspace a.key a.response_id a.request_digest a.ttl_seconds a.ts t e) [
        | inl (_, won) ↦
            ap (λ p. lookup owner p.1) won ∙ lookup-insert (owner_of a) owner new t ∙ rw h refl
        | inr (r, _, _, lost) ↦ ap (λ p. lookup owner p.1) lost
      ]
]

-- A key that is held is not reserved, and stays held.
try_reserve-Held :
    (until : ℕ) (owner : Owner) (a : Attempt) (t : Records)
    → is_empty owner.1 ≡ false
    → Timely until a
    → Held until owner t
    → ((owner_beq (owner_of a) owner && (try_reserve a t).0) ≡ false)
      × Held until owner (try_reserve a t).1
try_reserve-Held until owner a t nonempty (l, _) held =
    elim (Bool-cases (owner_beq (owner_of a) owner)) [
      | inl same ↦
          let e = (owner_beq_iff (owner_of a) owner).0 same in
          let h : is_empty a.key ≡ false = ap (λ o. is_empty o.1) e ∙ nonempty in
          elim (reserve-cases a.workspace a.key a.response_id a.request_digest a.ttl_seconds a.ts t
            h) [
              | inl (free, _) ↦ absurd (
                  in_force until a.workspace a.key a.ts t h l
                    (Held-at until (owner_of a) owner t e held) free)
              | inr (r, _, _, lost) ↦ (
                rw (same, lost) refl,
                Held-after until owner t (try_reserve a t).1 (ap (λ p. lookup owner p.1) lost) held,
              )
            ]
      | inr other ↦ (
        rw other refl,
        Held-after until owner t (try_reserve a t).1 (other_key owner a t other) held,
      )
    ]

-- An attempt on the key reserves it, and then it is held, or leaves the records.
try_reserve-wins :
    (until : ℕ) (owner : Owner) (a : Attempt) (t : Records)
    → is_empty owner.1 ≡ false
    → Timely until a
    → owner_beq (owner_of a) owner ≡ true
    → Held until owner (try_reserve a t).1 ⊎ ((try_reserve a t).0 ≡ false)
try_reserve-wins until owner a t nonempty (l, long) same =
    let e = (owner_beq_iff (owner_of a) owner).0 same in
    let h : is_empty a.key ≡ false = ap (λ o. is_empty o.1) e ∙ nonempty in
    let new = reservation a.response_id a.request_digest a.ttl_seconds a.ts in
    elim (reserve-cases a.workspace a.key a.response_id a.request_digest a.ttl_seconds a.ts t h) [
      | inl (_, won) ↦ inl (
        new,
        ap (λ p. lookup owner p.1) won ∙ lookup-insert (owner_of a) owner new t ∙ rw same refl,
        ground (arith, long),
      )
      | inr (r, _, _, lost) ↦ inr (ap (λ p. p.0) lost)
    ]

wins-Held :
    (until : ℕ) (owner : Owner) (rest : List Attempt) (t : Records)
    → is_empty owner.1 ≡ false
    → All (Timely until) rest
    → Held until owner t
    → wins owner rest t ≡ 0
unfolding wins
wins-Held until owner [] t nonempty p held = refl
wins-Held until owner (a ∷ rest) t nonempty (p, ps) held =
    let (lost, still) = try_reserve-Held until owner a t nonempty p held in
    rw lost (omega (arith, wins-Held until owner rest (try_reserve a t).1 nonempty ps still))

-- Of any attempts to reserve keys, one after the other, from any records, at most one reserves a given
-- key that is not empty, if each is made before some time and asks for longer than that.
pub wins_once :
    (until : ℕ) (workspace key : String) (attempts : List Attempt) (t : Records)
    → is_empty key ≡ false
    → All (Timely until) attempts
    → wins (workspace, key) attempts t ≤ 1
unfolding wins
wins_once until workspace key [] t nonempty p = omega arith
wins_once until workspace key (a ∷ rest) t nonempty (p, ps) =
    let owner : Owner = (workspace, key) in
    let more = wins_once until workspace key rest (try_reserve a t).1 nonempty ps in
    elim (Bool-cases (owner_beq (owner_of a) owner)) [
      | inl same ↦ elim (try_reserve-wins until owner a t nonempty p same) [
        | inl held ↦ ground (arith, wins-Held until owner rest (try_reserve a t).1 nonempty ps held)
        | inr lost ↦ rw (same, lost) (omega (arith, more))
      ]
      | inr other ↦ rw other (omega (arith, more))
    ]
