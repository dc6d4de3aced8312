-- ===== src/EventLog/Sequences.antt =====
-- Events with consecutive numbers, as a reader gets them (`src/zhongzhuan/store/event_log.py`).
use zhongzhuan.Base.{
  ℕ, zero, suc, ◌+◌, ◌≤◌, ◌≡◌, refl, ap, ◌∙◌, String, true, false, Option, none, some, List, [],
  ◌∷◌, ◌++◌, if◌then◌else◌, length, drop, leb, arith,
}
use zhongzhuan.Base.Eq.{string_eq}
use zhongzhuan.Base.Json.{Json}
use zhongzhuan.EventLog.{Logged, insert_logged, in_order}
use zhongzhuan.EventLog.Order.{numbered}

pub numbered-append :
    (n : ℕ) (es : List (String × Json)) (event_type : String) (body : Json)
    → numbered n (es ++ (event_type, body) ∷ [])
      ≡ numbered n es ++ record { seq = n + length es; event_type = event_type; body = body } ∷ []
numbered-append n [] event_type body = ap (λ k. numbered k ((event_type, body) ∷ [])) (omega arith)
numbered-append n ((t, b) ∷ es) event_type body =
    ap (◌∷◌ (record { seq = n; event_type = t; body = b })) (
      numbered-append (suc n) es event_type body
      ∙ ap
          (λ k.
            numbered (suc n) es ++ record { seq = k; event_type = event_type; body = body } ∷ [])
          (omega arith))

pub insert_logged-first :
    (n : ℕ) (t : String) (b : Json) (es : List (String × Json))
    → insert_logged (record { seq = n; event_type = t; body = b }) (numbered (suc n) es)
      ≡ record { seq = n; event_type = t; body = b } ∷ numbered (suc n) es
insert_logged-first n t b [] = refl
insert_logged-first n t b ((u, c) ∷ es) = ground arith

-- Numbered events are in order already.
pub in_order-numbered :
    (n : ℕ) (es : List (String × Json)) → in_order (numbered n es) ≡ numbered n es
unfolding in_order
in_order-numbered n [] = refl
in_order-numbered n ((t, b) ∷ es) = rw (in_order-numbered (suc n) es) (insert_logged-first n t b es)

abbrev pub keep_from : ℕ → List Logged → List Logged
keep_from first [] = []
keep_from first (e ∷ es) =
    let rest = keep_from first es in if leb first e.seq then e ∷ rest else rest

pub keep_from-all :
    (first n : ℕ) (es : List (String × Json))
    → first ≤ n
    → keep_from first (numbered n es) ≡ numbered n es
keep_from-all first n [] h = refl
keep_from-all first n ((t, b) ∷ es) h =
    let in_range : leb first n ≡ true = ground (arith, h) in
    rw (in_range, keep_from-all first (suc n) es (omega (arith, h))) refl

pub keep_from-drop :
    (k n : ℕ) (es : List (String × Json))
    → keep_from (k + n) (numbered n es) ≡ numbered (k + n) (drop k es)
keep_from-drop zero n es =
    keep_from-all (0 + n) n es (omega arith) ∙ ap (λ m. numbered m es) (omega arith)
keep_from-drop (suc k) n [] = refl
keep_from-drop (suc k) n ((t, b) ∷ es) =
    let out_of_range : leb (suc k + n) n ≡ false = ground arith in
    rw out_of_range (
      ap (λ m. keep_from m (numbered (suc n) es)) (omega arith)
      ∙ keep_from-drop k (suc n) es
      ∙ ap (λ m. numbered m (drop k es)) (omega arith))

-- The events of a sequence after a number, with their numbers; `none` is -1.
abbrev pub numbered_after : Option ℕ → List (String × Json) → List Logged
numbered_after none es = numbered 1 es
numbered_after (some k) es = numbered (k + 1) (drop k es)
