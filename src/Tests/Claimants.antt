-- ===== src/Tests/Claimants.antt =====
-- Runs of the records of idempotency keys.
use zhongzhuan.Base.{◌≤◌, ◌≡◌, true, [], ◌∷◌, arith, inl, refl}
use zhongzhuan.Idempotency.{owner_eq, Row, Records, seen, mark_executed}
use zhongzhuan.Idempotency.Attempts.{Attempt, wins, wins_once}
use zhongzhuan.Idempotency.Executed.{seen-mark_executed}

abbrev expired : Row
expired = record {
  request_digest = "d";
  response_id = "resp_0";
  status_code = 0;
  state = "in_flight";
  created_at = 1;
  expires_at = 4;
}

abbrev records : Records
records = (("w", "k"), expired) ∷ []

abbrev first : Attempt
first = record {
  workspace = "w";
  key = "k";
  response_id = "resp_1";
  request_digest = "d";
  ttl_seconds = 60;
  ts = 5;
}

abbrev second : Attempt
second = record {
  workspace = "w";
  key = "k";
  response_id = "resp_2";
  request_digest = "d";
  ttl_seconds = 0;
  ts = 6;
}

wins_once_example : wins ("w", "k") (first ∷ second ∷ []) records ≤ 1
wins_once_example =
    wins_once 60 "w" "k" (first ∷ second ∷ []) records refl
      ((omega arith, refl), ((omega arith, refl), tt))

seen-mark_executed_example :
    seen "w" "k" 20 (mark_executed "w" "k" "resp_1" "" 200 60 5 records) ≡ true
seen-mark_executed_example =
    seen-mark_executed "w" "k" "resp_1" "" 200 60 5 20 records refl (inl (omega arith))
