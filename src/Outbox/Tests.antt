-- ===== src/Outbox/Tests.antt =====
-- The theorems on the outbox (libs/aqros-outbox/src/aqros_outbox) at concrete events.
use aqros.Shared.{ℕ, ◌≡◌, refl, none, some, [], ◌∷◌}
use aqros.Outbox.Store.{
  OutboxStatus, OutboxEvent, Events, claim_ready, claim_loop, by_creation, sort_into, claimed,
}

abbrev filled : OutboxEvent ℕ
filled = record {
  event_id = "e1";
  content = 7;
  status = OutboxStatus.failed;
  retry_count = 3;
  max_retries = 5;
  last_error = some "timeout";
  created_at = some 10;
  next_retry_at = some 20;
  delivered_at = none;
}

abbrev fresh_event : OutboxEvent ℕ
fresh_event = record filled { event_id = "e2"; status = OutboxStatus.pending; retry_count = 0 }

abbrev stored : Events ℕ
stored = ("e2", fresh_event) ∷ ("e1", filled) ∷ []

-- A batch of one takes the oldest event that is due.
claimed_one : (claim_ready 30 0 1 stored).0 ≡ claimed 30 fresh_event ∷ []
unfolding claim_ready claim_loop by_creation sort_into
claimed_one = refl
