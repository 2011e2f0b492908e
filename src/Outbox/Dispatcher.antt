-- ===== src/Outbox/Dispatcher.antt =====
-- `_dispatch` of the outbox dispatcher (dispatcher.py of libs/aqros-outbox/src/aqros_outbox). Whether
-- the event bus takes the event is the argument `published`, with the error text if it does not.
use aqros.Shared.{ℕ, ◌+◌, String, Option, none, some, leb, if◌then◌else◌}
use aqros.Outbox.Store.{OutboxEvent, Events, mark_delivered, mark_failed, mark_dead_letter}

-- One attempt: the error if the bus refuses the event, the time, and the time of the next attempt.
pub record Attempt : Type 0 where
  pub refused : Option String
  pub now : ℕ
  pub retry_at : ℕ

module _ {Content : Type 0} where
  abbrev pub settle_attempt :
      Option String → Attempt → OutboxEvent Content → Events Content → Events Content
  settle_attempt none a e events = mark_delivered a.now e.event_id events
  settle_attempt (some error) a e events =
      if leb e.max_retries (e.retry_count + 1)
      then mark_dead_letter e.event_id error events
      else mark_failed a.retry_at e.event_id error events

  unfoldable pub dispatch : Attempt → OutboxEvent Content → Events Content → Events Content
  dispatch a e events = settle_attempt a.refused a e events
