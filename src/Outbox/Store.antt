-- ===== src/Outbox/Store.antt =====
-- Events and the in-memory repository of the outbox (domain.py and repository.py of
-- libs/aqros-outbox/src/aqros_outbox). What an event carries is never read here, so its type is a
-- parameter. Times are numbers of microseconds; `now` is the reading of the clock, `stale_before` the
-- time that lies the claim timeout before it, and `retry_at` the time of the next attempt, which the
-- code draws with a random jitter.
use aqros.Shared.{
  ℕ, zero, suc, ◌+◌, String, Bool, true, false, ◌&&◌, Option, none, some, List, [], ◌∷◌, ltb, leb,
  if◌then◌else◌,
}
use aqros.Shared.Text.{str_eq}
use aqros.Shared.Dict.{Dict, insert}

pub data OutboxStatus : Type 0 where
  pending processing delivered failed dead_letter : OutboxStatus

pub record OutboxStatistics : Type 0 where
  pub pending : ℕ
  pub processing : ℕ
  pub delivered : ℕ
  pub failed : ℕ
  pub dead_letter : ℕ
  pub total : ℕ
  pub retry_sum : ℕ

abbrev or_now : Option ℕ → ℕ → ℕ
or_now none now = now
or_now (some t) now = t

abbrev at_most : Option ℕ → ℕ → Bool
at_most none t = false
at_most (some s) t = leb s t

-- `schedulable or orphaned`
abbrev claimable_as : OutboxStatus → Option ℕ → ℕ → ℕ → Bool
claimable_as OutboxStatus.pending none now stale_before = true
claimable_as OutboxStatus.pending (some t) now stale_before = leb t now
claimable_as OutboxStatus.failed none now stale_before = true
claimable_as OutboxStatus.failed (some t) now stale_before = leb t now
claimable_as OutboxStatus.processing t now stale_before = at_most t stale_before
claimable_as _ t now stale_before = false

abbrev pub is_delivered : OutboxStatus → Bool
is_delivered OutboxStatus.delivered = true
is_delivered _ = false

abbrev before_time : Option ℕ → ℕ → Bool
before_time none t = false
before_time (some s) t = ltb s t

abbrev pub is_dead : OutboxStatus → Bool
is_dead OutboxStatus.dead_letter = true
is_dead _ = false

module _ (Content : Type 0) where
  pub record OutboxEvent : Type 0 where
    pub event_id : String
    pub content : Content
    pub status : OutboxStatus
    pub retry_count : ℕ
    pub max_retries : ℕ
    pub last_error : Option String
    pub created_at : Option ℕ
    pub next_retry_at : Option ℕ
    pub delivered_at : Option ℕ

  abbrev pub Events : Type 0
  Events = Dict OutboxEvent

module _ {Content : Type 0} where
  -- What is written to the object under a key, if there is one.
  unfoldable pub update :
      String → (OutboxEvent Content → OutboxEvent Content) → Events Content → Events Content
  update key f [] = []
  update key f ((k, e) ∷ events) =
      if str_eq k key then (k, f e) ∷ events else (k, e) ∷ update key f events

  unfoldable pub add : ℕ → OutboxEvent Content → Events Content → Events Content
  add now e events =
      insert e.event_id
        (record e { created_at = some (or_now e.created_at now); status = OutboxStatus.pending })
        events

  abbrev pub is_claimable : ℕ → ℕ → OutboxEvent Content → Bool
  is_claimable now stale_before e = claimable_as e.status e.next_retry_at now stale_before

  abbrev pub claimed : ℕ → OutboxEvent Content → OutboxEvent Content
  claimed now e = record e { status = OutboxStatus.processing; next_retry_at = some now }

  -- `sorted(events.values(), key=...)`, which keeps the order of equal keys.
  unfoldable pub sort_into :
      ℕ → OutboxEvent Content → List (OutboxEvent Content) → List (OutboxEvent Content)
  sort_into now e [] = e ∷ []
  sort_into now e (f ∷ fs) =
      if leb (or_now e.created_at now) (or_now f.created_at now)
      then e ∷ f ∷ fs
      else f ∷ sort_into now e fs

  unfoldable pub by_creation : ℕ → Events Content → List (OutboxEvent Content)
  by_creation now [] = []
  by_creation now ((k, e) ∷ events) = sort_into now e (by_creation now events)

  -- The loop of `claim_ready`; `room` is how many events the batch still takes.
  unfoldable pub claim_loop :
      ℕ
      → ℕ
      → ℕ
      → List (OutboxEvent Content)
      → Events Content
      → List (OutboxEvent Content) × Events Content
  claim_loop now stale_before room [] events = ([], events)
  claim_loop now stale_before zero (e ∷ es) events = ([], events)
  claim_loop now stale_before (suc room) (e ∷ es) events =
      if is_claimable now stale_before e
      then (let (ready, rest) =
            claim_loop now stale_before room es (update e.event_id (claimed now) events) in
          (claimed now e ∷ ready, rest))
      else claim_loop now stale_before (suc room) es events

  unfoldable pub claim_ready :
      ℕ → ℕ → ℕ → Events Content → List (OutboxEvent Content) × Events Content
  claim_ready now stale_before batch_size events =
      claim_loop now stale_before batch_size (by_creation now events) events

  unfoldable pub mark_delivered : ℕ → String → Events Content → Events Content
  mark_delivered now key events =
      update key
        (λ e. record e {
          status = OutboxStatus.delivered;
          delivered_at = some now;
          last_error = none;
        })
        events

  -- One more failure of an event.
  abbrev pub with_failure : ℕ → String → OutboxEvent Content → OutboxEvent Content
  with_failure retry_at error e =
      if leb e.max_retries (e.retry_count + 1)
      then record e {
        retry_count = e.retry_count + 1;
        last_error = some error;
        status = OutboxStatus.dead_letter;
      }
      else record e {
        retry_count = e.retry_count + 1;
        last_error = some error;
        status = OutboxStatus.failed;
        next_retry_at = some retry_at;
      }

  unfoldable pub mark_failed : ℕ → String → String → Events Content → Events Content
  mark_failed retry_at key error events = update key (with_failure retry_at error) events

  unfoldable pub mark_dead_letter : String → String → Events Content → Events Content
  mark_dead_letter key error events =
      update key (λ e. record e { status = OutboxStatus.dead_letter; last_error = some error })
        events

  -- The body of the loop of `statistics`.
  abbrev pub tally : OutboxEvent Content → OutboxStatus → OutboxStatistics → OutboxStatistics
  tally e OutboxStatus.pending s = record s {
    total = s.total + 1;
    pending = s.pending + 1;
    retry_sum = s.retry_sum + e.retry_count;
  }
  tally e OutboxStatus.processing s = record s {
    total = s.total + 1;
    processing = s.processing + 1;
    retry_sum = s.retry_sum + e.retry_count;
  }
  tally e OutboxStatus.delivered s = record s {
    total = s.total + 1;
    delivered = s.delivered + 1;
    retry_sum = s.retry_sum + e.retry_count;
  }
  tally e OutboxStatus.failed s = record s {
    total = s.total + 1;
    failed = s.failed + 1;
    retry_sum = s.retry_sum + e.retry_count;
  }
  tally e OutboxStatus.dead_letter s = record s {
    total = s.total + 1;
    dead_letter = s.dead_letter + 1;
    retry_sum = s.retry_sum + e.retry_count;
  }

  unfoldable pub tally_all : Events Content → OutboxStatistics → OutboxStatistics
  tally_all [] s = s
  tally_all ((k, e) ∷ events) s = tally_all events (tally e e.status s)

  unfoldable pub statistics : Events Content → OutboxStatistics
  statistics events = tally_all events (record {
    pending = 0;
    processing = 0;
    delivered = 0;
    failed = 0;
    dead_letter = 0;
    total = 0;
    retry_sum = 0;
  })

  -- The number of the events that are deleted, and the others.
  unfoldable pub delete_processed : ℕ → Events Content → ℕ × Events Content
  delete_processed before [] = (0, [])
  delete_processed before ((k, e) ∷ events) =
      let (count, rest) = delete_processed before events in
      if is_delivered e.status && before_time e.delivered_at before
      then (count + 1, rest)
      else (count, (k, e) ∷ rest)

  abbrev pub revived : OutboxEvent Content → OutboxEvent Content
  revived e = record e {
    status = OutboxStatus.pending;
    retry_count = 0;
    next_retry_at = none;
    last_error = none;
  }

  -- `room` is how many events may still be revived.
  unfoldable pub reprocess_dead_letters : ℕ → Events Content → ℕ × Events Content
  reprocess_dead_letters room [] = (0, [])
  reprocess_dead_letters zero ((k, e) ∷ events) = (0, (k, e) ∷ events)
  reprocess_dead_letters (suc room) ((k, e) ∷ events) =
      if is_dead e.status
      then (let (count, rest) = reprocess_dead_letters room events in
          (count + 1, (k, revived e) ∷ rest))
      else (let (count, rest) = reprocess_dead_letters (suc room) events in (count, (k, e) ∷ rest))
