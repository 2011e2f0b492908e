-- ===== src/Outbox/Counting.antt =====
-- The statistics of the outbox and the size of a batch (repository.py of
-- libs/aqros-outbox/src/aqros_outbox).
use aqros.Shared.{ℕ, zero, suc, ◌+◌, ◌≤◌, inl, inr, Bool-cases, List, [], ◌∷◌, length, arith}
use aqros.Outbox.Store.{
  OutboxEvent, Events, OutboxStatistics, claim_loop, claim_ready, by_creation, is_claimable,
  claimed, update,
}

-- The events that are counted under some status.
abbrev pub by_status : OutboxStatistics → ℕ
by_status s = s.pending + s.processing + s.delivered + s.failed + s.dead_letter

module _ {Content : Type 0} where
  claim_loop-bounded :
      (now stale_before room : ℕ) (es : List (OutboxEvent Content)) (events : Events Content)
      → length (claim_loop now stale_before room es events).0 ≤ room
  unfolding claim_loop
  claim_loop-bounded now stale_before room [] events = ground arith
  claim_loop-bounded now stale_before zero (e ∷ es) events = ground arith
  claim_loop-bounded now stale_before (suc room) (e ∷ es) events =
      let more =
        claim_loop-bounded now stale_before room es (update e.event_id (claimed now) events) in
      let others = claim_loop-bounded now stale_before (suc room) es events in
      elim (Bool-cases (is_claimable now stale_before e)) [
        | inl t ↦ rw t (omega arith)
        | inr t ↦ rw t others
      ]

  -- A call of `claim_ready` hands out at most as many events as the batch may have.
  claim_ready-length :
      (now stale_before batch_size : ℕ) (events : Events Content)
      → length (claim_ready now stale_before batch_size events).0 ≤ batch_size
  unfolding claim_ready
  claim_ready-length now stale_before batch_size events =
      claim_loop-bounded now stale_before batch_size (by_creation now events) events
