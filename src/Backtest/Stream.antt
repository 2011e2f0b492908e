-- ===== src/Backtest/Stream.antt =====
-- The order of the events (backend/backtesting-engine/src/aqros_backtesting_engine/domain/events.py).
use aqros.Shared.{Bool, ◌&&◌, ◌||◌, List, [], ◌∷◌, ltb, leb, ◌==◌, if◌then◌else◌}
use aqros.Backtest.Models.{Event, kind_priority}

-- `ordering_key` of the first event is not above that of the second.
unfoldable pub not_after : Event → Event → Bool
not_after a b =
    ltb a.event_time b.event_time
    || (a.event_time == b.event_time
        && (ltb (kind_priority a.kind) (kind_priority b.kind)
            || (kind_priority a.kind == kind_priority b.kind && leb a.sequence b.sequence)))

unfoldable pub insert_event : Event → List Event → List Event
insert_event e [] = e ∷ []
insert_event e (f ∷ fs) = if not_after e f then e ∷ f ∷ fs else f ∷ insert_event e fs

-- `sorted`, which is stable.
unfoldable pub sort_events : List Event → List Event
sort_events [] = []
sort_events (e ∷ es) = insert_event e (sort_events es)
