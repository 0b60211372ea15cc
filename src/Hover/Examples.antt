-- ===== src/Hover/Examples.antt =====
-- The gate of gtk/hover_focus.c at one history.
use prettymux.Prelude.{◌≡◌, true, false, not, ◌&&◌, []}
use prettymux.Prelude.{◌∷◌, List}
use prettymux.Hover.{Event, active_changed, motion, suppress, initial, should_enter}
use prettymux.Hover.Gate.{run, last_active, is_blocked, newest_first, should_enter-run}

abbrev events : List Event
events = active_changed true ∷ suppress ∷ motion ∷ active_changed false ∷ active_changed true ∷ []

should_enter-run_example :
    should_enter (run initial events)
    ≡ (last_active (newest_first [] events) && not (is_blocked (newest_first [] events)))
should_enter-run_example = should_enter-run events
