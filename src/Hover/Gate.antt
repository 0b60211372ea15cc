-- ===== src/Hover/Gate.antt =====
-- When the pointer may take the focus (gtk/hover_focus.c): histories of events.
use mathlib.Core.List.{foldl}
use prettymux.Prelude.{◌≡◌, refl, Bool, true, false, not, ◌&&◌, List, [], ◌∷◌, arith, if◌then◌else◌}
use prettymux.Hover.{Hover, initial, should_enter, Event, active_changed, motion, suppress, step}

pub run : Hover → List Event → Hover
run = foldl step

-- What the history of events says, newest event first: is the window active?
abbrev pub last_active : List Event → Bool
last_active [] = false
last_active (active_changed b ∷ older) = b
last_active (motion ∷ older) = last_active older
last_active (suppress ∷ older) = last_active older

-- Was a change of the activity ever reported?
abbrev pub was_reported : List Event → Bool
was_reported [] = false
was_reported (active_changed b ∷ older) = true
was_reported (motion ∷ older) = was_reported older
was_reported (suppress ∷ older) = was_reported older

-- Is there something since the last motion over an active window that blocks the pointer: a choice by
-- the keyboard, or a return to the window? The first report of all is no return.
abbrev pub is_blocked : List Event → Bool
is_blocked [] = false
is_blocked (active_changed b ∷ older) =
    if b && was_reported older && not (last_active older) then true else is_blocked older
is_blocked (motion ∷ older) = if last_active older then false else is_blocked older
is_blocked (suppress ∷ older) = true

abbrev Tracks : List Event → Hover → Type 0
Tracks past h =
    (h.window_active ≡ last_active past)
    × (h.blocked_until_motion ≡ is_blocked past)
    × (h.active_initialized ≡ was_reported past)

step-Tracks :
    (e : Event) (past : List Event) (h : Hover) → Tracks past h → Tracks (e ∷ past) (step h e)
unfolding step
step-Tracks (active_changed b) past h t = ground arith
step-Tracks motion past h t = ground arith
step-Tracks suppress past h t = ground arith

-- The history with the newest event first.
abbrev pub newest_first : List Event → List Event → List Event
newest_first past [] = past
newest_first past (e ∷ es) = newest_first (e ∷ past) es

run-Tracks :
    (es past : List Event) (h : Hover) → Tracks past h → Tracks (newest_first past es) (run h es)
unfolding run
run-Tracks [] past h t = t
run-Tracks (e ∷ es) past h t =
    unfold run in run-Tracks es (e ∷ past) (step h e) (step-Tracks e past h t)

-- After any events since the start, a pointer that enters a pane may take the focus exactly when the
-- window is active and nothing has blocked the pointer since its last motion over the active window:
-- neither a choice by the keyboard nor a return to the window.
pub should_enter-run :
    (es : List Event)
    → should_enter (run initial es)
      ≡ (last_active (newest_first [] es) && not (is_blocked (newest_first [] es)))
unfolding should_enter
should_enter-run es = ground (arith, run-Tracks es [] initial (refl, refl, refl))
