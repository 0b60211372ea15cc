-- ===== src/Hover.antt =====
-- gtk/hover_focus.c: whether a pointer that enters a pane may take the focus.
pub mod Gate
mod Examples
use prettymux.Prelude.{Bool, true, false, not, ◌&&◌, if◌then◌else◌}

-- the three static variables
pub record Hover : Type 0 where
  pub window_active : Bool
  pub blocked_until_motion : Bool
  pub active_initialized : Bool

abbrev pub initial : Hover
initial = record { window_active = false; blocked_until_motion = false; active_initialized = false }

pub handle_window_active_changed : Bool → Hover → Hover
handle_window_active_changed active h =
    if not h.active_initialized
    then record h { window_active = active; active_initialized = true }
    else let blocked = if not h.window_active && active then true else h.blocked_until_motion in
      record h { window_active = active; blocked_until_motion = blocked }

pub note_pointer_motion : Hover → Hover
note_pointer_motion h = if not h.window_active then h else record h { blocked_until_motion = false }

pub suppress_until_motion : Hover → Hover
suppress_until_motion h = record h { blocked_until_motion = true }

pub should_enter : Hover → Bool
should_enter h = h.window_active && not h.blocked_until_motion

-- What reaches the module from the window: a change of the window's activity, a motion of the
-- pointer, a pane chosen by the keyboard or over the socket.
pub data Event : Type 0 where
  active_changed : Bool → Event
  motion : Event
  suppress : Event

pub step : Hover → Event → Hover
unfolding handle_window_active_changed note_pointer_motion suppress_until_motion
step h (active_changed active) = handle_window_active_changed active h
step h motion = note_pointer_motion h
step h suppress = suppress_until_motion h
