-- ===== src/Notifications.antt =====
-- gtk/notifications.c: the list of notifications, the toast, and what the removal of a workspace does
-- to both.
pub mod Removal
pub mod Bounded
mod Examples
use prettymux.Prelude.{
  ℕ, zero, suc, ◌+◌, ◌-◌, Bool, true, false, not, ◌&&◌, Option, none, some, List, [], ◌∷◌, ◌++◌,
  ◌==◌, if◌then◌else◌, length, get_elem?, set, erase_at, ltb,
}
use prettymux.Prelude.Int.{ℤ, pos, negsuc, eqb_ℤ, ltb_ℤ, leb_ℤ, ◌-ℤ◌}
use prettymux.Prelude.Text.{Text, is_empty}

-- NotificationEntry; `pane_notebook` is a pointer, 0 for NULL
pub record Entry : Type 0 where
  pub text : Text
  pub workspace_idx : ℤ
  pub pane_notebook : ℕ
  pub tab_idx : ℤ

-- SidebarToastAction
pub record ToastAction : Type 0 where
  pub workspace_idx : ℤ
  pub pane_notebook : ℕ
  pub tab_idx : ℤ

-- What shows outside the module.
pub data Call : Type 0 where
  -- the bell's label with a count, 0 for the plain bell
  bell : ℕ → Call
  -- the toast is hidden
  hide : Call
  -- the status entry "notification.recent" of the workspace at an index, with its summary
  status : ℤ → Text → Call

-- the static variables
pub record Notifications : Type 0 where
  pub entries : List Entry
  pub toast_action : Option ToastAction
  pub toast_timeout_id : ℕ
  pub toast_force_bottom : Bool
  pub toast_copy_style : Bool
  pub toast_recording_marker : Bool
  pub calls : List Call

abbrev pub initial : Notifications
initial = record {
  entries = [];
  toast_action = none;
  toast_timeout_id = 0;
  toast_force_bottom = false;
  toast_copy_style = false;
  toast_recording_marker = false;
  calls = [];
}

abbrev pub call : Call → Notifications → Notifications
call c n = record n { calls = n.calls ++ c ∷ [] }

-- notifications_count
unfoldable pub count : Notifications → ℕ
count n = length n.entries

-- notifications_clear
unfoldable pub clear : Notifications → Notifications
clear n = record n { entries = [] }

-- `while (len > 50) remove_index(0)`: each round removes one entry, so the list's own length is fuel
-- enough.
abbrev pub trim_loop : List Entry → List Entry
trim_loop [] = []
trim_loop (e ∷ rest) =
    let shorter = trim_loop rest in if ltb 50 (suc (length rest)) then shorter else e ∷ rest

-- notifications_add_full; `workspace_count` is the length of the array of workspaces
unfoldable pub add_full : Text → ℤ → ℕ → ℤ → ℕ → Notifications → Notifications
add_full msg ws_idx pane tab_idx workspace_count n =
    let entry : Entry = record {
      text = msg;
      workspace_idx = ws_idx;
      pane_notebook = pane;
      tab_idx = tab_idx;
    } in
    let added = record n { entries = trim_loop (n.entries ++ entry ∷ []) } in
    if not (is_empty msg) && leb_ℤ (pos 0) ws_idx && ltb_ℤ ws_idx (pos workspace_count)
    then call (status ws_idx msg) added
    else added

-- sidebar_toast_hide
unfoldable pub toast_hide : Notifications → Notifications
toast_hide n = call hide (record n {
  toast_action = none;
  toast_timeout_id = 0;
  toast_force_bottom = false;
  toast_copy_style = false;
  toast_recording_marker = false;
})

-- bell_button_update
unfoldable pub bell_button_update : Notifications → Notifications
bell_button_update n = call (bell (length n.entries)) n

-- The loop over the indices below `i`, from the last one down.
unfoldable pub removal_loop : ℤ → ℕ → List Entry → List Entry
removal_loop removed zero entries = entries
removal_loop removed (suc i) entries = elim (get_elem? entries i) [
  | none ↦ removal_loop removed i entries
  | some e ↦ removal_loop removed i (
      if eqb_ℤ e.workspace_idx removed
      then erase_at entries i
      else if ltb_ℤ removed e.workspace_idx
      then set entries i (record e { workspace_idx = e.workspace_idx -ℤ pos 1 })
      else entries)
]

abbrev pub removal_toast : ℤ → Notifications → Notifications
removal_toast removed n = elim n.toast_action [
  | none ↦ n
  | some action ↦
      if eqb_ℤ action.workspace_idx removed
      then toast_hide n
      else if ltb_ℤ removed action.workspace_idx
      then record n {
        toast_action = some (record action { workspace_idx = action.workspace_idx -ℤ pos 1 });
      }
      else n
]

-- notifications_on_workspace_removed
unfoldable pub on_workspace_removed : ℤ → Notifications → Notifications
on_workspace_removed (negsuc i) n = n
on_workspace_removed (pos i) n = bell_button_update (
    removal_toast (pos i)
      (record n { entries = removal_loop (pos i) (length n.entries) n.entries }))
