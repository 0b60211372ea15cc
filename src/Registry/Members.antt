-- ===== src/Registry/Members.antt =====
-- gtk/workspace.c: how a workspace comes into the array and leaves it, and how it is shown.
use prettymux.Prelude.{
  ℕ, zero, suc, ◌+◌, ◌-◌, ◌%◌, ◌^◌, Bool, true, false, ◌&&◌, Option, none, some, List, [], ◌∷◌,
  ◌++◌, ◌==◌, if◌then◌else◌, length, get_elem?, insert_at, erase_at, ltb, leb,
}
use prettymux.Prelude.Int.{ℤ, pos, negsuc, ltb_ℤ, leb_ℤ, index?, ◌+ℤ◌, ◌-ℤ◌}
use prettymux.Notifications.{on_workspace_removed}
use prettymux.Registry.{
  Registry, Workspace, Call, disconnect, connect, stack_remove, stack_add, stack_show,
  hold_container, release_container, remove_row, insert_row, select_row, focus_primary,
  refresh_label, release, add_terminal, shown, allocate_serial_avoiding,
}

-- What the code asks GTK: whether the list box has a row at an index, and `GTK_IS_NOTEBOOK`.
pub record Ui : Type 0 where
  pub has_row : ℤ → Bool
  pub is_notebook : ℕ → Bool

abbrev pub emit : List Call → Registry → Registry
emit more r = record r { calls = r.calls ++ more }

-- workspace_switch
unfoldable pub switch : Ui → ℤ → Registry → Registry
switch ui index r = elim (index? r.workspaces index) [
  | none ↦ r
  | some ws ↦
      emit
        (stack_show ws.address ∷ shown ui.has_row (select_row index) index
          ++ focus_primary ws.address ∷ [])
        (record r { current_workspace = index })
]

-- One call for each pane that is a notebook.
abbrev for_panes : Ui → (ℕ → Call) → List ℕ → List Call
for_panes ui call [] = []
for_panes ui call (pane ∷ rest) =
    if ui.is_notebook pane then call pane ∷ for_panes ui call rest else for_panes ui call rest

-- `if (row) gtk_list_box_remove(...)`
abbrev row_gone : Ui → ℕ → List Call
row_gone ui index = shown ui.has_row (remove_row index) (pos index)

-- `g_ptr_array_remove_index` and what the notifications do then.
abbrev taken_out : ℕ → Registry → Registry
taken_out index r = record r {
  workspaces = erase_at r.workspaces index;
  notifications = on_workspace_removed (pos index) r.notifications;
}

-- `if (current_workspace >= (int)workspaces->len) current_workspace = workspaces->len - 1;`
abbrev pub pulled_back : ℕ → ℤ → ℤ
pulled_back len current = if ltb_ℤ current (pos len) then current else pos len -ℤ pos 1

-- workspace_remove, at an index that is not negative: the code checks no lower bound
unfoldable pub remove : Ui → ℕ → Registry → Registry
remove ui index r = elim (get_elem? r.workspaces index) [
  | none ↦ r
  | some ws ↦
      if leb (length r.workspaces) 1
      then r
      else (let cleared =
            emit
              (for_panes ui (λ pane. disconnect pane ws.address) ws.pane_notebooks
                ++ stack_remove ws.address ∷ row_gone ui index)
              r in
          let without = taken_out index cleared in
          let current = pulled_back (length without.workspaces) without.current_workspace in
          emit (release ws.address ∷ [])
            (switch ui current (record without { current_workspace = current })))
]

-- The current workspace after the one at `index` was detached; no workspace makes it 0.
abbrev pub detached_current : ℕ → ℕ → ℤ → ℤ
detached_current index len current =
    if len == 0
    then pos 0
    else if ltb_ℤ (pos index) current
    then current -ℤ pos 1
    else pulled_back len current

-- workspace_detach_from_instance, with the stack and the list box there
unfoldable pub detach : Ui → ℤ → Registry → Registry × Option Workspace
detach ui (negsuc n) r = (r, none)
detach ui (pos index) r = elim (get_elem? r.workspaces index) [
  | none ↦ (r, none)
  | some ws ↦
      let gone = record ws { active_pane = 0; detached_container_ref = true } in
      let cleared =
        emit
          ((for_panes ui (λ pane. disconnect pane ws.address) ws.pane_notebooks
              ++ (if ws.detached_container_ref then [] else hold_container ws.address ∷ []))
            ++ stack_remove ws.address ∷ row_gone ui index)
          r in
      let without = taken_out index cleared in
      let current = detached_current index (length without.workspaces) without.current_workspace in
      (switch ui current (record without { current_workspace = current }), some gone)
]

-- `if (insert_index < 0 || insert_index > (int)workspaces->len) insert_index = (int)workspaces->len;`
abbrev pub attach_index : ℤ → ℕ → ℕ
attach_index (pos i) len = if ltb len i then len else i
attach_index (negsuc i) len = len

-- `workspaces->len > 1 && insert_index <= current_workspace`, of the array with the new one
abbrev pub attached_current : ℕ → ℕ → ℤ → ℤ
attached_current index len current =
    if ltb 1 len && leb_ℤ (pos index) current then current +ℤ pos 1 else current

-- workspace_attach_to_instance behind its guards, for a workspace with its serial number
unfoldable pub attach_with : Ui → Workspace → ℤ → Registry → Registry
attach_with ui ws target_index r =
    let index = attach_index target_index (length r.workspaces) in
    let inserted = insert_at r.workspaces index (record ws { detached_container_ref = false }) in
    let current = attached_current index (length inserted) r.current_workspace in
    let number = if ws.serial == 0 then length inserted - 1 else ws.serial in
    let added =
      emit
        ((for_panes ui (λ pane. connect pane ws.address) ws.pane_notebooks
            ++ stack_add ws.address number
              ∷ (if ws.detached_container_ref then release_container ws.address ∷ [] else []))
          ++ insert_row ws.address index ∷ [])
        (record r { workspaces = inserted; current_workspace = current }) in
    emit (refresh_label ws.address ∷ []) (switch ui current added)

-- workspace_attach_to_instance, with the stack and the list box there; `none` means that no serial
-- number was found
unfoldable pub attach : Ui → Workspace → ℤ → Registry → Option Registry
attach ui ws target_index r =
    if ws.serial == 0
    then elim (allocate_serial_avoiding r 0 0) [
      | none ↦ none
      | some allocated ↦
          some (attach_with ui (record ws { serial = allocated.1 }) target_index allocated.0)
    ]
    else some (attach_with ui ws target_index r)

-- The new workspace in the array, the stack and the list box.
abbrev pub with_added : ℕ → ℕ → Registry × ℕ → Registry
with_added address notebook allocated =
    let (r, serial) = allocated in
    let ws : Workspace = record {
      address = address;
      serial = serial;
      pane_notebooks = notebook ∷ [];
      active_pane = notebook;
      detached_container_ref = false;
    } in
    emit
      (connect notebook address
        ∷ stack_add address serial
        ∷ insert_row address (length r.workspaces)
        ∷ add_terminal address
        ∷ [])
      (record r { workspaces = r.workspaces ++ ws ∷ [] })

-- workspace_add; the new workspace and its first notebook are at addresses
unfoldable pub add : Ui → ℕ → ℕ → Registry → Option Registry
add ui address notebook r = elim (allocate_serial_avoiding r 0 0) [
  | none ↦ none
  | some allocated ↦
      some (switch ui (pos (length r.workspaces)) (with_added address notebook allocated))
]

-- `workspace_get_by_serial`, as the index of the first workspace with the number, which is not 0
abbrev pub find_by_serial : ℕ → List Workspace → Option ℕ
find_by_serial serial [] = none
find_by_serial serial (ws ∷ rest) =
    if ws.serial == serial
    then some 0
    else elim (find_by_serial serial rest) [ none ↦ none | some i ↦ some (suc i) ]

-- `ws->serial = serial`, for the workspace at an index
abbrev pub set_serial : ℕ → ℕ → List Workspace → List Workspace
set_serial serial i [] = []
set_serial serial zero (ws ∷ rest) = record ws { serial = serial } ∷ rest
set_serial serial (suc i) (ws ∷ rest) = ws ∷ set_serial serial i rest

-- Another workspace with the number gets a new one.
unfoldable pub remap_collision : ℕ → ℕ → ℕ → Registry → Option Registry
remap_collision index own serial r = elim (find_by_serial serial r.workspaces) [
  | none ↦ some r
  | some collision ↦
      if collision == index then some r else elim (allocate_serial_avoiding r serial own) [
        | none ↦ none
        | some allocated ↦ some (record allocated.0 {
          workspaces = set_serial allocated.1 collision allocated.0.workspaces;
        })
      ]
]

abbrev pub with_serial : ℕ → ℕ → Registry → Registry
with_serial index serial r = record r {
  workspaces = set_serial serial index r.workspaces;
  next_workspace_serial =
      if leb r.next_workspace_serial serial then (serial + 1) % 2 ^ 64 else r.next_workspace_serial;
}

-- The start of workspace_restore_from_payload_object, for the workspace at `index` with the serial
-- number `own` and a `serial` of the payload that is positive.
unfoldable pub restore_serial : ℕ → ℕ → ℕ → Registry → Option Registry
restore_serial index own serial r = elim (remap_collision index own serial r) [
  | none ↦ none
  | some remapped ↦ some (with_serial index serial remapped)
]
