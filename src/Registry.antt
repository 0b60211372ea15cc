-- ===== src/Registry.antt =====
-- gtk/workspace.c: the array of workspaces, the current one and the serial numbers.
pub mod Members
pub mod Move
pub mod Effect
pub mod Current
pub mod Inside
pub mod Reach
mod Examples
pub mod Serial
pub mod Distinct
pub mod Fresh
pub mod Import
pub mod Same
pub mod Rollback
use prettymux.Prelude.{
  ℕ, zero, suc, ◌+◌, ◌%◌, ◌^◌, Bool, true, false, ◌&&◌, ◌||◌, Option, none, some, List, [], ◌∷◌,
  ◌++◌, ◌==◌, if◌then◌else◌, length, get_elem?, insert_at, erase_at,
}
use prettymux.Prelude.Int.{ℤ, pos, negsuc, eqb_ℤ, ltb_ℤ, leb_ℤ, index?, ◌+ℤ◌, ◌-ℤ◌}
use prettymux.Notifications.{Notifications}

-- The fields of a workspace that its place in the array is about. `address` is its own address, and
-- the container is known by it; panes are addresses of notebooks, 0 for NULL.
pub record Workspace : Type 0 where
  pub address : ℕ
  pub serial : ℕ
  pub pane_notebooks : List ℕ
  pub active_pane : ℕ
  pub detached_container_ref : Bool

-- The calls that show or save the array, with the addresses they are about.
pub data Call : Type 0 where
  -- the handlers of a notebook for a workspace, and the workspace that the notebook is marked with
  disconnect : ℕ → ℕ → Call
  connect : ℕ → ℕ → Call
  -- the container in the stack, the latter with the number in its name
  stack_remove : ℕ → Call
  stack_add : ℕ → ℕ → Call
  stack_show : ℕ → Call
  hold_container : ℕ → Call
  release_container : ℕ → Call
  remove_row : ℕ → Call
  insert_row : ℕ → ℕ → Call
  focus_primary : ℕ → Call
  refresh_label : ℕ → Call
  -- the first terminal of a new workspace
  add_terminal : ℕ → Call
  -- the workspace is freed
  release : ℕ → Call
  -- the row of the list box at an index is taken out and put in at another
  move_row : ℕ → ℕ → Call
  select_row : ℤ → Call
  queue_save : Call

pub record Registry : Type 0 where
  pub workspaces : List Workspace
  pub current_workspace : ℤ
  pub next_workspace_serial : ℕ
  pub notifications : Notifications
  pub calls : List Call

abbrev index_from : ℕ → ℕ → List Workspace → ℤ
index_from address i [] = negsuc 0
index_from address i (ws ∷ rest) =
    if ws.address == address then pos i else index_from address (suc i) rest

-- workspace_get_index, by the address of the workspace
unfoldable pub get_index : Registry → ℕ → ℤ
get_index r address = index_from address 0 r.workspaces

-- workspace_get_current. The code checks no lower bound: a negative index is out of the model.
unfoldable pub get_current : Registry → Option Workspace
get_current r = index? r.workspaces r.current_workspace

abbrev pub has_serial : ℕ → List Workspace → Bool
has_serial serial [] = false
has_serial serial (ws ∷ rest) = ws.serial == serial || has_serial serial rest

-- `workspace_get_by_serial(serial) != NULL`
unfoldable pub is_taken : Registry → ℕ → Bool
is_taken r serial = if serial == 0 then false else has_serial serial r.workspaces

-- The `while` loop of `workspace_allocate_serial_avoiding` on a `guint64`; `none` means that the fuel
-- ran out.
unfoldable pub find_serial : ℕ → Registry → ℕ → ℕ → ℕ → Option ℕ
find_serial zero r avoid_a avoid_b candidate = none
find_serial (suc fuel) r avoid_a avoid_b candidate =
    let rest = find_serial fuel r avoid_a avoid_b ((candidate + 1) % 2 ^ 64) in
    if candidate == avoid_a || candidate == avoid_b || is_taken r candidate
    then rest
    else some candidate

-- One round for each workspace and each avoided number, and one for the result.
unfoldable pub allocate_serial_avoiding : Registry → ℕ → ℕ → Option (Registry × ℕ)
allocate_serial_avoiding r avoid_a avoid_b =
    let first = if r.next_workspace_serial == 0 then 1 else r.next_workspace_serial in
    elim (find_serial (length r.workspaces + 3) r avoid_a avoid_b first) [
      | none ↦ none
      | some serial ↦ some (record r { next_workspace_serial = (serial + 1) % 2 ^ 64 }, serial)
    ]

-- The new index of the current workspace when one moves.
abbrev pub tracked : ℕ → ℕ → ℤ → ℤ
tracked from_idx to_idx current =
    if eqb_ℤ current (pos from_idx)
    then pos to_idx
    else if ltb_ℤ (pos from_idx) current && leb_ℤ current (pos to_idx)
    then current -ℤ pos 1
    else if leb_ℤ (pos to_idx) current && ltb_ℤ current (pos from_idx)
    then current +ℤ pos 1
    else current

-- `if (row_widget)` and `if (current_row)`: `has_row` says at which index the list box has a row.
abbrev pub shown : (ℤ → Bool) → Call → ℤ → List Call
shown has_row call i = if has_row i then call ∷ [] else []

-- workspace_move_in_array, where the array and the list box are there
unfoldable pub move_in_array : (ℤ → Bool) → Registry → ℤ → ℤ → Registry
move_in_array has_row r (pos from_idx) (pos to_idx) = elim (get_elem? r.workspaces from_idx) [
  | none ↦ r
  | some ws ↦ elim (get_elem? r.workspaces to_idx) [
    | none ↦ r
    | some _ ↦
        if from_idx == to_idx
        then r
        else (let current = tracked from_idx to_idx r.current_workspace in
            record r {
              workspaces = insert_at (erase_at r.workspaces from_idx) to_idx ws;
              current_workspace = current;
              calls =
                  ((r.calls ++ shown has_row (move_row from_idx to_idx) (pos from_idx))
                    ++ shown has_row (select_row current) current)
                  ++ queue_save ∷ [];
            })
  ]
]
move_in_array has_row r (pos from_idx) (negsuc n) = r
move_in_array has_row r (negsuc n) to_idx = r
