-- ===== src/Strip/Panes.antt =====
-- Panes stacked in one column (gtk/workspace_strip.c). The references that the code holds while it
-- takes the old chain of `GtkPaned` apart keep the notebooks alive, and show in no state here.
use prettymux.Prelude.{
  ℕ, Bool, true, false, Option, none, some, List, [], ◌∷◌, ◌++◌, ◌==◌, if◌then◌else◌, get_elem?,
  set, insert_at, erase_at, length, leb,
}
use prettymux.Prelude.Int.{ℤ, pos, index?, clamp_index, leb_ℤ, ltb_ℤ, ◌+ℤ◌, ◌-ℤ◌}
use prettymux.Strip.Model.{
  Widget, null, Root, Double, Gtk, Column, Strip, set_size_request, Workspace,
}
use prettymux.Strip.Column.{
  position, find_column, resolve_focused_col, column_focused_notebook, rebuild_column_paned_chain,
}
use prettymux.Strip.Focus.{activate}
use prettymux.Strip.Columns.{apply_layout, in_box, remove_from_box}

module _ {F B : Type 0} where
  unfoldable pub column_pane_count : Workspace F B → ℤ → ℕ
  column_pane_count ws col_idx = elim ws.strip_state [
    | none ↦ 0
    | some state ↦ elim (index? state.columns col_idx) [ none ↦ 0 | some col ↦ length col.panes ]
  ]

-- The focused index after a removal that leaves `len` panes.
abbrev pub pull_back : ℕ → ℤ → ℤ
pull_back len focused =
    let f = if leb_ℤ (pos len) focused then pos len -ℤ pos 1 else focused in
    if ltb_ℤ f (pos 0) then pos 0 else f

module _ {F : Type 0} where
  -- The pane list with one more pane below the focused one, which gets the focus.
  abbrev pub split_column : Widget → Column F → Column F
  split_column new_notebook col =
      let insert_idx = clamp_index (col.focused_pane +ℤ pos 1) (length col.panes) in
      let panes = insert_at col.panes insert_idx new_notebook in
      record col {
        panes = panes;
        focused_pane = pos insert_idx;
        notebook = rebuild_column_paned_chain panes;
      }

  abbrev pub unsplit_column : ℕ → Column F → Column F
  unsplit_column pane_idx col =
      let panes = erase_at col.panes pane_idx in
      record col {
        panes = panes;
        focused_pane = pull_back (length panes) col.focused_pane;
        notebook = rebuild_column_paned_chain panes;
      }

module _ {F : Type 0} where
  -- The column that holds the pane beside others, and the pane's index in it: what
  -- `workspace_strip_remove_pane_from_column` looks up before it changes anything.
  unfoldable pub pane_place : Widget → List (Column F) → Option (ℕ × Column F × ℕ)
  pane_place pane cols = elim (find_column pane cols) [
    | none ↦ none
    | some col_idx ↦ elim (get_elem? cols col_idx) [
      | none ↦ none
      | some col ↦ if leb (length col.panes) 1 then none else elim (position pane col.panes) [
        | none ↦ none
        | some pane_idx ↦ some (col_idx, col, pane_idx)
      ]
    ]
  ]

module _ {F B : Type 0} ⦃num : Double F⦄ ⦃gtk : Gtk B⦄ where
  -- `if (new_root)`: the new root gets the column's width and goes last into the box
  abbrev pub show_root : ℤ → Option Root → Strip F B → Strip F B
  show_root width none state = state
  show_root width (some r) state =
      in_box (λ box. gtk.append box r)
        (record state { calls = state.calls ++ set_size_request r width ∷ [] })

  -- Column `i` becomes `col'`: the old root leaves the box and the new one enters it.
  abbrev pub replace_column : ℕ → Column F → Column F → Strip F B → Strip F B
  replace_column i col col' state =
      let out = remove_from_box col.notebook state in
      show_root col'.target_width col'.notebook (record out { columns = set state.columns i col' })

  unfoldable pub split_vertical_in_column : Workspace F B → Widget → Workspace F B × Bool
  split_vertical_in_column ws new_notebook =
      if new_notebook == null then (ws, false) else elim ws.strip_state [
        | none ↦ (ws, false)
        | some state ↦ elim (resolve_focused_col ws) [
          | none ↦ (ws, false)
          | some active_col ↦ elim (get_elem? state.columns active_col) [
            | none ↦ (ws, false)
            | some col ↦ (
              apply_layout (record ws {
                strip_state =
                    some (replace_column active_col col (split_column new_notebook col) state);
              }),
              true,
            )
          ]
        ]
      ]

  unfoldable pub remove_pane_from_column : Workspace F B → Widget → Workspace F B × Bool
  remove_pane_from_column ws pane = if pane == null then (ws, false) else elim ws.strip_state [
    | none ↦ (ws, false)
    | some state ↦ elim (pane_place pane state.columns) [
      | none ↦ (ws, false)
      | some (col_idx, col, pane_idx) ↦
          let col' = unsplit_column pane_idx col in
          (
            apply_layout (
                activate (column_focused_notebook gtk.is_notebook col')
                  (record ws { strip_state = some (replace_column col_idx col col' state) })),
            true,
          )
    ]
  ]
