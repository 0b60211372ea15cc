-- ===== src/Strip/Focus.antt =====
-- Moving the focus between columns and panes: gtk/workspace_strip.c, and `workspace_focus_pane` with
-- the functions under it of gtk/workspace.c.
use prettymux.Prelude.{
  ℕ, suc, Bool, true, false, not, ◌&&◌, Option, none, some, List, [], ◌∷◌, ◌++◌, ◌==◌,
  if◌then◌else◌, set, length, leb,
}
use prettymux.Prelude.Int.{ℤ, pos, index?, pos_part, ltb_ℤ, leb_ℤ, ◌+ℤ◌, ◌-ℤ◌}
use prettymux.Strip.Model.{
  Widget, null, Double, Gtk, Column, Strip, Call, focus_terminal, LayoutMode, classic, strip,
  Workspace,
}
use prettymux.Strip.Column.{position, is_leaf, column_focused_notebook}
use prettymux.Strip.Camera.{with_state, pan_to_focused_column}

abbrev pub is_strip : LayoutMode → Bool
is_strip classic = false
is_strip strip = true

module _ {F : Type 0} where
  -- `col->focused_pane = i`
  abbrev pub focus_pane_of : Column F → ℕ → Column F
  focus_pane_of col i = record col { focused_pane = pos i }

  -- The double loop of `workspace_set_active_pane` over the columns from number `ci` on: every column
  -- that holds the notebook gets its pane focused, and the last one is the focused column.
  abbrev pub focus_in_columns : Widget → ℕ → List (Column F) → ℤ → List (Column F) × ℤ
  focus_in_columns notebook ci [] focused = ([], focused)
  focus_in_columns notebook ci (col ∷ cols) focused = elim (position notebook col.panes) [
    | none ↦
        let (rest, last) = focus_in_columns notebook (suc ci) cols focused in (col ∷ rest, last)
    | some pi ↦
        let (rest, last) = focus_in_columns notebook (suc ci) cols (pos ci) in
        (focus_pane_of col pi ∷ rest, last)
  ]

  -- Where the notebook is: the number of its column, and that column with its pane focused if the
  -- notebook is one of the column's panes.
  abbrev pub entered_column : Widget → ℕ → List (Column F) → Option (ℕ × Column F)
  entered_column notebook i [] = none
  entered_column notebook i (col ∷ cols) = elim (position notebook col.panes) [
    | some pi ↦ some (i, focus_pane_of col pi)
    | none ↦
        if is_leaf notebook col.notebook
        then some (i, col)
        else entered_column notebook (suc i) cols
  ]

module _ {F B : Type 0} where
  abbrev focus_in_strip : Widget → Strip F B → Strip F B
  focus_in_strip notebook state =
      let (cols, last) = focus_in_columns notebook 0 state.columns state.focused_col in
      record state { columns = cols; focused_col = last }

  -- `if (nb) ws->active_pane = nb`
  abbrev pub activate : Option Widget → Workspace F B → Workspace F B
  activate none ws = ws
  activate (some nb) ws = record ws { active_pane = nb }

  abbrev pub add_calls : List (Call F) → Workspace F B → Workspace F B
  add_calls cs ws = with_state ws (λ state. record state { calls = state.calls ++ cs })

module _ {F B : Type 0} ⦃gtk : Gtk B⦄ where
  unfoldable pub set_active_pane : Workspace F B → Widget → Workspace F B
  set_active_pane ws notebook =
      if not (not (notebook == null) && gtk.is_notebook notebook)
      then ws
      else elim (position notebook ws.pane_notebooks) [
        | none ↦ ws
        | some i ↦
            record (if is_strip ws.layout_mode
              then with_state ws (focus_in_strip notebook)
              else ws) { active_pane = notebook }
      ]

  -- `workspace_get_pane_index` is -1 exactly if `position` has no answer.
  unfoldable pub focus_pane : Workspace F B → Widget → Workspace F B × Bool
  focus_pane ws pane =
      if not (not (pane == null) && gtk.is_notebook pane)
      then (ws, false)
      else elim (position pane ws.pane_notebooks) [
        | none ↦ (ws, false)
        | some i ↦
            if gtk.has_current_terminal pane
            then (add_calls (focus_terminal pane ∷ []) (set_active_pane ws pane), true)
            else (set_active_pane ws pane, false)
      ]

module _ {F B : Type 0} ⦃num : Double F⦄ ⦃gtk : Gtk B⦄ where
  unfoldable pub focus_column : Workspace F B → ℤ → Workspace F B
  focus_column ws col_idx = elim ws.strip_state [
    | none ↦ ws
    | some state ↦ elim (index? state.columns col_idx) [
      | none ↦ ws
      | some col ↦ activate (column_focused_notebook gtk.is_notebook col) (record ws {
        strip_state = some (pan_to_focused_column (record state { focused_col = col_idx }));
      })
    ]
  ]

  -- on_column_notebook_focus_enter, for a notebook whose "workspace-ptr" is this workspace
  unfoldable pub on_focus_enter : Workspace F B → Widget → Workspace F B
  on_focus_enter ws notebook = elim ws.strip_state [
    | none ↦ ws
    | some state ↦ elim (entered_column notebook 0 state.columns) [
      | none ↦ ws
      | some (i, col) ↦
          focus_column
            (record ws { strip_state = some (record state { columns = set state.columns i col }) })
            (pos i)
    ]
  ]

  -- The focused column with more than one pane, which moving up and down wants.
  abbrev pub stacked_column : Strip F B → Option (Column F)
  stacked_column state = elim (index? state.columns state.focused_col) [
    | none ↦ none
    | some col ↦ if leb (length col.panes) 1 then none else some col
  ]

  -- From `col->focused_pane = target` on. The index was checked, so that a missing element is NULL.
  abbrev pub focus_target : Workspace F B → Strip F B → Column F → ℤ → Workspace F B × Bool
  focus_target ws state col target =
      let ws' = record ws {
        strip_state = some (record state {
          columns =
              set state.columns (pos_part state.focused_col) (record col { focused_pane = target });
        });
      } in
      elim (index? col.panes target) [
        | none ↦ (ws', false)
        | some nb ↦
            if not (nb == null) && gtk.is_notebook nb
            then focus_pane (record ws' { active_pane = nb }) nb
            else (ws', false)
      ]

  unfoldable pub focus_pane_up : Workspace F B → Workspace F B × Bool
  focus_pane_up ws = elim ws.strip_state [
    | none ↦ (ws, false)
    | some state ↦ elim (stacked_column state) [
      | none ↦ (ws, false)
      | some col ↦
          let target = col.focused_pane -ℤ pos 1 in
          if ltb_ℤ target (pos 0) then (ws, false) else focus_target ws state col target
    ]
  ]

  unfoldable pub focus_pane_down : Workspace F B → Workspace F B × Bool
  focus_pane_down ws = elim ws.strip_state [
    | none ↦ (ws, false)
    | some state ↦ elim (stacked_column state) [
      | none ↦ (ws, false)
      | some col ↦
          let target = col.focused_pane +ℤ pos 1 in
          if leb_ℤ (pos (length col.panes)) target
          then (ws, false)
          else focus_target ws state col target
    ]
  ]
