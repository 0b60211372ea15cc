-- ===== src/Session/Save.antt =====
-- The strip layout as JSON (session_save_workspace_strip_state).
use prettymux.Prelude.{
  ℕ, suc, ◌-◌, Bool, true, false, Option, none, some, List, [], ◌∷◌, map, if◌then◌else◌, length,
  get_elem?, ltb,
}
use prettymux.Prelude.Int.{ℤ, pos, negsuc, index?, clamp_index, ltb_ℤ}
use prettymux.Prelude.Text.{Text, codes}
use prettymux.Json.{
  bool, int, string, array, object, Items, nil, item, Members, end, member, strings,
}
use prettymux.Strip.Model.{Widget, Column, Strip, Workspace}
use prettymux.Strip.Column.{column_focused_notebook}
use prettymux.Strip.Focus.{is_strip}
use prettymux.Layout.{is_pane}

-- SESSION_STRIP_DEFAULT_COL_WIDTH
abbrev pub session_col_width : ℤ
session_col_width = pos 600

-- The members of a column's object.
abbrev pub column_members : Text → Items → ℤ → Text → ℤ → Bool → Bool → Members
column_members pane_id pane_ids focused_pane focused_pane_id width maximized half_maximized =
    member (codes "paneId") (string pane_id) (
      member (codes "paneIds") (array pane_ids) (
        member (codes "focusedPane") (int focused_pane) (
          member (codes "focusedPaneId") (string focused_pane_id) (
            member (codes "width") (int width) (
              member (codes "maximized") (bool maximized)
                (member (codes "halfMaximized") (bool half_maximized) end))))))

abbrev pub saved_width : ℤ → ℤ
saved_width target_width = if ltb_ℤ (pos 0) target_width then target_width else session_col_width

abbrev pub has_any : {F : Type 0} → List (Column F) → Bool
has_any [] = false
has_any (col ∷ cols) = true

-- `if (state && state->focused_col >= 0) focused_col = state->focused_col;`, else 0
abbrev pub not_negative : ℤ → ℤ
not_negative focused_col = if ltb_ℤ focused_col (pos 0) then pos 0 else focused_col

abbrev strip_members : Items → ℤ × Text → ℤ × Text → Members
strip_members columns focus maximized = member (codes "columns") (array columns) (
    member (codes "focusedColumn") (int focus.0) (
      member (codes "focusedPaneId") (string focus.1) (
        member (codes "maximizedColumn") (int maximized.0)
          (member (codes "maximizedPaneId") (string maximized.1) end))))

-- `ids` is `workspace_get_pane_id`, which answers NULL, here the empty text, for a pane without one.
module _ (ids : Widget → Text) (is_notebook : Widget → Bool) where
  abbrev pub id_of : Option Widget → Text
  id_of none = []
  id_of (some w) = ids w

  -- `GTK_IS_NOTEBOOK(pane_widget) ? workspace_get_pane_id(...) : ""`
  abbrev pub pane_text : Widget → Text
  pane_text w = if is_pane is_notebook w then ids w else []

  abbrev pub column_pane_id : {F : Type 0} → Column F → Text
  column_pane_id col = id_of (column_focused_notebook is_notebook col)

  -- `CLAMP(col->focused_pane, 0, len - 1)`, or 0 for no panes
  abbrev pub saved_focused_pane : {F : Type 0} → Column F → ℕ
  saved_focused_pane col =
      if ltb 0 (length col.panes) then clamp_index col.focused_pane (length col.panes - 1) else 0

  -- The id of a pane that is a notebook, else another one.
  abbrev pub id_or : Text → Option Widget → Text
  id_or other none = other
  id_or other (some w) = if is_pane is_notebook w then ids w else other

  abbrev pub saved_focused_id : {F : Type 0} → Column F → Text
  saved_focused_id col = id_or (column_pane_id col) (get_elem? col.panes (saved_focused_pane col))

  abbrev pub saved_pane_ids : {F : Type 0} → Column F → Items
  saved_pane_ids col =
      if ltb 0 (length col.panes)
      then strings (map pane_text col.panes)
      else strings (column_pane_id col ∷ [])

  unfoldable pub save_column : {F : Type 0} → Column F → Members
  save_column col =
      column_members (column_pane_id col) (saved_pane_ids col) (pos (saved_focused_pane col))
        (saved_focused_id col) (saved_width col.target_width) col.maximized col.half_maximized

  abbrev pub save_columns : {F : Type 0} → List (Column F) → Items
  save_columns [] = nil
  save_columns (col ∷ cols) = item (object (save_column col)) (save_columns cols)

  -- The columns of a strip without any: one for each pane.
  abbrev pub save_panes : List Widget → Items
  save_panes [] = nil
  save_panes (w ∷ l) =
      item
        (object (
          column_members (ids w) (strings (ids w ∷ [])) (pos 0) (ids w) session_col_width false
            false))
        (save_panes l)

  -- The first column that is maximized, from number `i` on: -1 and "" for none.
  abbrev pub first_maximized : {F : Type 0} → ℕ → List (Column F) → ℤ × Text
  first_maximized i [] = (negsuc 0, [])
  first_maximized i (col ∷ cols) =
      if col.maximized then (pos i, column_pane_id col) else first_maximized (suc i) cols

  -- The focused column and its pane's id: 0 and "" when the index is out of range.
  abbrev pub saved_focus : {F : Type 0} → List (Column F) → ℤ → ℤ × Text
  saved_focus cols focused_col = elim (index? cols focused_col) [
    | none ↦ (pos 0, [])
    | some col ↦ (focused_col, column_pane_id col)
  ]

  abbrev pub saved_state : {F B : Type 0} → List Widget → Option (Strip F B) → Members
  saved_state pane_notebooks none =
      strip_members (save_panes pane_notebooks) (pos 0, []) (negsuc 0, [])
  saved_state pane_notebooks (some state) =
      strip_members
        (if has_any state.columns then save_columns state.columns else save_panes pane_notebooks)
        (saved_focus state.columns (not_negative state.focused_col))
        (first_maximized 0 state.columns)

  -- session_save_workspace_strip_state: the member that it adds to the workspace's object, if any
  unfoldable pub save_strip_state : {F B : Type 0} → Workspace F B → Members → Members
  save_strip_state ws rest =
      if is_strip ws.layout_mode
      then member (codes "stripState") (object (saved_state ws.pane_notebooks ws.strip_state)) rest
      else rest
