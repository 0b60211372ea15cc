-- ===== src/Session/Lookup.antt =====
-- Panes and columns by the ids of their panes (gtk/session.c), and the bounds that the file is held to.
use prettymux.Prelude.{
  ℕ, suc, Bool, false, ◌&&◌, ◌||◌, Option, none, some, List, [], ◌∷◌, if◌then◌else◌, ltb,
}
use prettymux.Prelude.Int.{ℤ, pos, negsuc, leb_ℤ}
use prettymux.Prelude.Text.{Text, text_eq, is_empty}
use prettymux.Strip.Model.{Widget, Root, leaf, Column}
use prettymux.Strip.Column.{is_found, chain_from}
use prettymux.Layout.{is_pane}
use prettymux.Session.Save.{session_col_width}

-- `if (focused_pane < 0 || focused_pane >= (int)panes->len) focused_pane = 0;`
abbrev pub in_range : ℤ → ℕ → ℤ
in_range (pos i) len = if ltb i len then pos i else pos 0
in_range (negsuc i) len = pos 0

abbrev pub index_or_zero : Option ℕ → ℤ
index_or_zero none = pos 0
index_or_zero (some i) = pos i

-- `if (width <= 0) width = SESSION_STRIP_DEFAULT_COL_WIDTH;`
abbrev pub positive_width : ℤ → ℤ
positive_width width = if leb_ℤ width (pos 0) then session_col_width else width

-- session_strip_build_column_root, for the panes of a column
abbrev pub build_column_root : Widget → List Widget → Root
build_column_root first rest = chain_from (leaf first) rest

-- `col->notebook`: with no column box, the first pane.
abbrev pub column_root : Bool → Widget → List Widget → Root
column_root has_box first rest = if has_box then build_column_root first rest else leaf first

-- `ids` is `workspace_get_pane_id`, with the empty text for NULL.
module _ (ids : Widget → Text) where
  -- workspace_get_pane_by_id
  abbrev pub pane_by_id_in : Text → List Widget → Option Widget
  pane_by_id_in id [] = none
  pane_by_id_in id (w ∷ l) = if text_eq (ids w) id then some w else pane_by_id_in id l

  unfoldable pub pane_by_id : Text → List Widget → Option Widget
  pane_by_id id panes = if is_empty id then none else pane_by_id_in id panes

module _ (ids : Widget → Text) (is_notebook : Widget → Bool) where
  -- session_strip_column_pane_index_by_pane_id
  abbrev pub id_position : Text → List Widget → Option ℕ
  id_position id [] = none
  id_position id (w ∷ l) =
      if is_pane is_notebook w && text_eq (ids w) id
      then some 0
      else elim (id_position id l) [ none ↦ none | some i ↦ some (suc i) ]

  unfoldable pub pane_index_by_id : {F : Type 0} → Text → Column F → Option ℕ
  pane_index_by_id id col = if is_empty id then none else id_position id col.panes

  -- `GTK_IS_NOTEBOOK(col->notebook)` with the wanted id
  abbrev pub root_has_id : Text → Option Root → Bool
  root_has_id id (some (leaf w)) = is_pane is_notebook w && text_eq (ids w) id
  root_has_id id _ = false

  -- session_strip_column_index_by_pane_id
  abbrev pub column_index_in : {F : Type 0} → Text → List (Column F) → Option ℕ
  column_index_in id [] = none
  column_index_in id (col ∷ cols) =
      if is_found (pane_index_by_id id col) || root_has_id id col.notebook
      then some 0
      else elim (column_index_in id cols) [ none ↦ none | some i ↦ some (suc i) ]

  unfoldable pub column_index_by_id : {F : Type 0} → Text → List (Column F) → Option ℕ
  column_index_by_id id cols = if is_empty id then none else column_index_in id cols
