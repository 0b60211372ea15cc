-- ===== src/Session/Restore.antt =====
-- The strip layout from JSON: the columns, the box and the focus (session_restore_workspace_strip_state).
use prettymux.Prelude.{
  Bool, true, false, not, ◌||◌, Option, none, some, List, [], ◌∷◌, ◌++◌, map, if◌then◌else◌, length,
  ltb,
}
use prettymux.Prelude.Int.{ℤ}
use prettymux.Prelude.Text.{Text, codes}
use prettymux.Json.{nil, item, Members, array_member, object_member}
use prettymux.Strip.Model.{Widget, Root, leaf, Double, Gtk, Column, Strip}
use prettymux.Strip.Focus.{is_strip, focus_column}
use prettymux.Strip.Columns.{apply_layout}
use prettymux.Layout.{LayoutState}
use prettymux.Session.Build.{rebuilt_columns}
use prettymux.Session.Read.{reset_column, read_strip}

abbrev pub all_panes : {F : Type 0} → List (Column F) → List Widget
all_panes [] = []
all_panes (col ∷ cols) = col.panes ++ all_panes cols

module _ {B : Type 0} ⦃gtk : Gtk B⦄ where
  -- Each of the widgets that stands in the box leaves it. A pane that stands in a `GtkPaned` leaves that
  -- one, which goes from the box with the other children right after.
  abbrev pub remove_roots : List Root → B → B
  remove_roots [] box = box
  remove_roots (r ∷ rs) box = remove_roots rs (if gtk.contains box r then gtk.remove box r else box)

  abbrev pub append_roots : {F : Type 0} → List (Column F) → B → B
  append_roots [] box = box
  append_roots (col ∷ cols) box =
      append_roots cols (elim col.notebook [ none ↦ box | some r ↦ gtk.append box r ])

  -- The column box with the roots of the new columns in place of all its children.
  abbrev pub filled_box : {F : Type 0} → List (Column F) → B → B
  filled_box cols box =
      let detached = remove_roots (map leaf (all_panes cols)) box in
      append_roots cols (remove_roots (gtk.children detached) detached)

module _ {F B : Type 0} where
  abbrev pub has_box : Strip F B → Bool
  has_box state = elim state.column_box [ none ↦ false | some b ↦ true ]

  abbrev pub has_any_column : Option (Strip F B) → Bool
  has_any_column none = false
  has_any_column (some state) = ltb 0 (length state.columns)

module _ {F B : Type 0} ⦃num : Double F⦄ ⦃gtk : Gtk B⦄ (ids : Widget → Text) where
  -- The columns, the box, the array of the panes and the primary notebook after a rebuild.
  abbrev pub with_columns : List (Column F) → LayoutState F B → Strip F B → LayoutState F B
  with_columns [] s state = s
  with_columns (col ∷ cols) s state =
      let rebuilt : List (Column F) = col ∷ cols in
      let panes = all_panes rebuilt in
      record s {
        ws = record s.ws {
          strip_state = some (record state {
            columns = rebuilt;
            column_box = elim state.column_box [
              | none ↦ none
              | some box ↦ some (filled_box rebuilt box)
            ];
          });
          pane_notebooks = panes;
        };
        notebook = elim panes [ [] ↦ s.notebook | w ∷ rest ↦ w ];
      }

  -- session_strip_rebuild_columns_from_saved_state, for a strip that is there
  unfoldable pub rebuild_columns : Members → LayoutState F B → Strip F B → LayoutState F B
  rebuild_columns o s state = elim (array_member o (codes "columns")) [
    | none ↦ s
    | some nil ↦ s
    | some (item v rest) ↦
        with_columns (rebuilt_columns ids (has_box state) s.ws.pane_notebooks (item v rest)) s state
  ]

  -- From the reset of the columns on.
  abbrev pub read_state : Members → Strip F B → Strip F B × ℤ
  read_state o state =
      let (focus, cols) =
        read_strip ids gtk.is_notebook o state.focused_col (map reset_column state.columns) in
      (record state { columns = cols; focused_col = focus }, focus)

  abbrev pub read_layout : Members → LayoutState F B → LayoutState F B
  read_layout o s = elim s.ws.strip_state [
    | none ↦ s
    | some state ↦
        let (state', focus) = read_state o state in
        record s {
          ws = focus_column (apply_layout (record s.ws { strip_state = some state' })) focus;
        }
  ]

  -- `!state || !state->columns || state->columns->len == 0` ends the function, also after the rebuild.
  abbrev pub restore_object : Members → LayoutState F B → LayoutState F B
  restore_object o s = elim s.ws.strip_state [
    | none ↦ s
    | some state ↦
        let s' = rebuild_columns o s state in
        if has_any_column s'.ws.strip_state then read_layout o s' else s'
  ]

  -- session_restore_workspace_strip_state
  unfoldable pub restore_strip_state : Members → LayoutState F B → LayoutState F B
  restore_strip_state ws_obj s =
      if not (is_strip s.ws.layout_mode) || not (has_any_column s.ws.strip_state)
      then s
      else elim (object_member ws_obj (codes "stripState")) [
        | none ↦ s
        | some o ↦ restore_object o s
      ]
