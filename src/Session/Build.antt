-- ===== src/Session/Build.antt =====
-- The columns of a saved strip, with their panes (session_strip_rebuild_columns_from_saved_state).
use prettymux.Prelude.{
  ℕ, suc, Bool, false, Option, none, some, List, [], ◌∷◌, ◌++◌, if◌then◌else◌, length,
}
use prettymux.Prelude.Int.{ℤ, pos}
use prettymux.Prelude.Text.{Text, codes, text_eq}
use prettymux.Json.{
  Json, string, object, Items, nil, item, Members, has_member, string_member, int_member,
  bool_member, array_member,
}
use prettymux.Strip.Model.{Widget, leaf, Double, Column}
use prettymux.Strip.Column.{position, is_found}
use prettymux.Session.Save.{session_col_width}
use prettymux.Session.Lookup.{index_or_zero, in_range, positive_width, column_root, pane_by_id}

abbrev pub items_of : Option Items → Items
items_of none = nil
items_of (some xs) = xs

-- The text of json_array_get_string_element, empty for NULL.
abbrev pub element_text : Json → Text
element_text (string t) = t
element_text _ = []

-- A pane that is there and not seen yet.
abbrev pub unseen : List Widget → Option Widget → Option Widget
unseen seen none = none
unseen seen (some w) = if is_found (position w seen) then none else some w

module _ (ids : Widget → Text) where
  -- The panes that the ids of a column name, and the panes seen.
  abbrev pub take_panes : List Widget → Items → List Widget → List Widget × List Widget
  take_panes panes nil seen = ([], seen)
  take_panes panes (item v rest) seen = elim (unseen seen (pane_by_id ids (element_text v) panes)) [
    | none ↦ take_panes panes rest seen
    | some w ↦ let (more, seen') = take_panes panes rest (w ∷ seen) in (w ∷ more, seen')
  ]

  abbrev pub column_panes : List Widget → Members → List Widget → List Widget × List Widget
  column_panes panes o seen = elim (array_member o (codes "paneIds")) [
    | some pane_ids ↦ take_panes panes pane_ids seen
    | none ↦ take_panes panes (item (string (string_member o (codes "paneId") [])) nil) seen
  ]

  -- The first of the panes with the id.
  abbrev pub first_with_id : Text → List Widget → Option ℕ
  first_with_id id [] = none
  first_with_id id (w ∷ l) =
      if text_eq (ids w) id
      then some 0
      else elim (first_with_id id l) [ none ↦ none | some i ↦ some (suc i) ]

  -- The focused pane while a column is built.
  abbrev pub built_focus : Members → List Widget → ℤ
  built_focus o panes =
      in_range
        (if has_member o (codes "focusedPaneId")
          then index_or_zero (first_with_id (string_member o (codes "focusedPaneId") []) panes)
          else if has_member o (codes "focusedPane")
          then int_member o (codes "focusedPane") (pos 0)
          else pos 0)
        (length panes)

module _ {F : Type 0} ⦃num : Double F⦄ (ids : Widget → Text) (has_box : Bool) where
  abbrev pub built_column : Members → Widget → List Widget → Column F
  built_column o first rest =
      let width = positive_width (int_member o (codes "width") session_col_width) in
      record {
        notebook = some (column_root has_box first rest);
        panes = first ∷ rest;
        focused_pane = built_focus ids o (first ∷ rest);
        target_width = width;
        current_width = num.of_int width;
        maximized = bool_member o (codes "maximized") false;
        half_maximized = bool_member o (codes "halfMaximized") false;
      }

  -- The loop over the saved columns: the columns, and the panes seen.
  abbrev pub build_columns : List Widget → Items → List Widget → List (Column F) × List Widget
  build_columns panes nil seen = ([], seen)
  build_columns panes (item (object o) rest) seen =
      let (col_panes, seen') = column_panes ids panes o seen in
      let (cols, seen'') = build_columns panes rest seen' in
      elim col_panes [
        | [] ↦ (cols, seen'')
        | first ∷ more ↦ (built_column o first more ∷ cols, seen'')
      ]
  build_columns panes (item _ rest) seen = build_columns panes rest seen

  -- A column for each pane that no saved column names.
  abbrev pub lone_columns : List Widget → List Widget → List (Column F)
  lone_columns [] seen = []
  lone_columns (w ∷ l) seen =
      if is_found (position w seen)
      then lone_columns l seen
      else record {
        notebook = some (leaf w);
        panes = w ∷ [];
        focused_pane = pos 0;
        target_width = session_col_width;
        current_width = num.of_int session_col_width;
        maximized = false;
        half_maximized = false;
      }
        ∷ lone_columns l (w ∷ seen)

  abbrev pub rebuilt_columns : List Widget → Items → List (Column F)
  rebuilt_columns panes items =
      let (cols, seen) = build_columns panes items [] in cols ++ lone_columns panes seen
