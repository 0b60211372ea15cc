-- ===== src/Session/Read.antt =====
-- What a saved strip says of the columns that are there, after they were built
-- (session_restore_workspace_strip_state).
use prettymux.Prelude.{
  ℕ, suc, Bool, true, false, ◌||◌, Option, none, some, List, [], if◌then◌else◌, length, get_elem?,
  set, ltb,
}
use prettymux.Prelude.Int.{ℤ, pos, negsuc}
use prettymux.Prelude.Text.{Text, codes}
use prettymux.Json.{
  object, Items, nil, item, Members, has_member, string_member, int_member, bool_member,
  array_member,
}
use prettymux.Strip.Model.{Widget, Double, Column}
use prettymux.Session.Lookup.{in_range, positive_width, pane_index_by_id, column_index_by_id}
use prettymux.Session.Build.{items_of}

abbrev pub maximize_at : {F : Type 0} → Option ℕ → List (Column F) → List (Column F)
maximize_at none cols = cols
maximize_at (some k) cols = elim (get_elem? cols k) [
  | none ↦ cols
  | some col ↦ set cols k (record col { maximized = true })
]

module _ {F : Type 0} ⦃num : Double F⦄ where
  -- The state before the members of the columns are read: no width and no flag of the saved ones.
  abbrev pub reset_column : Column F → Column F
  reset_column col =
      let width = positive_width col.target_width in
      record col {
        target_width = width;
        current_width = num.of_int width;
        maximized = false;
        half_maximized = false;
      }

module _ {F : Type 0} ⦃num : Double F⦄ (ids : Widget → Text) (is_notebook : Widget → Bool) where
  -- Which column a saved one is for: that of its pane, else the one at the same index.
  abbrev pub wanted_column : Members → ℕ → List (Column F) → Option ℕ
  wanted_column o i cols =
      elim (column_index_by_id ids is_notebook (string_member o (codes "paneId") []) cols) [
        | some k ↦ some k
        | none ↦ if ltb i (length cols) then some i else none
      ]

  abbrev pub read_focus : Members → Column F → ℤ
  read_focus o col =
      if has_member o (codes "focusedPaneId")
      then elim (pane_index_by_id ids is_notebook (string_member o (codes "focusedPaneId") [])
          col) [ none ↦ pos 0 | some i ↦ pos i ]
      else if has_member o (codes "focusedPane")
      then int_member o (codes "focusedPane") col.focused_pane
      else col.focused_pane

  -- What a saved column says of a column.
  abbrev pub read_column : Members → Column F → Column F
  read_column o col =
      let width = positive_width (int_member o (codes "width") col.target_width) in
      record col {
        target_width = width;
        current_width = num.of_int width;
        maximized =
            if has_member o (codes "maximized")
            then bool_member o (codes "maximized") false
            else col.maximized;
        half_maximized =
            if has_member o (codes "halfMaximized")
            then bool_member o (codes "halfMaximized") false
            else col.half_maximized;
        focused_pane =
            if ltb 0 (length col.panes)
            then in_range (read_focus o col) (length col.panes)
            else pos 0;
      }

  -- The loop over the saved columns from number `i` on, with `any_column_maximized`.
  abbrev pub read_columns : Items → ℕ → List (Column F) → Bool → List (Column F) × Bool
  read_columns nil i cols any = (cols, any)
  read_columns (item (object o) rest) i cols any = elim (wanted_column o i cols) [
    | none ↦ read_columns rest (suc i) cols any
    | some k ↦ elim (get_elem? cols k) [
      | none ↦ read_columns rest (suc i) cols any
      | some col ↦
          read_columns rest (suc i) (set cols k (read_column o col))
            (any || bool_member o (codes "maximized") false)
    ]
  ]
  read_columns (item _ rest) i cols any = read_columns rest (suc i) cols any

  -- The focus by the saved pane: the column, and the columns with the pane focused.
  abbrev pub focus_saved_pane : Text → List (Column F) → Option (ℕ × List (Column F))
  focus_saved_pane id cols = elim (column_index_by_id ids is_notebook id cols) [
    | none ↦ none
    | some k ↦ elim (get_elem? cols k) [
      | none ↦ none
      | some col ↦ elim (pane_index_by_id ids is_notebook id col) [
        | none ↦ some (k, cols)
        | some i ↦ some (k, set cols k (record col { focused_pane = pos i }))
      ]
    ]
  ]

  -- The focused column, and the columns; `focused_col` is the one of the state.
  abbrev pub read_strip_focus : Members → ℤ → List (Column F) → ℤ × List (Column F)
  read_strip_focus o focused_col cols =
      elim (focus_saved_pane (string_member o (codes "focusedPaneId") []) cols) [
        | some (k, cols') ↦ (in_range (pos k) (length cols'), cols')
        | none ↦ (in_range (int_member o (codes "focusedColumn") focused_col) (length cols), cols)
      ]

  -- The column that an older file names as the maximized one.
  abbrev pub legacy_maximized : Members → List (Column F) → Option ℕ
  legacy_maximized o cols =
      elim (column_index_by_id ids is_notebook (string_member o (codes "maximizedPaneId") [])
        cols) [
          | some k ↦ some k
          | none ↦ elim (int_member o (codes "maximizedColumn") (negsuc 0)) [
            | negsuc n ↦ none
            | pos k ↦ if ltb k (length cols) then some k else none
          ]
        ]

  -- What the members of the strip's object make of the columns.
  abbrev pub read_strip : Members → ℤ → List (Column F) → ℤ × List (Column F)
  read_strip o focused_col cols =
      let (read, any) = read_columns (items_of (array_member o (codes "columns"))) 0 cols false in
      let (focus, focused) = read_strip_focus o focused_col read in
      (focus, if any then focused else maximize_at (legacy_maximized o focused) focused)
