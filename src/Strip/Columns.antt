-- ===== src/Strip/Columns.antt =====
-- Columns come, go and change their width (gtk/workspace_strip.c).
use prettymux.Prelude.{
  ℕ, suc, ◌-◌, Bool, true, false, not, ◌||◌, Option, none, some, [], ◌∷◌, ◌++◌, ◌==◌, map,
  if◌then◌else◌, get_elem?, set, insert_at, erase_at, length, leb, min,
}
use prettymux.Prelude.Int.{ℤ, pos, index?, pos_part, leb_ℤ, half}
use prettymux.Strip.Model.{
  Widget, null, Root, leaf, Double, Gtk, Column, anim_default, anim_insert, anim_remove,
  anim_maximize, Strip, set_size_request, strip, Workspace,
}
use prettymux.Strip.Column.{resolve_focused_col, column_focused_notebook}
use prettymux.Strip.Camera.{
  default_col_width, zero_f, viewport_width, ensure_tick_running, apply_column_widths,
  pan_to_focused_column, with_state,
}
use prettymux.Strip.Focus.{activate, focus_column}

module _ {F : Type 0} ⦃num : Double F⦄ where
  -- A column for one notebook, with the width that it starts at.
  abbrev pub new_column : Widget → F → Column F
  new_column notebook width = record {
    notebook = some (leaf notebook);
    panes = notebook ∷ [];
    focused_pane = pos 0;
    target_width = default_col_width;
    current_width = width;
    maximized = false;
    half_maximized = false;
  }

  abbrev pub le_f : F → F → Bool
  le_f a b = num.lt a b || num.eq a b

  -- The target width of a column in a viewport, as `workspace_strip_apply_layout` sets it.
  abbrev pub layout_target : ℤ → Column F → ℤ
  layout_target viewport col =
      if col.maximized
      then viewport
      else if col.half_maximized
      then half viewport
      else if leb_ℤ col.target_width (pos 0)
      then default_col_width
      else col.target_width

  -- the loop body of `workspace_strip_apply_layout`
  abbrev pub layout_column : ℤ → Column F → Column F
  layout_column viewport col =
      let target = layout_target viewport col in
      record col {
        target_width = target;
        current_width =
            if le_f col.current_width zero_f then num.of_int target else col.current_width;
      }

  abbrev pub width_or_target : Column F → F
  width_or_target col =
      if num.lt zero_f col.current_width then col.current_width else num.of_int col.target_width

  -- MAX(a, b) and MIN(a, b) of GLib
  abbrev pub max_f : F → F → F
  max_f a b = if num.lt b a then a else b

  abbrev pub min_f : F → F → F
  min_f a b = if num.lt a b then a else b

  -- The width of the column that gets the focus after a removal: a part of the removed width less, and
  -- not below half of the default.
  abbrev pub settled_column : F → Column F → Column F
  settled_column removed_width focused =
      let removed =
        if le_f removed_width zero_f then num.of_int default_col_width else removed_width in
      let settle_delta = min_f (num.mul removed (num.literal 2 1)) (num.literal 1200 1) in
      let min_width = num.of_int (half default_col_width) in
      record focused {
        current_width = max_f (num.sub focused.current_width settle_delta) min_width;
      }

module _ {F : Type 0} where
  abbrev pub toggle_maximized : ℤ → Column F → Column F
  toggle_maximized viewport col = record col {
    maximized = not col.maximized;
    half_maximized = false;
    target_width = if not col.maximized then viewport else default_col_width;
  }

  abbrev pub toggle_half_maximized : ℤ → Column F → Column F
  toggle_half_maximized viewport col = record col {
    half_maximized = not col.half_maximized;
    maximized = false;
    target_width = if not col.half_maximized then half viewport else default_col_width;
  }

module _ {F B : Type 0} ⦃num : Double F⦄ ⦃gtk : Gtk B⦄ where
  unfoldable pub apply_layout_state : Strip F B → Strip F B
  apply_layout_state state = pan_to_focused_column (
      apply_column_widths
        (record state { columns = map (layout_column (viewport_width state)) state.columns }))

  -- workspace_strip_apply_layout, which is also all that a change of the viewport's width calls
  unfoldable pub apply_layout : Workspace F B → Workspace F B
  apply_layout ws = with_state ws apply_layout_state

  abbrev pub new_state : Strip F B
  new_state = record {
    columns = [];
    focused_col = pos 0;
    camera_x = zero_f;
    camera_target_x = zero_f;
    scroll_container = false;
    allocated_width = pos 0;
    column_box = none;
    tick_id = 0;
    last_tick_usec = pos 0;
    anim_profile = anim_default;
    calls = [];
  }

  -- workspace_strip_init: the old state, if there is one, is freed
  unfoldable pub init : Workspace F B → Workspace F B
  init ws = record ws { layout_mode = strip; strip_state = some new_state }

  abbrev pub size_call : Widget → Strip F B → Strip F B
  size_call notebook state = record state {
    calls = state.calls ++ set_size_request (leaf notebook) default_col_width ∷ [];
  }

  -- `if (state->column_box) ...`
  abbrev pub in_box : (B → B) → Strip F B → Strip F B
  in_box f state = elim state.column_box [
    | none ↦ state
    | some box ↦ record state { column_box = some (f box) }
  ]

  -- `allocated` is the width of the new `GtkScrolledWindow`, which GTK has not laid out yet.
  unfoldable pub create_root : Workspace F B → Widget → ℤ → Workspace F B
  create_root ws first_notebook allocated = apply_layout (
      with_state (init ws) (λ state. size_call first_notebook (record state {
        scroll_container = true;
        allocated_width = allocated;
        column_box = some (gtk.append gtk.new_box (leaf first_notebook));
        columns = state.columns ++ new_column first_notebook (num.of_int default_col_width) ∷ [];
      })))

  unfoldable pub add_notebook_column : Workspace F B → Widget → Workspace F B
  add_notebook_column ws notebook =
      if notebook == null
      then ws
      else with_state ws (λ state.
        in_box (λ box. gtk.append box (leaf notebook))
          (size_call notebook (record state {
            columns = state.columns ++ new_column notebook (num.of_int default_col_width) ∷ [];
          })))

  -- Where the new column goes, and the widget that it is put behind.
  abbrev pub insert_point : Option ℕ → Strip F B → ℕ × Option Root
  insert_point none state = (0, none)
  insert_point (some active_col) state = (
    min (suc active_col) (length state.columns),
    elim (get_elem? state.columns active_col) [ none ↦ none | some active ↦ active.notebook ],
  )

  -- STRIP_INSERT_START_WIDTH is 180.
  abbrev pub insert_state : ℕ → Option Root → Widget → Strip F B → Strip F B
  insert_state insert_col after_widget notebook state =
      in_box (λ box. gtk.insert_after box (leaf notebook) after_widget)
        (size_call notebook (record state {
          columns = insert_at state.columns insert_col (new_column notebook (num.of_int (pos 180)));
          anim_profile = anim_insert;
        }))

  unfoldable pub insert_column_after_active : Workspace F B → Widget → Workspace F B × Bool
  insert_column_after_active ws notebook =
      if notebook == null then (ws, false) else elim ws.strip_state [
        | none ↦ (ws, false)
        | some state ↦
            let (insert_col, after_widget) = insert_point (resolve_focused_col ws) state in
            (
              apply_layout (
                  focus_column
                    (record ws {
                      strip_state = some (insert_state insert_col after_widget notebook state);
                    })
                    (pos insert_col)),
              true,
            )
      ]

  -- workspace_strip_settle_after_remove: STRIP_REMOVE_SETTLE_MAX_DELTA is 120.0
  unfoldable pub settle_after_remove : ℤ → F → Strip F B → Strip F B
  settle_after_remove focus_col removed_width state = elim (index? state.columns focus_col) [
    | none ↦ state
    | some focused ↦ record state {
      columns = set state.columns (pos_part focus_col) (settled_column removed_width focused);
    }
  ]

  -- `if (notebook && parent == column_box) gtk_box_remove`
  abbrev pub remove_from_box : Option Root → Strip F B → Strip F B
  remove_from_box none state = state
  remove_from_box (some r) state =
      in_box (λ box. if gtk.contains box r then gtk.remove box r else box) state

  -- From the removal of column `remove_col` on.
  abbrev pub remove_state : ℕ → Column F → Strip F B → Strip F B
  remove_state remove_col col state =
      let cols = erase_at state.columns remove_col in
      let focus = if leb (length cols) remove_col then pos (length cols - 1) else pos remove_col in
      let state' =
        settle_after_remove focus (width_or_target col)
          (record (remove_from_box col.notebook state) { columns = cols; focused_col = focus }) in
      record state' { anim_profile = anim_remove }

  abbrev pub focused_notebook : Strip F B → Option Widget
  focused_notebook state = elim (index? state.columns state.focused_col) [
    | none ↦ none
    | some col ↦ column_focused_notebook gtk.is_notebook col
  ]

  unfoldable pub remove_active_column : Workspace F B → Workspace F B × Bool
  remove_active_column ws = elim ws.strip_state [
    | none ↦ (ws, false)
    | some state ↦
        if leb (length state.columns) 1 then (ws, false) else elim (resolve_focused_col ws) [
          | none ↦ (ws, false)
          | some remove_col ↦ elim (get_elem? state.columns remove_col) [
            | none ↦ (ws, false)
            | some col ↦
                let state' = remove_state remove_col col state in
                (
                  apply_layout (
                      activate (focused_notebook state') (record ws { strip_state = some state' })),
                  true,
                )
          ]
        ]
  ]

  -- What the two toggles share: the focused column is replaced, and the camera follows.
  abbrev pub toggle_state : (ℤ → Column F → Column F) → Strip F B → Strip F B
  toggle_state f state = elim (index? state.columns state.focused_col) [
    | none ↦ state
    | some col ↦ ensure_tick_running (
        pan_to_focused_column (record state {
          columns = set state.columns (pos_part state.focused_col) (f (viewport_width state) col);
          anim_profile = anim_maximize;
        }))
  ]

  unfoldable pub toggle_maximize_column : Workspace F B → Workspace F B
  toggle_maximize_column ws = with_state ws (toggle_state toggle_maximized)

  unfoldable pub toggle_half_maximize_column : Workspace F B → Workspace F B
  toggle_half_maximize_column ws = with_state ws (toggle_state toggle_half_maximized)
