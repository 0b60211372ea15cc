-- ===== src/Session/Examples.antt =====
-- A strip of two columns, saved and restored into a strip with a column for each pane.
use prettymux.Prelude.{Bool, none, ◌≡◌, refl, true, false, some, List, [], ◌∷◌, map, arith, All}
use prettymux.Prelude.Int.{ℤ, pos}
use prettymux.Prelude.Text.{Text, codes}
use prettymux.Json.{Members, end, member, object, array, item, nil, string, bool}
use prettymux.Strip.Model.{Root, leaf, paned, Widget, Column, anim_default, Strip, strip, Workspace}
use prettymux.Strip.Column.{rebuild_column_paned_chain, column_focused_notebook}
use prettymux.Strip.Columns.{new_column, apply_layout, apply_layout_state}
use prettymux.Strip.Instances.{whole, list_box}
use prettymux.Layout.{LayoutState, scrolled}
use prettymux.Layout.Panes.{has, has-cons}
use prettymux.Session.Save.{save_strip_state}
use prettymux.Session.Restore.{restore_strip_state, rebuild_columns}
use prettymux.Strip.Focus.{focus_column}
use prettymux.Session.Lookup.{pane_by_id, column_index_by_id, pane_index_by_id}
use prettymux.Strip.Camera.{
  pan_to_focused_column, apply_column_widths, ensure_tick_running, clamp_camera,
}
use prettymux.Session.Ids.{IsNamed}
use prettymux.Session.Saved.{IsSavable}
use prettymux.Session.View.{column_view}
use prettymux.Session.RoundTrip.{restore-save}

-- The id of a pane is the one byte of its address.
abbrev id_byte : Widget → Text
id_byte w = w ∷ []

-- The notebooks 8 and 9 stacked, 9 focused, and 7 in a maximized column on the right.
abbrev stacked : Column ℤ
stacked = record {
  notebook = some (paned (leaf 8) (leaf 9));
  panes = 8 ∷ 9 ∷ [];
  focused_pane = pos 1;
  target_width = pos 500;
  current_width = pos 500;
  maximized = false;
  half_maximized = false;
}

abbrev saved_strip : Strip ℤ (List Root)
saved_strip = record {
  columns = stacked ∷ record (new_column 7 (pos 600)) { maximized = true } ∷ [];
  focused_col = pos 1;
  camera_x = pos 0;
  camera_target_x = pos 0;
  scroll_container = true;
  allocated_width = pos 1000;
  column_box = some (paned (leaf 8) (leaf 9) ∷ leaf 7 ∷ []);
  tick_id = 0;
  last_tick_usec = pos 0;
  anim_profile = anim_default;
  calls = [];
}

abbrev saved_workspace : Workspace ℤ (List Root)
saved_workspace = record {
  layout_mode = strip;
  strip_state = some saved_strip;
  active_pane = 7;
  pane_notebooks = 7 ∷ 8 ∷ 9 ∷ [];
}

abbrev fresh_strip : Strip ℤ (List Root)
fresh_strip = record saved_strip {
  columns = new_column 7 (pos 600) ∷ new_column 8 (pos 600) ∷ new_column 9 (pos 600) ∷ [];
  focused_col = pos 0;
  column_box = some (leaf 7 ∷ leaf 8 ∷ leaf 9 ∷ []);
}

abbrev fresh : LayoutState ℤ (List Root)
fresh = record {
  ws = record saved_workspace { strip_state = some fresh_strip };
  notebook = 7;
  has_overlay = true;
  child = scrolled;
  zoomed = false;
  current_page = λ w. pos 0;
  focused = [];
}

saved_columns-IsSavable : All IsSavable saved_strip.columns
unfolding rebuild_column_paned_chain
saved_columns-IsSavable = (
  record { ok = record { focused = omega arith; exclusive = refl; rooted = refl }; wide = refl },
  (
    record { ok = record { focused = omega arith; exclusive = refl; rooted = refl }; wide = refl },
    tt,
  ),
)

fresh-IsNamed : IsNamed id_byte list_box.is_notebook (7 ∷ 8 ∷ 9 ∷ [])
fresh-IsNamed = record {
  notebooks =
      λ w h. ground (arith, has-cons w 7 (8 ∷ 9 ∷ []), has-cons w 8 (9 ∷ []), has-cons w 9 []);
  named = λ w h. refl;
  apart = λ v w h k e. ground arith;
}

reordered : (w : Widget) → has w (7 ∷ 8 ∷ 9 ∷ []) ≡ has w (8 ∷ 9 ∷ 7 ∷ [])
reordered w = ground (
  arith,
  has-cons w 7 (8 ∷ 9 ∷ []),
  has-cons w 8 (9 ∷ []),
  has-cons w 9 [],
  has-cons w 8 (9 ∷ 7 ∷ []),
  has-cons w 9 (7 ∷ []),
  has-cons w 7 [],
)

restore-save_example :
    (t : Strip ℤ (List Root)) × ((restore_strip_state id_byte
        (save_strip_state id_byte list_box.is_notebook saved_workspace end)
        fresh).ws.strip_state
      ≡ some t)
    × (map column_view t.columns ≡ map column_view saved_strip.columns)
    × (t.focused_col ≡ pos 1)
    × ((restore_strip_state id_byte
          (save_strip_state id_byte list_box.is_notebook saved_workspace end)
          fresh).ws.pane_notebooks
        ≡ 8 ∷ 9 ∷ 7 ∷ [])
restore-save_example =
    restore-save id_byte saved_workspace saved_strip fresh fresh_strip
      (leaf 7 ∷ leaf 8 ∷ leaf 9 ∷ []) 1 refl refl saved_columns-IsSavable refl (omega arith)
      (refl, refl, (refl, refl, (refl, refl, tt))) refl refl refl refl fresh-IsNamed reordered

-- A saved column with both flags.
abbrev both_flags : Members
both_flags =
    member (codes "paneId") (string (7 ∷ []))
      (member (codes "maximized") (bool true) (member (codes "halfMaximized") (bool true) end))

abbrev saved_both : Members
saved_both =
    member (codes "stripState")
      (object (member (codes "columns") (array (item (object both_flags) nil)) end)) end

abbrev flags : LayoutState ℤ (List Root) → List (Bool × Bool)
flags s = elim s.ws.strip_state [
  | none ↦ []
  | some state ↦ map (λ (col : Column ℤ). (col.maximized, col.half_maximized)) state.columns
]

-- The restored column is maximized to both widths at once.
restored_both :
    flags (restore_strip_state id_byte saved_both fresh)
    ≡ (true, true) ∷ (false, false) ∷ (false, false) ∷ []
unfolding restore_strip_state rebuild_columns apply_layout focus_column pane_by_id
    column_index_by_id pane_index_by_id apply_layout_state pan_to_focused_column apply_column_widths
    ensure_tick_running clamp_camera column_focused_notebook
restored_both = refl
