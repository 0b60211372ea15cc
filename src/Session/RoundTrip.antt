-- ===== src/Session/RoundTrip.antt =====
-- A saved strip comes back (session_save_workspace_strip_state, session_restore_workspace_strip_state).
use prettymux.Prelude.{
  ℕ, ◌<◌, ◌≡◌, refl, sym, ap, ◌∙◌, true, some, List, [], ◌∷◌, arith, All, map, length, ltb,
  get_elem?_lt, lt→ltb, length-map,
}
use prettymux.Prelude.Int.{ℤ, pos}
use prettymux.Prelude.Text.{Text}
use prettymux.Json.{end}
use prettymux.Strip.Model.{Widget, Double, Gtk, Strip, strip, Workspace}
use prettymux.Strip.Focus.{focus_column}
use prettymux.Strip.Columns.{apply_layout}
use prettymux.Layout.{LayoutState}
use prettymux.Layout.Panes.{IsPanes, has}
use prettymux.Session.Save.{saved_state, save_strip_state}
use prettymux.Session.Restore.{all_panes, has_any_column, read_layout, restore_strip_state}
use prettymux.Session.Ids.{IsNamed, All-has}
use prettymux.Session.Saved.{IsSavable}
use prettymux.Session.Built.{restored}
use prettymux.Session.Refocus.{read_strip-eq}
use prettymux.Session.View.{column_view}
use prettymux.Session.Stages.{
  rebuilt_strip, save-eq, restore-eq, object-eq, layout-eq, read_state-eq, array-focused,
  shown-after, built_layout, strip-built, array-built, built-rebuilt,
}

nonempty :
    {C : Type 0} (l : List C) (j : ℕ) → j < length l → (c : C) × (rest : List C) × (l ≡ c ∷ rest)
nonempty [] j h = absurd (omega arith)
nonempty (c ∷ l) j h = (c, l, refl)

module _ {F B : Type 0} ⦃num : Double F⦄ ⦃gtk : Gtk B⦄ (ids : Widget → Text) where
  -- Restoring the saved members of a sound strip in strip mode, into a workspace in strip mode that has just the
  -- panes of that strip, each with an id of its own, brings back the columns in their order, each with its panes,
  -- its focused pane, its flags and, unless it is maximized, its width; it brings back the focused column, and the
  -- array has the panes in the order of the columns.
  pub restore-save :
      (ws : Workspace F B) (state : Strip F B) (s : LayoutState F B) (old : Strip F B) (box : B)
      (j : ℕ)
      → ws.layout_mode ≡ strip
      → ws.strip_state ≡ some state
      → All IsSavable state.columns
      → state.focused_col ≡ pos j
      → j < length state.columns
      → IsPanes gtk.is_notebook (all_panes state.columns)
      → s.ws.layout_mode ≡ strip
      → s.ws.strip_state ≡ some old
      → ltb 0 (length old.columns) ≡ true
      → old.column_box ≡ some box
      → IsNamed ids gtk.is_notebook s.ws.pane_notebooks
      → ((w : Widget) → has w s.ws.pane_notebooks ≡ has w (all_panes state.columns))
      → (t : Strip F B) × ((restore_strip_state ids
            (save_strip_state ids gtk.is_notebook ws end)
            s).ws.strip_state
          ≡ some t)
        × (map column_view t.columns ≡ map column_view state.columns)
        × (t.focused_col ≡ state.focused_col)
        × ((restore_strip_state ids
              (save_strip_state ids gtk.is_notebook ws end)
              s).ws.pane_notebooks
            ≡ all_panes state.columns)
  restore-save ws state s old box j m e h at inside distinct m' e' some_column boxed named same =
      let (c, rest, shape) = nonempty state.columns j inside in
      let (col, found) = get_elem?_lt state.columns j inside in
      let o = saved_state ids gtk.is_notebook ws.pane_notebooks (some state) in
      let cols = map restored state.columns in
      let mid = built_layout ids state old s box boxed c rest shape in
      let st = rebuilt_strip cols old box in
      let within = All-has (all_panes state.columns) (λ w k. same w ∙ k) in
      let mid_strip = strip-built ids state old s box boxed c rest shape in
      let rebuilt =
        built-rebuilt ids state old s box boxed c rest shape ws.pane_notebooks h distinct named
          same in
      let read = read_state-eq ids o st state.columns j refl (
        read_strip-eq ids gtk.is_notebook s.ws.pane_notebooks named ws.pane_notebooks state
          old.focused_col c rest j col shape at found h within distinct) in
      let whole =
        ap (λ a. restore_strip_state ids a s) (save-eq ids ws state m e)
        ∙ restore-eq ids o s old e' m' some_column
        ∙ object-eq ids o s old e' (
            ap (λ (r : LayoutState F B). has_any_column r.ws.strip_state) rebuilt
            ∙ ap has_any_column mid_strip
            ∙ lt→ltb 0 (length cols) (omega (arith, inside, length-map restored state.columns)))
        ∙ ap (read_layout ids o) rebuilt
        ∙ layout-eq ids o mid st mid_strip
        ∙ ap
            (λ (r : Strip F B × ℤ). record mid {
              ws = focus_column (apply_layout (record mid.ws { strip_state = some r.0 })) r.1;
            })
            read in
      let (t, strip_is, views, focus) =
        shown-after ids mid.ws (record st { focused_col = pos j }) state.columns j refl h inside in
      (
        t,
        ap (λ (r : LayoutState F B). r.ws.strip_state) whole ∙ strip_is,
        views,
        focus ∙ sym at,
        ap (λ (r : LayoutState F B). r.ws.pane_notebooks) whole
            ∙ array-focused ids mid.ws (some (record st { focused_col = pos j })) (pos j)
            ∙ array-built ids state old s box boxed c rest shape,
      )
