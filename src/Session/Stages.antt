-- ===== src/Session/Stages.antt =====
-- The stages of a restore, one equation for each (session_restore_workspace_strip_state).
use prettymux.Prelude.{
  ℕ, ◌<◌, ◌≡◌, refl, sym, ap, ap₂, ◌∙◌, subst, true, Option, some, List, ◌∷◌, arith, All, map,
  if◌then◌else◌, length, get_elem?, ltb, get_elem?_lt, length-map,
}
use prettymux.Prelude.Int.{ℤ, pos}
use prettymux.Prelude.Text.{Text, codes}
use prettymux.Json.{Json, object, Items, item, Members, end, member, array_member}
use prettymux.Strip.Model.{Widget, Double, Gtk, Column, Strip, strip, Workspace}
use prettymux.Strip.Camera.{viewport_width, pan_to_focused_column}
use prettymux.Strip.Focus.{focus_column}
use prettymux.Strip.Columns.{layout_column, apply_layout, apply_layout_state}
use prettymux.Strip.Invariant.Kept.{columns-layout, columns-pan, focused_col-pan}
use prettymux.Layout.{LayoutState}
use prettymux.Layout.Kept.{focus_column-SamePanes}
use prettymux.Layout.Panes.{IsPanes, has}
use prettymux.Session.Save.{
  has_any, save_column, save_panes, saved_state, save_strip_state, save_columns,
}
use prettymux.Session.Build.{rebuilt_columns}
use prettymux.Session.Read.{read_strip, reset_column}
use prettymux.Session.Restore.{
  all_panes, filled_box, has_box, has_any_column, with_columns, rebuild_columns, read_state,
  read_layout, restore_object, restore_strip_state,
}
use prettymux.Session.Ids.{IsNamed}
use prettymux.Session.Saved.{IsSavable}
use prettymux.Session.Built.{restored, rebuilt_columns-eq}
use prettymux.Session.Refocus.{all_panes-restored}
use prettymux.Session.View.{column_view, views-layout, map-map}

module _ {F B : Type 0} ⦃gtk : Gtk B⦄ where
  -- The strip right after the columns were built anew.
  abbrev pub rebuilt_strip : List (Column F) → Strip F B → B → Strip F B
  rebuilt_strip cols old box = record old {
    columns = cols;
    column_box = some (filled_box cols box);
  }

module _ {F B : Type 0} ⦃num : Double F⦄ ⦃gtk : Gtk B⦄ (ids : Widget → Text) where
  pub save-eq :
      (ws : Workspace F B) (state : Strip F B)
      → ws.layout_mode ≡ strip
      → ws.strip_state ≡ some state
      → save_strip_state ids gtk.is_notebook ws end
        ≡ member
            (codes "stripState")
            (object (saved_state ids gtk.is_notebook ws.pane_notebooks (some state)))
            end
  unfolding save_strip_state
  save-eq ws state m e = rw (m, e) refl

  module _ (o : Members) (s : LayoutState F B) (old : Strip F B)
      (e : s.ws.strip_state ≡ some old) where
    pub restore-eq :
        s.ws.layout_mode ≡ strip
        → ltb 0 (length old.columns) ≡ true
        → restore_strip_state ids (member (codes "stripState") (object o) end) s
          ≡ restore_object ids o s
    unfolding restore_strip_state
    restore-eq m some_column = ground arith

    pub object-eq :
        has_any_column (rebuild_columns ids o s old).ws.strip_state ≡ true
        → restore_object ids o s ≡ read_layout ids o (rebuild_columns ids o s old)
    object-eq h = ground arith

    pub layout-eq : read_layout ids o s ≡ record s {
      ws =
          focus_column
            (apply_layout (record s.ws { strip_state = some (read_state ids o old).0 }))
            (read_state ids o old).1;
    }
    layout-eq = ground arith

  pub rebuild-eq :
      (o : Members) (s : LayoutState F B) (old : Strip F B) (v : Json) (rest : Items)
      → array_member o (codes "columns") ≡ some (item v rest)
      → rebuild_columns ids o s old
        ≡ with_columns ids
            (rebuilt_columns ids (has_box old) s.ws.pane_notebooks (item v rest))
            s
            old
  unfolding rebuild_columns
  rebuild-eq o s old v rest e = ground arith

  pub focused-strip :
      (w : Workspace F B) (st : Strip F B) (j : ℕ) (c : Column F)
      → w.strip_state ≡ some st
      → get_elem? st.columns j ≡ some c
      → (focus_column w (pos j)).strip_state
        ≡ some (pan_to_focused_column (record st { focused_col = pos j }))
  unfolding focus_column
  focused-strip w st j c e f = ground arith

  pub array-focused :
      (w : Workspace F B) (st : Option (Strip F B)) (i : ℤ)
      → (focus_column (apply_layout (record w { strip_state = st })) i).pane_notebooks
        ≡ w.pane_notebooks
  array-focused w st i =
      (focus_column-SamePanes (apply_layout (record w { strip_state = st })) i).arrays
      ∙ (unfold apply_layout in ground arith)

  -- The laid out and focused strip shows what the saved one showed.
  pub shown-after :
      (w : Workspace F B) (st : Strip F B) (cols : List (Column F)) (j : ℕ)
      → st.columns ≡ map restored cols
      → All IsSavable cols
      → j < length cols
      → (t : Strip F B) × ((focus_column
            (apply_layout (record w { strip_state = some st }))
            (pos j)).strip_state
          ≡ some t)
        × (map column_view t.columns ≡ map column_view cols)
        × (t.focused_col ≡ pos j)
  shown-after w st cols j same h inside =
      let laid = apply_layout_state st in
      let size : length laid.columns ≡ length cols =
        ap length (columns-layout st)
        ∙ length-map (layout_column (viewport_width st)) st.columns
        ∙ ap length same
        ∙ length-map restored cols in
      let (c, found) = get_elem?_lt laid.columns j (omega (arith, size, inside)) in
      (
        pan_to_focused_column (record laid { focused_col = pos j }),
        focused-strip (apply_layout (record w { strip_state = some st })) laid j c
            (unfold apply_layout in refl) found,
        ap (map column_view) (
              columns-pan (record laid { focused_col = pos j })
              ∙ columns-layout st
              ∙ ap (map (layout_column (viewport_width st))) same)
            ∙ views-layout (viewport_width st) cols h,
        focused_col-pan (record laid { focused_col = pos j }),
      )

  pub boxed-eq : (old : Strip F B) (box : B) → old.column_box ≡ some box → has_box old ≡ true
  boxed-eq old box e = ground arith

  pub with-eq :
      (x : Column F) (l : List (Column F)) (s : LayoutState F B) (old : Strip F B) (box : B)
      → old.column_box ≡ some box
      → (with_columns ids (x ∷ l) s old).ws.strip_state ≡ some (rebuilt_strip (x ∷ l) old box)
  with-eq x l s old box e = ground arith

  pub read_state-eq :
      (o : Members) (st : Strip F B) (cols : List (Column F)) (j : ℕ)
      → st.columns ≡ map restored cols
      → read_strip ids gtk.is_notebook o st.focused_col (map (λ c. reset_column (restored c)) cols)
        ≡ (pos j, map restored cols)
      → read_state ids o st
        ≡ (record st { columns = map restored cols; focused_col = pos j }, pos j)
  read_state-eq o st cols j same e =
      ap (λ (r : ℤ × List (Column F)). (record st { columns = r.1; focused_col = r.0 }, r.0))
        (ap (read_strip ids gtk.is_notebook o st.focused_col)
            (ap (map reset_column) same ∙ map-map cols)
          ∙ e)

  -- The workspace right after the columns of a saved strip were built anew.
  module _ (state old : Strip F B) (s : LayoutState F B) (box : B)
      (boxed : old.column_box ≡ some box) (c : Column F) (rest : List (Column F))
      (shape : state.columns ≡ c ∷ rest) where
    abbrev pub built_layout : LayoutState F B
    built_layout = with_columns ids (map restored state.columns) s old

    pub strip-built :
        built_layout.ws.strip_state ≡ some (rebuilt_strip (map restored state.columns) old box)
    strip-built =
        subst
          (λ l.
            (with_columns ids (map restored l) s old).ws.strip_state
            ≡ some (rebuilt_strip (map restored l) old box))
          (sym shape) (with-eq (restored c) (map restored rest) s old box boxed)

    pub array-built : built_layout.ws.pane_notebooks ≡ all_panes state.columns
    array-built =
        subst
          (λ l.
            (with_columns ids (map restored l) s old).ws.pane_notebooks
            ≡ all_panes (map restored l))
          (sym shape) refl
        ∙ all_panes-restored state.columns

    pub built-rebuilt :
        (others : List Widget)
        → All IsSavable state.columns
        → IsPanes gtk.is_notebook (all_panes state.columns)
        → IsNamed ids gtk.is_notebook s.ws.pane_notebooks
        → ((w : Widget) → has w s.ws.pane_notebooks ≡ has w (all_panes state.columns))
        → rebuild_columns ids (saved_state ids gtk.is_notebook others (some state)) s old
          ≡ built_layout
    built-rebuilt others h distinct named same =
        rebuild-eq (saved_state ids gtk.is_notebook others (some state)) s old
          (object (save_column ids gtk.is_notebook c)) (save_columns ids gtk.is_notebook rest)
          (ap
            (λ l. some (
              if has_any l
              then save_columns ids gtk.is_notebook l
              else save_panes ids gtk.is_notebook others))
            shape)
        ∙ ap₂
            (λ b l.
              with_columns ids
                (rebuilt_columns ids b s.ws.pane_notebooks (save_columns ids gtk.is_notebook l)) s
                old)
            (boxed-eq old box boxed) (sym shape)
        ∙ ap (λ k. with_columns ids k s old)
            (rebuilt_columns-eq ids gtk.is_notebook s.ws.pane_notebooks named state.columns h
              distinct same)
