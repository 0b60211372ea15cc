-- ===== src/Strip/Reach.antt =====
-- The strip as a transition system: the functions of gtk/workspace_strip.c that its callers call, and what
-- gtk/workspace.c and gtk/workspace_layout.c write to it, in any order. The restoring of a saved strip
-- (gtk/session.c, and gtk/workspace.c for a workspace that moves) is no step: it sets the flags of the
-- columns as the file says.
use prettymux.Prelude.{
  ℕ, ◌≡◌, Option, none, arith, Bool-cases, inl, inr, if◌then◌else◌, ltb, length,
}
use prettymux.Prelude.Int.{ℤ, pos}
use prettymux.Strip.Model.{Widget, Double, Gtk, Strip, Workspace, classic}
use prettymux.Strip.Camera.{with_state, pan_by, clamp_camera, apply_camera}
use prettymux.Strip.Focus.{
  set_active_pane, focus_column, on_focus_enter, focus_pane, focus_pane_up, focus_pane_down,
}
use prettymux.Strip.Columns.{
  create_root, add_notebook_column, insert_column_after_active, remove_active_column, apply_layout,
  toggle_maximize_column, toggle_half_maximize_column,
}
use prettymux.Strip.Panes.{split_vertical_in_column, remove_pane_from_column}
use prettymux.Strip.Tick.{tick_cb}
use prettymux.Strip.Invariant.Kept.{WorkspaceOk, by_state, WorkspaceOk-of, apply_layout-WorkspaceOk}
use prettymux.Strip.Invariant.Focus.{
  set_active_pane-WorkspaceOk, focus_column-WorkspaceOk, on_focus_enter-WorkspaceOk,
  focus_pane-WorkspaceOk, focus_pane_up-WorkspaceOk, focus_pane_down-WorkspaceOk,
}
use prettymux.Strip.Invariant.Columns.{
  insert-WorkspaceOk, add-WorkspaceOk, create_root-WorkspaceOk, remove-WorkspaceOk,
  toggle_maximize-WorkspaceOk, toggle_half-WorkspaceOk,
}
use prettymux.Strip.Invariant.Panes.{split-WorkspaceOk, remove_pane-WorkspaceOk, tick-WorkspaceOk}

module _ {F B : Type 0} where
  -- GTK gives the viewport another width.
  abbrev pub allocate : ℤ → Workspace F B → Workspace F B
  allocate width ws = with_state ws (λ state. record state { allocated_width = width })

  -- The focused index written as it is, to that of a column (workspace_close_current_for_layout,
  -- workspace_focus_adjacent_strip_column).
  abbrev pub select : ℕ → Workspace F B → Workspace F B
  select i ws = with_state ws (λ state.
      if ltb i (length state.columns) then record state { focused_col = pos i } else state)

  -- The strip is freed for the classic layout (workspace_rebuild_for_layout_mode).
  abbrev pub leave : Workspace F B → Workspace F B
  leave ws = record ws { layout_mode = classic; strip_state = none }

module _ {F B : Type 0} ⦃num : Double F⦄ ⦃gtk : Gtk B⦄ where
  pub data Step (ws : Workspace F B) : Workspace F B → Type 0 where
    focus : (col_idx : ℤ) → Step ws (focus_column ws col_idx)
    enter : (notebook : Widget) → Step ws (on_focus_enter ws notebook)
    set_active : (pane : Widget) → Step ws (set_active_pane ws pane)
    activate : (pane : Widget) → Step ws (focus_pane ws pane).0
    up : Step ws (focus_pane_up ws).0
    down : Step ws (focus_pane_down ws).0
    add : (notebook : Widget) → Step ws (add_notebook_column ws notebook)
    insert : (notebook : Widget) → Step ws (insert_column_after_active ws notebook).0
    remove : Step ws (remove_active_column ws).0
    split : (notebook : Widget) → Step ws (split_vertical_in_column ws notebook).0
    close : (pane : Widget) → Step ws (remove_pane_from_column ws pane).0
    maximize : Step ws (toggle_maximize_column ws)
    half_maximize : Step ws (toggle_half_maximize_column ws)
    resize : (width : ℤ) → Step ws (apply_layout (allocate width ws))
    tick : (frame_time : Option ℤ) → Step ws (tick_cb frame_time ws).0
    pan : (dx : F) → Step ws (with_state ws (pan_by dx))
    set_focused : (i : ℕ) → Step ws (select i ws)
    free : Step ws (leave ws)
    rebuild : (notebook : Widget) (width : ℤ) → Step ws (create_root ws notebook width)

  -- The states after a strip was built for a workspace, or after a sound one was there.
  pub data Reach : Workspace F B → Type 0 where
    sound : (ws : Workspace F B) → WorkspaceOk ws → Reach ws
    built :
        (ws : Workspace F B) (notebook : Widget) (width : ℤ) → Reach (create_root ws notebook width)
    next : {ws ws' : Workspace F B} → Reach ws → Step ws ws' → Reach ws'

  allocate-WorkspaceOk :
      (width : ℤ) (ws : Workspace F B) → WorkspaceOk ws → WorkspaceOk (allocate width ws)
  allocate-WorkspaceOk width ws =
      by_state ws (allocate width) (λ w e. ground arith)
        λ w s e h.
          WorkspaceOk-of (allocate width w) (record s { allocated_width = width }) (ground arith) h

  select-WorkspaceOk : (i : ℕ) (ws : Workspace F B) → WorkspaceOk ws → WorkspaceOk (select i ws)
  select-WorkspaceOk i ws =
      by_state ws (select i) (λ w e. ground arith)
        λ w s e h. elim (Bool-cases (ltb i (length s.columns))) [
          | inl inside ↦
              WorkspaceOk-of (select i w) (record s { focused_col = pos i }) (ground arith)
                (h.0, ground arith)
          | inr outside ↦ WorkspaceOk-of (select i w) s (ground arith) h
        ]

  columns-pan_by : (dx : F) (s : Strip F B) → (pan_by dx s).columns ≡ s.columns
  unfolding pan_by clamp_camera apply_camera
  columns-pan_by dx s = ground arith

  focused_col-pan_by : (dx : F) (s : Strip F B) → (pan_by dx s).focused_col ≡ s.focused_col
  unfolding pan_by clamp_camera apply_camera
  focused_col-pan_by dx s = ground arith

  pan-WorkspaceOk :
      (dx : F) (ws : Workspace F B) → WorkspaceOk ws → WorkspaceOk (with_state ws (pan_by dx))
  pan-WorkspaceOk dx ws =
      by_state ws (λ w. with_state w (pan_by dx)) (λ w e. ground arith)
        λ w s e h.
          WorkspaceOk-of (with_state w (pan_by dx)) (pan_by dx s) (ground arith)
            (rw (columns-pan_by, focused_col-pan_by) h)

  pub Step-WorkspaceOk : {ws ws' : Workspace F B} → Step ws ws' → WorkspaceOk ws → WorkspaceOk ws'
  Step-WorkspaceOk {ws} (focus i) h = focus_column-WorkspaceOk ws i h
  Step-WorkspaceOk {ws} (enter nb) h = on_focus_enter-WorkspaceOk ws nb h
  Step-WorkspaceOk {ws} (set_active nb) h = set_active_pane-WorkspaceOk ws nb h
  Step-WorkspaceOk {ws} (activate nb) h = focus_pane-WorkspaceOk ws nb h
  Step-WorkspaceOk {ws} up h = focus_pane_up-WorkspaceOk ws h
  Step-WorkspaceOk {ws} down h = focus_pane_down-WorkspaceOk ws h
  Step-WorkspaceOk {ws} (add nb) h = add-WorkspaceOk ws nb h
  Step-WorkspaceOk {ws} (insert nb) h = insert-WorkspaceOk ws nb h
  Step-WorkspaceOk {ws} remove h = remove-WorkspaceOk ws h
  Step-WorkspaceOk {ws} (split nb) h = split-WorkspaceOk ws nb h
  Step-WorkspaceOk {ws} (close nb) h = remove_pane-WorkspaceOk ws nb h
  Step-WorkspaceOk {ws} maximize h = toggle_maximize-WorkspaceOk ws h
  Step-WorkspaceOk {ws} half_maximize h = toggle_half-WorkspaceOk ws h
  Step-WorkspaceOk {ws} (resize width) h =
      apply_layout-WorkspaceOk _ (allocate-WorkspaceOk width ws h)
  Step-WorkspaceOk {ws} (tick time) h = tick-WorkspaceOk time ws h
  Step-WorkspaceOk {ws} (pan dx) h = pan-WorkspaceOk dx ws h
  Step-WorkspaceOk {ws} (set_focused i) h = select-WorkspaceOk i ws h
  Step-WorkspaceOk {ws} free h = tt
  Step-WorkspaceOk {ws} (rebuild nb width) h = create_root-WorkspaceOk ws nb width

  -- From a strip that was built, or one in which this holds already, on: after any sequence of focusing
  -- columns and panes, adding, inserting and removing columns, splitting them and taking panes out of them,
  -- maximizing, laying out, animating, panning, writing the focused index of a column, building anew and
  -- leaving the layout, every column has a focused pane among its panes, is maximized to at most one of the
  -- two widths and shows exactly its panes, from the top down, and the focused index is that of a column.
  -- The restoring of a saved strip is none of these.
  pub Reach-WorkspaceOk : {ws : Workspace F B} → Reach ws → WorkspaceOk ws
  Reach-WorkspaceOk (sound ws h) = h
  Reach-WorkspaceOk (built ws nb width) = create_root-WorkspaceOk ws nb width
  Reach-WorkspaceOk (next r st) = Step-WorkspaceOk st (Reach-WorkspaceOk r)
