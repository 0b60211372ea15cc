-- ===== src/Layout/Kept.antt =====
-- Moving the focus (workspace_layout_focus_primary) changes neither the panes nor the layout.
use prettymux.Prelude.{
  ℕ, ◌≡◌, refl, ◌∙◌, subst, not, ◌||◌, Option, none, some, arith, leb, Bool-cases, Option-cases,
  inl, inr,
}
use prettymux.Prelude.Int.{ℤ}
use prettymux.Strip.Model.{Widget, Double, Gtk, Strip, Workspace}
use prettymux.Strip.Camera.{pan_to_focused_column, clamp_camera, ensure_tick_running}
use prettymux.Strip.Focus.{is_strip, set_active_pane, focus_column, focus_pane}
use prettymux.Layout.{
  LayoutState, Pages, is_pane, first_terminal_pane, page_or_first, focus_page, focus_first_terminal,
  focus_pane_or_first, strip_focus_primary, layout_focus_primary, focused_col_of,
  focused_column_notebook,
}

module _ {F B : Type 0} where
  abbrev pub box_of : Option (Strip F B) → Option B
  box_of none = none
  box_of (some s) = s.column_box

  -- Two workspaces of the same layout with the same panes.
  pub record SamePanes (v w : Workspace F B) : Type 0 where
    pub mode : v.layout_mode ≡ w.layout_mode
    pub arrays : v.pane_notebooks ≡ w.pane_notebooks
    pub boxes : box_of v.strip_state ≡ box_of w.strip_state

  same_refl : (v : Workspace F B) → SamePanes v v
  same_refl v = record { mode = refl; arrays = refl; boxes = refl }

  same_trans : {u v w : Workspace F B} → SamePanes u v → SamePanes v w → SamePanes u w
  same_trans h k = record {
    mode = h.mode ∙ k.mode;
    arrays = h.arrays ∙ k.arrays;
    boxes = h.boxes ∙ k.boxes;
  }

module _ {F B : Type 0} ⦃num : Double F⦄ ⦃gtk : Gtk B⦄ where
  set_active_pane-SamePanes :
      (ws : Workspace F B) (w : Widget) → SamePanes (set_active_pane ws w) ws
  unfolding set_active_pane
  set_active_pane-SamePanes ws w = record {
    mode = ground arith;
    arrays = ground arith;
    boxes = ground arith;
  }

  focus_pane-SamePanes : (ws : Workspace F B) (w : Widget) → SamePanes (focus_pane ws w).0 ws
  unfolding focus_pane set_active_pane
  focus_pane-SamePanes ws w = record {
    mode = ground arith;
    arrays = ground arith;
    boxes = ground arith;
  }

  pub focus_column-SamePanes : (ws : Workspace F B) (i : ℤ) → SamePanes (focus_column ws i) ws
  unfolding focus_column pan_to_focused_column clamp_camera ensure_tick_running
  focus_column-SamePanes ws i = record {
    mode = ground arith;
    arrays = ground arith;
    boxes = ground arith;
  }

  -- Two states that show the same panes in the same layout.
  pub record SameLayout (s t : LayoutState F B) : Type 0 where
    pub child : s.child ≡ t.child
    pub notebook : s.notebook ≡ t.notebook
    pub overlay : s.has_overlay ≡ t.has_overlay
    pub inside : SamePanes s.ws t.ws

  moved :
      (s t : LayoutState F B) (ws : Workspace F B)
      → SamePanes ws s.ws
      → SameLayout t (record s { ws = ws })
      → SameLayout t s
  moved s t ws h k = record {
    child = k.child;
    notebook = k.notebook;
    overlay = k.overlay;
    inside = same_trans k.inside h;
  }

  focus_page-SameLayout :
      (pages : Pages) (pane : Widget) (page : ℕ) (s : LayoutState F B)
      → SameLayout (focus_page pages pane page s) s
  focus_page-SameLayout pages pane page s = elim (Bool-cases (pages.terminal_at pane page)) [
    | inl e ↦ rw e (record {
      child = refl;
      notebook = refl;
      overlay = refl;
      inside = set_active_pane-SamePanes s.ws pane;
    })
    | inr e ↦ rw e (record {
      child = refl;
      notebook = refl;
      overlay = refl;
      inside = set_active_pane-SamePanes s.ws pane;
    })
  ]

  layout_refl : (s : LayoutState F B) → SameLayout s s
  layout_refl s = record { child = refl; notebook = refl; overlay = refl; inside = same_refl s.ws }

  focus_first_terminal-SameLayout :
      (pages : Pages) (s : LayoutState F B) → SameLayout (focus_first_terminal pages s) s
  unfolding focus_first_terminal
  focus_first_terminal-SameLayout pages s =
      let (pane, page) = first_terminal_pane s in
      elim (Bool-cases (not (is_pane gtk.is_notebook pane) || leb (pages.n_pages pane) 0)) [
        | inl e ↦ rw e (layout_refl s)
        | inr e ↦
            rw e (focus_page-SameLayout pages pane (page_or_first (pages.n_pages pane) page) s)
      ]

  pane_or_first-SameLayout :
      (pages : Pages) (o : Option Widget) (s : LayoutState F B)
      → SameLayout (focus_pane_or_first pages o s) s
  pane_or_first-SameLayout pages none s = focus_first_terminal-SameLayout pages s
  pane_or_first-SameLayout pages (some pane) s =
      let kept = focus_pane-SamePanes s.ws pane in
      let s' = record s { ws = (focus_pane s.ws pane).0 } in
      elim (Bool-cases (focus_pane s.ws pane).1) [
        | inl e ↦ rw e (moved s s' (focus_pane s.ws pane).0 kept (layout_refl s'))
        | inr e ↦ rw e (
            moved s (focus_first_terminal pages s') (focus_pane s.ws pane).0 kept
              (focus_first_terminal-SameLayout pages s'))
      ]

  -- The state that `workspace_strip_focus_primary` leaves when there is a strip.
  abbrev strip_focused : Pages → LayoutState F B → LayoutState F B
  strip_focused pages s =
      let ws = focus_column s.ws (focused_col_of s.ws) in
      focus_pane_or_first pages (focused_column_notebook ws) (record s { ws = ws })

  strip_focused-SameLayout :
      (pages : Pages) (s : LayoutState F B) → SameLayout (strip_focused pages s) s
  strip_focused-SameLayout pages s =
      let ws = focus_column s.ws (focused_col_of s.ws) in
      moved s (strip_focused pages s) ws (focus_column-SamePanes s.ws (focused_col_of s.ws))
        (pane_or_first-SameLayout pages (focused_column_notebook ws) (record s { ws = ws }))

  strip_focus_primary-SameLayout :
      (pages : Pages) (s : LayoutState F B) → SameLayout (strip_focus_primary pages s) s
  strip_focus_primary-SameLayout pages s = elim (Option-cases s.ws.strip_state) [
    | inl n ↦
        subst (λ t. SameLayout t s) {x = s} {y = strip_focus_primary pages s}
          (unfold strip_focus_primary in ground arith) (layout_refl s)
    | inr (state, found) ↦
        subst (λ t. SameLayout t s) {x = strip_focused pages s} {y = strip_focus_primary pages s}
          (unfold strip_focus_primary in ground arith) (strip_focused-SameLayout pages s)
  ]

  pub layout_focus_primary-SameLayout :
      (pages : Pages) (s : LayoutState F B) → SameLayout (layout_focus_primary pages s) s
  unfolding layout_focus_primary
  layout_focus_primary-SameLayout pages s = elim (Bool-cases (is_strip s.ws.layout_mode)) [
    | inr e ↦ rw e (focus_first_terminal-SameLayout pages s)
    | inl e ↦ rw e (strip_focus_primary-SameLayout pages s)
  ]
