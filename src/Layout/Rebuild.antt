-- ===== src/Layout/Rebuild.antt =====
-- What changing the layout keeps (workspace_rebuild_for_layout_mode).
use prettymux.Prelude.{
  ◌≡◌, refl, sym, ap, ap₂, ◌∙◌, subst, Bool, true, false, Option, none, some, List, [], ◌∷◌, arith,
  ◌==◌,
}
use prettymux.Prelude.Int.{ℤ}
use prettymux.Strip.Model.{Widget, null, Double, Gtk, Strip, LayoutMode, classic, strip, Workspace}
use prettymux.Strip.Columns.{create_root, add_notebook_column, init, apply_layout}
use prettymux.Layout.{
  Child, no_child, panes, scrolled, LayoutState, Pages, mode_eq, collect_all, shown_roots,
  box_children, is_nil, saved_notebooks, primary_first, layout_focus_primary, new_root, add_columns,
  rebuilt, rebuild_for_layout_mode,
}
use prettymux.Layout.Panes.{IsPanes, has, add-same, primary_first-Panes}
use prettymux.Layout.Kept.{box_of, layout_focus_primary-SameLayout}
use prettymux.Layout.Shown.{collect_all-IsPanes, collect-new_root}

is_nil-has : (w : Widget) (l : List Widget) → has w l ≡ true → is_nil l ≡ false
is_nil-has w [] h = cc
is_nil-has w (x ∷ l) h = refl

primary_first_same : (w : Widget) (l : List Widget) → primary_first w (w ∷ l) ≡ w ∷ l
primary_first_same w l = ground arith

has_first : (w : Widget) (l : List Widget) → has w (w ∷ l) ≡ true
has_first w l = ground arith

module _ {F B : Type 0} ⦃gtk : Gtk B⦄ where
  -- The notebooks in the overlay, from left to right and from top to bottom.
  abbrev pub shown_notebooks : LayoutState F B → List Widget
  shown_notebooks s = collect_all gtk.is_notebook (shown_roots s.child s.ws.strip_state) []

  -- The array has distinct notebooks, the primary one among them, and they are those in the overlay.
  pub record IsConsistent (s : LayoutState F B) : Type 0 where
    pub overlay : s.has_overlay ≡ true
    pub distinct : IsPanes gtk.is_notebook s.ws.pane_notebooks
    pub primary : has s.notebook s.ws.pane_notebooks ≡ true
    pub shown : (w : Widget) → has w (shown_notebooks s) ≡ has w s.ws.pane_notebooks

  shown_roots-box :
      (c : Child) (a b : Option (Strip F B))
      → box_of a ≡ box_of b
      → shown_roots c a ≡ shown_roots c b
  shown_roots-box no_child a b e = refl
  shown_roots-box (panes r) a b e = refl
  shown_roots-box scrolled none none e = refl
  shown_roots-box scrolled none (some s) e = ap box_children e
  shown_roots-box scrolled (some s) none e = ap box_children e
  shown_roots-box scrolled (some s) (some t) e = ap box_children e

  saved-shown : (s : LayoutState F B) → IsConsistent s → saved_notebooks s ≡ shown_notebooks s
  unfolding saved_notebooks
  saved-shown s h =
      let there = h.shown s.notebook ∙ h.primary in
      rw (is_nil-has s.notebook (shown_notebooks s) there)
        (add-same gtk.is_notebook (shown_notebooks s) s.notebook there)

module _ {F B : Type 0} ⦃num : Double F⦄ ⦃gtk : Gtk B⦄ where
  mode-add_columns :
      (ws : Workspace F B) (l : List Widget) → (add_columns ws l).layout_mode ≡ ws.layout_mode
  mode-add_columns ws [] = refl
  mode-add_columns ws (w ∷ l) =
      mode-add_columns (add_notebook_column ws w) l ∙ (unfold add_notebook_column in ground arith)

  mode-new_root :
      (allocated : ℤ) (first : Widget) (rest : List Widget) (ws : Workspace F B) (mode : LayoutMode)
      → ws.layout_mode ≡ mode
      → (new_root mode allocated first rest ws).1.layout_mode ≡ mode
  unfolding new_root
  mode-new_root allocated first rest ws classic e = e
  mode-new_root allocated first rest ws strip e =
      mode-add_columns (create_root ws first allocated) rest
      ∙ (unfold create_root init apply_layout in refl)

  -- Before the focus moves.
  rebuilt-Shown :
      (mode : LayoutMode) (allocated : ℤ) (first : Widget) (rest : List Widget)
      (s : LayoutState F B)
      → IsPanes gtk.is_notebook (first ∷ rest)
      → shown_notebooks (rebuilt mode allocated first rest s) ≡ first ∷ rest
  unfolding rebuilt
  rebuilt-Shown mode allocated first rest s h =
      collect-new_root mode allocated first rest
        (record s.ws { layout_mode = mode; strip_state = none }) h

  rebuild-eq :
      (pages : Pages) (mode : LayoutMode) (allocated : ℤ) (s : LayoutState F B) (rest : List Widget)
      → mode_eq s.ws.layout_mode mode ≡ false
      → s.has_overlay ≡ true
      → (s.notebook == null) ≡ false
      → primary_first s.notebook (saved_notebooks s) ≡ s.notebook ∷ rest
      → rebuild_for_layout_mode pages mode allocated s
        ≡ (layout_focus_primary pages (rebuilt mode allocated s.notebook rest s), true)
  unfolding rebuild_for_layout_mode
  rebuild-eq pages mode allocated s rest other over there front = ground arith

  -- Changing the layout of a consistent workspace to the other one succeeds. Afterwards the workspace has the
  -- new layout and is consistent, its notebooks are those of before, the primary notebook stays the primary one
  -- and comes first, and the overlay shows the notebooks in the order of the array.
  pub rebuild-IsConsistent :
      (pages : Pages) (mode : LayoutMode) (allocated : ℤ) (s : LayoutState F B)
      → IsConsistent s
      → mode_eq s.ws.layout_mode mode ≡ false
      → (t : LayoutState F B) × (rest : List Widget) × (rebuild_for_layout_mode pages mode allocated
            s
          ≡ (t, true))
        × (t.ws.layout_mode ≡ mode)
        × IsConsistent t
        × (t.notebook ≡ s.notebook)
        × (t.ws.pane_notebooks ≡ s.notebook ∷ rest)
        × (shown_notebooks t ≡ t.ws.pane_notebooks)
        × ((w : Widget) → has w t.ws.pane_notebooks ≡ has w s.ws.pane_notebooks)
  rebuild-IsConsistent pages mode allocated s h other =
      let saved = saved-shown s h in
      let (rest, front, distinct, same) =
        primary_first-Panes gtk.is_notebook s.notebook (shown_notebooks s)
          (collect_all-IsPanes gtk.is_notebook (shown_roots s.child s.ws.strip_state) [] tt)
          (h.shown s.notebook ∙ h.primary) in
      let before = rebuilt mode allocated s.notebook rest s in
      let t = layout_focus_primary pages before in
      let kept = layout_focus_primary-SameLayout pages before in
      let array : t.ws.pane_notebooks ≡ s.notebook ∷ rest =
        kept.inside.arrays ∙ (unfold rebuilt in refl) in
      let primary : t.notebook ≡ s.notebook = kept.notebook ∙ (unfold rebuilt in refl) in
      let shown : shown_notebooks t ≡ s.notebook ∷ rest =
        ap (λ l. collect_all gtk.is_notebook l [])
          (ap (λ c. shown_roots c t.ws.strip_state) kept.child
            ∙ shown_roots-box before.child t.ws.strip_state before.ws.strip_state kept.inside.boxes)
        ∙ rebuilt-Shown mode allocated s.notebook rest s distinct in
      let in_order : shown_notebooks t ≡ t.ws.pane_notebooks = shown ∙ sym array in
      (
        t,
        rest,
        rebuild-eq pages mode allocated s rest other h.overlay (ground (arith, distinct.0))
            (ap (primary_first s.notebook) saved ∙ front),
        kept.inside.mode
            ∙ (unfold rebuilt in
                mode-new_root allocated s.notebook rest
                  (record s.ws { layout_mode = mode; strip_state = none }) mode refl),
        record {
          overlay = kept.overlay ∙ (unfold rebuilt in h.overlay);
          distinct = subst (IsPanes gtk.is_notebook) (sym array) distinct;
          primary = ap₂ has primary array ∙ has_first s.notebook rest;
          shown = λ w. ap (has w) in_order;
        },
        primary,
        array,
        in_order,
        λ w. ap (has w) array ∙ same w ∙ h.shown w,
      )

  array-rebuild :
      (pages : Pages) (mode : LayoutMode) (allocated : ℤ) (s : LayoutState F B)
      → IsConsistent s
      → mode_eq s.ws.layout_mode mode ≡ false
      → (rebuild_for_layout_mode pages mode allocated s).0.ws.pane_notebooks
        ≡ primary_first s.notebook (shown_notebooks s)
  array-rebuild pages mode allocated s h other =
      let (rest, front, distinct, same) =
        primary_first-Panes gtk.is_notebook s.notebook (shown_notebooks s)
          (collect_all-IsPanes gtk.is_notebook (shown_roots s.child s.ws.strip_state) [] tt)
          (h.shown s.notebook ∙ h.primary) in
      let before = rebuilt mode allocated s.notebook rest s in
      ap (λ (r : LayoutState F B × Bool). r.0.ws.pane_notebooks)
        (rebuild-eq pages mode allocated s rest other h.overlay (ground (arith, distinct.0))
          (ap (primary_first s.notebook) (saved-shown s h) ∙ front))
      ∙ (layout_focus_primary-SameLayout pages before).inside.arrays
      ∙ (unfold rebuilt in sym front)

  -- Changing the layout of a consistent workspace to the other one and back keeps the order of the array that
  -- the first change has made.
  rebuild-rebuild :
      (pages : Pages) (mode back : LayoutMode) (first_width second_width : ℤ) (s : LayoutState F B)
      → IsConsistent s
      → mode_eq s.ws.layout_mode mode ≡ false
      → mode_eq mode back ≡ false
      → (rebuild_for_layout_mode pages back second_width
          (rebuild_for_layout_mode pages mode first_width s).0).0.ws.pane_notebooks
        ≡ (rebuild_for_layout_mode pages mode first_width s).0.ws.pane_notebooks
  rebuild-rebuild pages mode back first_width second_width s h other again =
      let (t, rest, done, now, consistent, primary, array, shown, same) =
        rebuild-IsConsistent pages mode first_width s h other in
      ap
        (λ (r : LayoutState F B × Bool).
          (rebuild_for_layout_mode pages back second_width r.0).0.ws.pane_notebooks)
        done
      ∙ array-rebuild pages back second_width t consistent (ap (λ m. mode_eq m back) now ∙ again)
      ∙ ap₂ primary_first primary (shown ∙ array)
      ∙ primary_first_same s.notebook rest
      ∙ sym array
      ∙ sym (ap (λ (r : LayoutState F B × Bool). r.0.ws.pane_notebooks) done)
