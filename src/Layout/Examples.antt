-- ===== src/Layout/Examples.antt =====
-- A workspace of two panes in the classic layout, and the theorems at it.
use prettymux.Prelude.{◌≡◌, refl, true, false, none, List, [], ◌∷◌, arith}
use prettymux.Prelude.Int.{ℤ, pos}
use prettymux.Strip.Model.{Root, leaf, paned, Widget, classic, strip}
use prettymux.Strip.Instances.{whole, list_box}
use prettymux.Layout.{LayoutState, Pages, panes, add_saved_notebook, rebuild_for_layout_mode}
use prettymux.Layout.Panes.{has, has-cons}
use prettymux.Layout.Rebuild.{shown_notebooks, IsConsistent, rebuild-IsConsistent}

-- Notebook 8 on the left of the primary notebook 7, which is the first of the array.
abbrev side_by_side : LayoutState ℤ (List Root)
side_by_side = record {
  ws = record {
    layout_mode = classic;
    strip_state = none;
    active_pane = 8;
    pane_notebooks = 7 ∷ 8 ∷ [];
  };
  notebook = 7;
  has_overlay = true;
  child = panes (paned (leaf 8) (leaf 7));
  zoomed = false;
  current_page = λ w. pos 0;
  focused = [];
}

abbrev one_page : Pages
one_page = record { n_pages = λ w. 1; terminal_at = λ w page. true }

swapped : (w : Widget) → has w (8 ∷ 7 ∷ []) ≡ has w (7 ∷ 8 ∷ [])
swapped w =
    ground (arith, has-cons w 8 (7 ∷ []), has-cons w 7 (8 ∷ []), has-cons w 7 [], has-cons w 8 [])

side_by_side-IsConsistent : IsConsistent side_by_side
side_by_side-IsConsistent = record {
  overlay = refl;
  distinct = (refl, refl, (refl, refl, tt));
  primary = refl;
  shown = λ w. unfold add_saved_notebook in swapped w;
}

rebuild-IsConsistent_example :
    (t : LayoutState ℤ (List Root)) × (rest : List Widget) × (rebuild_for_layout_mode one_page strip
        (pos 1000)
        side_by_side
      ≡ (t, true))
    × (t.ws.layout_mode ≡ strip)
    × IsConsistent t
    × (t.notebook ≡ 7)
    × (t.ws.pane_notebooks ≡ 7 ∷ rest)
    × (shown_notebooks t ≡ t.ws.pane_notebooks)
    × ((w : Widget) → has w t.ws.pane_notebooks ≡ has w (7 ∷ 8 ∷ []))
rebuild-IsConsistent_example =
    rebuild-IsConsistent one_page strip (pos 1000) side_by_side side_by_side-IsConsistent refl
