-- ===== src/Layout.antt =====
-- gtk/workspace_layout.c: changing the layout of a workspace between the classic one, panes in a tree
-- of `GtkPaned`, and the strip; with `workspace_strip_focus_primary` of gtk/workspace_strip.c and
-- `workspace_focus_first_terminal` of gtk/workspace.c.
use prettymux.Prelude.{
  ℕ, Bool, true, false, not, ◌&&◌, ◌||◌, Option, none, some, List, [], ◌∷◌, ◌++◌, ◌==◌,
  if◌then◌else◌, set, leb, ltb,
}
use prettymux.Prelude.Int.{ℤ, pos, negsuc, index?}
use prettymux.Strip.Model.{
  Widget, null, Root, leaf, paned, Double, Gtk, Column, Strip, LayoutMode, classic, strip,
  Workspace,
}
use prettymux.Strip.Column.{position, is_found, column_focused_notebook, chain_from}
use prettymux.Strip.Focus.{is_strip, set_active_pane, focus_column, focus_pane}
use prettymux.Strip.Columns.{
  create_root, add_notebook_column, toggle_maximize_column, toggle_half_maximize_column,
}
pub mod Panes
pub mod Kept
pub mod Shown
pub mod Rebuild
mod Examples

-- The child of `ws->overlay`: none, a tree of panes, or the scrolled window over the column box.
pub data Child : Type 0 where
  no_child : Child
  panes : Root → Child
  scrolled : Child

-- The fields of Workspace that `Strip.Model.Workspace` leaves out.
pub record LayoutState (F B : Type 0) : Type 0 where
  pub ws : Workspace F B
  pub notebook : Widget
  pub has_overlay : Bool
  pub child : Child
  pub zoomed : Bool
  -- gtk_notebook_get_current_page
  pub current_page : Widget → ℤ
  -- the calls that give a terminal the focus, by notebook and page
  pub focused : List (Widget × ℕ)

-- What the code asks a notebook: gtk_notebook_get_n_pages, and whether a page has a terminal.
pub record Pages : Type 0 where
  pub n_pages : Widget → ℕ
  pub terminal_at : Widget → ℕ → Bool

abbrev pub mode_eq : LayoutMode → LayoutMode → Bool
mode_eq classic classic = true
mode_eq strip strip = true
mode_eq classic strip = false
mode_eq strip classic = false

module _ (is_notebook : Widget → Bool) where
  -- GTK_IS_NOTEBOOK of a pointer that may be NULL
  abbrev pub is_pane : Widget → Bool
  is_pane w = not (w == null) && is_notebook w

  -- workspace_rebuild_add_saved_notebook
  unfoldable pub add_saved_notebook : List Widget → Widget → List Widget
  add_saved_notebook saved notebook =
      if not (is_pane notebook)
      then saved
      else if is_found (position notebook saved)
      then saved
      else saved ++ notebook ∷ []

  abbrev pub add_saved_notebooks : List Widget → List Widget → List Widget
  add_saved_notebooks saved [] = saved
  add_saved_notebooks saved (w ∷ ws) = add_saved_notebooks (add_saved_notebook saved w) ws

  -- workspace_rebuild_collect_notebooks. The widgets under a notebook hold no other notebook.
  abbrev pub collect_notebooks : Root → List Widget → List Widget
  collect_notebooks (leaf w) saved = add_saved_notebook saved w
  collect_notebooks (paned a b) saved = collect_notebooks b (collect_notebooks a saved)

  abbrev pub collect_all : List Root → List Widget → List Widget
  collect_all [] saved = saved
  collect_all (r ∷ rs) saved = collect_all rs (collect_notebooks r saved)

  -- `if (!ws->active_pane || workspace_get_pane_index(ws, ws->active_pane) < 0)`
  abbrev pub kept_active : Widget → Widget → List Widget → Widget
  kept_active first active saved =
      if is_pane active && is_found (position active saved) then active else first

abbrev pub is_nil : List Widget → Bool
is_nil [] = true
is_nil (w ∷ ws) = false

module _ {B : Type 0} ⦃gtk : Gtk B⦄ where
  abbrev pub box_children : Option B → List Root
  box_children none = []
  box_children (some box) = gtk.children box

  -- The roots that stand in the overlay: those in the column box of the strip, or the tree.
  abbrev pub shown_roots : {F : Type 0} → Child → Option (Strip F B) → List Root
  shown_roots no_child state = []
  shown_roots (panes r) state = r ∷ []
  shown_roots scrolled none = []
  shown_roots scrolled (some state) = box_children state.column_box

  -- The notebooks to keep: those in the overlay, or the array if there are none, and the primary one.
  unfoldable pub saved_notebooks : {F : Type 0} → LayoutState F B → List Widget
  saved_notebooks s =
      let collected = collect_all gtk.is_notebook (shown_roots s.child s.ws.strip_state) [] in
      let saved =
        if is_nil collected
        then add_saved_notebooks gtk.is_notebook collected s.ws.pane_notebooks
        else collected in
      add_saved_notebook gtk.is_notebook saved s.notebook

-- `page < 0 || page >= gtk_notebook_get_n_pages(pane)` gives page 0
abbrev pub page_or_first : ℕ → ℤ → ℕ
page_or_first n (pos page) = if ltb page n then page else 0
page_or_first n (negsuc page) = 0

-- `tmp = saved[i]; saved[i] = saved[0]; saved[0] = tmp` at the index of the primary notebook
abbrev pub primary_first : Widget → List Widget → List Widget
primary_first primary [] = []
primary_first primary (first ∷ rest) =
    if first == primary
    then first ∷ rest
    else elim (position primary rest) [ none ↦ first ∷ rest | some i ↦ primary ∷ set rest i first ]

module _ {F B : Type 0} ⦃num : Double F⦄ ⦃gtk : Gtk B⦄ where
  abbrev pub focus_page : Pages → Widget → ℕ → LayoutState F B → LayoutState F B
  focus_page pages pane page s =
      let s' = record s {
        ws = set_active_pane s.ws pane;
        current_page = λ w. if w == pane then pos page else s.current_page w;
      } in
      if pages.terminal_at pane page
      then record s' { focused = s'.focused ++ (pane, page) ∷ [] }
      else s'

  -- The pane and the page that `workspace_focus_first_terminal` starts from.
  abbrev pub first_terminal_pane : LayoutState F B → Widget × ℤ
  first_terminal_pane s =
      if is_pane gtk.is_notebook s.ws.active_pane
        && is_found (position s.ws.active_pane s.ws.pane_notebooks)
      then (s.ws.active_pane, s.current_page s.ws.active_pane)
      else (s.notebook, pos 0)

  -- workspace_focus_first_terminal
  unfoldable pub focus_first_terminal : Pages → LayoutState F B → LayoutState F B
  focus_first_terminal pages s =
      let (pane, page) = first_terminal_pane s in
      if not (is_pane gtk.is_notebook pane) || leb (pages.n_pages pane) 0
      then s
      else focus_page pages pane (page_or_first (pages.n_pages pane) page) s

  abbrev pub focused_column_notebook : Workspace F B → Option Widget
  focused_column_notebook ws = elim ws.strip_state [
    | none ↦ none
    | some state ↦ elim (index? state.columns state.focused_col) [
      | none ↦ none
      | some col ↦ column_focused_notebook gtk.is_notebook col
    ]
  ]

  abbrev pub focused_col_of : Workspace F B → ℤ
  focused_col_of ws = elim ws.strip_state [ none ↦ pos 0 | some state ↦ state.focused_col ]

  -- From `workspace_strip_column_focused_notebook` on: the focus, or the first terminal's pane.
  abbrev pub focus_pane_or_first : Pages → Option Widget → LayoutState F B → LayoutState F B
  focus_pane_or_first pages none s = focus_first_terminal pages s
  focus_pane_or_first pages (some pane) s =
      let (ws, focused) = focus_pane s.ws pane in
      if focused then record s { ws = ws } else focus_first_terminal pages (record s { ws = ws })

  -- workspace_strip_focus_primary
  unfoldable pub strip_focus_primary : Pages → LayoutState F B → LayoutState F B
  strip_focus_primary pages s = elim s.ws.strip_state [
    | none ↦ s
    | some state ↦
        let ws = focus_column s.ws (focused_col_of s.ws) in
        focus_pane_or_first pages (focused_column_notebook ws) (record s { ws = ws })
  ]

  -- workspace_layout_focus_primary
  unfoldable pub layout_focus_primary : Pages → LayoutState F B → LayoutState F B
  layout_focus_primary pages s =
      if is_strip s.ws.layout_mode
      then strip_focus_primary pages s
      else focus_first_terminal pages s

  abbrev pub add_columns : Workspace F B → List Widget → Workspace F B
  add_columns ws [] = ws
  add_columns ws (nb ∷ nbs) = add_columns (add_notebook_column ws nb) nbs

  -- `workspace_layout_create_root` and the further notebooks: the new child of the overlay, and the
  -- workspace. `allocated` is the width of the new scrolled window.
  unfoldable pub new_root :
      LayoutMode → ℤ → Widget → List Widget → Workspace F B → Child × Workspace F B
  new_root strip allocated first rest ws =
      (scrolled, add_columns (create_root ws first allocated) rest)
  new_root classic allocated first rest ws = (panes (chain_from (leaf first) rest), ws)

  -- From the freeing of the strip on, before the focus moves.
  unfoldable pub rebuilt : LayoutMode → ℤ → Widget → List Widget → LayoutState F B → LayoutState F B
  rebuilt mode allocated first rest s =
      let (child, ws) =
        new_root mode allocated first rest
          (record s.ws { layout_mode = mode; strip_state = none }) in
      record s {
        ws = record ws {
          pane_notebooks = first ∷ rest;
          active_pane = kept_active gtk.is_notebook first ws.active_pane (first ∷ rest);
        };
        child = child;
        notebook = first;
      }

  -- workspace_rebuild_for_layout_mode
  unfoldable pub rebuild_for_layout_mode :
      Pages → LayoutMode → ℤ → LayoutState F B → LayoutState F B × Bool
  rebuild_for_layout_mode pages mode allocated s =
      if mode_eq s.ws.layout_mode mode
      then (s, true)
      else if not s.has_overlay || s.notebook == null
      then (s, false)
      else elim (primary_first s.notebook (saved_notebooks s)) [
        | [] ↦ (s, false)
        | first ∷ rest ↦ (layout_focus_primary pages (rebuilt mode allocated first rest s), true)
      ]

  -- workspace_layout_toggle_zoom_current; `zoom` is `workspace_toggle_zoom`
  unfoldable pub toggle_zoom_current :
      (LayoutState F B → LayoutState F B) → LayoutState F B → LayoutState F B
  toggle_zoom_current zoom s =
      if is_strip s.ws.layout_mode then record s { ws = toggle_maximize_column s.ws } else zoom s

  -- workspace_layout_toggle_half_zoom_current
  unfoldable pub toggle_half_zoom_current : LayoutState F B → LayoutState F B
  toggle_half_zoom_current s =
      if is_strip s.ws.layout_mode then record s { ws = toggle_half_maximize_column s.ws } else s

  -- workspace_layout_is_zoomed
  unfoldable pub is_zoomed : LayoutState F B → Bool
  is_zoomed s =
      if is_strip s.ws.layout_mode
      then elim s.ws.strip_state [
        | none ↦ false
        | some state ↦ elim (index? state.columns state.focused_col) [
          | none ↦ false
          | some col ↦ col.maximized
        ]
      ]
      else s.zoomed
