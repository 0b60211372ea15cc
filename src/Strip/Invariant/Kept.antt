-- ===== src/Strip/Invariant/Kept.antt =====
-- The invariant, and that what only shows or times the strip keeps it.
use prettymux.Prelude.{
  ℕ, ◌<◌, ◌≡◌, false, ◌&&◌, Option, none, some, List, [], ◌∷◌, map, arith, All, length, length-map,
  subst, set, length-set, All-set, All-get_elem?, lt_of_get_elem?, get_elem?_lt, refl, get_elem?,
  sym, inl, inr, Option-cases,
}
use prettymux.Prelude.Int.{ℤ, pos, negsuc, index?}
use prettymux.Strip.Model.{Double, Gtk, Column, Strip, Workspace}
use prettymux.Strip.Column.{rebuild_column_paned_chain, resolve_focused_col}
use prettymux.Strip.Camera.{
  pan_to_focused_column, clamp_camera, ensure_tick_running, apply_column_widths, viewport_width,
}
use prettymux.Strip.Columns.{layout_column, apply_layout_state, apply_layout}

-- `i` is an index into `n` elements.
abbrev pub IsIndex : ℤ → ℕ → Type 0
IsIndex (pos i) n = i < n
IsIndex (negsuc i) n = ⊥

pub record ColumnOk {F : Type 0} (col : Column F) : Type 0 where
  pub focused : IsIndex col.focused_pane (length col.panes)
  pub exclusive : (col.maximized && col.half_maximized) ≡ false
  pub rooted : col.notebook ≡ rebuild_column_paned_chain col.panes

abbrev pub IsSound : {F : Type 0} → List (Column F) → ℤ → Type 0
IsSound cols focused = All ColumnOk cols × IsIndex focused (length cols)

abbrev pub StateOk : {F B : Type 0} → Option (Strip F B) → Type 0
StateOk none = Unit
StateOk (some state) = IsSound state.columns state.focused_col

abbrev pub WorkspaceOk : {F B : Type 0} → Workspace F B → Type 0
WorkspaceOk ws = StateOk ws.strip_state

pub IsIndex-cong : (i : ℤ) (m n : ℕ) → m ≡ n → IsIndex i m → IsIndex i n
IsIndex-cong i m n e h = subst (IsIndex i) e h

module _ {F : Type 0} ⦃num : Double F⦄ where
  layout_column-ColumnOk : (v : ℤ) (col : Column F) → ColumnOk col → ColumnOk (layout_column v col)
  layout_column-ColumnOk v col ok = record {
    focused = ok.focused;
    exclusive = ok.exclusive;
    rooted = ok.rooted;
  }

  map-layout_column :
      (v : ℤ) (cols : List (Column F))
      → All ColumnOk cols
      → All ColumnOk (map (layout_column v) cols)
  map-layout_column v [] h = tt
  map-layout_column v (col ∷ cols) h =
      (layout_column-ColumnOk v col h.0, map-layout_column v cols h.1)

module _ {F B : Type 0} ⦃num : Double F⦄ ⦃gtk : Gtk B⦄ where
  pub columns-pan : (s : Strip F B) → (pan_to_focused_column s).columns ≡ s.columns
  unfolding pan_to_focused_column clamp_camera ensure_tick_running
  columns-pan s = ground arith

  pub focused_col-pan : (s : Strip F B) → (pan_to_focused_column s).focused_col ≡ s.focused_col
  unfolding pan_to_focused_column clamp_camera ensure_tick_running
  focused_col-pan s = ground arith

  pub columns-layout :
      (s : Strip F B)
      → (apply_layout_state s).columns ≡ map (layout_column (viewport_width s)) s.columns
  unfolding apply_layout_state
  columns-layout s = unfold apply_column_widths in columns-pan _

  pub focused_col-layout : (s : Strip F B) → (apply_layout_state s).focused_col ≡ s.focused_col
  unfolding apply_layout_state
  focused_col-layout s = unfold apply_column_widths in focused_col-pan _

  pub sized-IsSound :
      (s : Strip F B)
      → IsSound s.columns s.focused_col
      → IsSound
          (apply_column_widths
            (record s { columns = map (layout_column (viewport_width s)) s.columns })).columns
          (apply_column_widths
            (record s { columns = map (layout_column (viewport_width s)) s.columns })).focused_col
  unfolding apply_column_widths
  sized-IsSound s h = (
    map-layout_column _ s.columns h.0,
    IsIndex-cong s.focused_col _ _ (sym (length-map _ s.columns)) h.1,
  )

  pub layout-IsSound :
      (s : Strip F B)
      → IsSound s.columns s.focused_col
      → IsSound (apply_layout_state s).columns (apply_layout_state s).focused_col
  layout-IsSound s h =
      rw (columns-layout, focused_col-layout) (map-layout_column _ s.columns h.0, rw length-map h.1)

module _ {F : Type 0} where
  pub index?-IsIndex :
      (cols : List (Column F)) (i : ℤ) {c : Column F}
      → index? cols i ≡ some c
      → IsIndex i (length cols)
  index?-IsIndex cols (pos i) e = lt_of_get_elem? cols i e
  index?-IsIndex cols (negsuc i) e = cc

  pub index?-ColumnOk :
      (cols : List (Column F)) (i : ℤ) {c : Column F}
      → All ColumnOk cols
      → index? cols i ≡ some c
      → ColumnOk c
  index?-ColumnOk cols (pos i) h e = All-get_elem? ColumnOk cols i h e
  index?-ColumnOk cols (negsuc i) h e = cc

  pub IsSound-index? :
      (cols : List (Column F)) (i : ℤ) → IsSound cols i → (c : Column F) × (index? cols i ≡ some c)
  IsSound-index? cols (pos i) h = get_elem?_lt cols i h.1
  IsSound-index? cols (negsuc i) h = absurd h.1

  pub set-IsSound :
      (cols : List (Column F)) (i : ℕ) (c : Column F) (focused : ℤ)
      → IsSound cols focused
      → ColumnOk c
      → IsSound (set cols i c) focused
  set-IsSound cols i c focused h ok =
      (All-set ColumnOk cols i c h.0 ok, IsIndex-cong focused _ _ (sym (length-set cols i c)) h.1)

module _ {F B : Type 0} where
  -- To prove the invariant after an operation, prove it from a state that is there.
  pub by_state :
      (ws : Workspace F B) (op : Workspace F B → Workspace F B)
      → ((ws : Workspace F B) → ws.strip_state ≡ none → (op ws).strip_state ≡ none)
      → ((ws : Workspace F B) (s : Strip F B)
          → ws.strip_state ≡ some s
          → IsSound s.columns s.focused_col
          → WorkspaceOk (op ws))
      → WorkspaceOk ws
      → WorkspaceOk (op ws)
  by_state ws op absent present h = elim (Option-cases ws.strip_state) [
    | inl e ↦ rw (absent ws e) tt
    | inr (s, e) ↦ present ws s e (rw e at h)
  ]

  pub IsSound-of :
      (ws : Workspace F B) (s : Strip F B)
      → WorkspaceOk ws
      → ws.strip_state ≡ some s
      → IsSound s.columns s.focused_col
  IsSound-of ws s h e = subst StateOk e h

  pub WorkspaceOk-of :
      (ws : Workspace F B) (s : Strip F B)
      → ws.strip_state ≡ some s
      → IsSound s.columns s.focused_col
      → WorkspaceOk ws
  WorkspaceOk-of ws s e h = rw (e) h

-- An index is a number below the length.
pub IsIndex-cases : (i : ℤ) (n : ℕ) → IsIndex i n → (k : ℕ) × (i ≡ pos k) × (k < n)
IsIndex-cases (pos k) n h = (k, refl, h)
IsIndex-cases (negsuc k) n h = absurd h

module _ {F B : Type 0} where
  -- In a sound strip the focused column is the one that the code resolves.
  pub resolve-focused :
      (ws : Workspace F B) (s : Strip F B)
      → ws.strip_state ≡ some s
      → IsSound s.columns s.focused_col
      → (k : ℕ) × (c : Column F) × (s.focused_col ≡ pos k)
        × (resolve_focused_col ws ≡ some k)
        × (get_elem? s.columns k ≡ some c)
  resolve-focused ws s e h =
      let (k, at, lt) = IsIndex-cases s.focused_col (length s.columns) h.1 in
      let (c, found) = get_elem?_lt s.columns k lt in
      (k, c, at, unfold resolve_focused_col in ground arith, found)

module _ {F B : Type 0} ⦃num : Double F⦄ ⦃gtk : Gtk B⦄ where
  pub apply_layout-WorkspaceOk :
      (ws : Workspace F B) → WorkspaceOk ws → WorkspaceOk (apply_layout ws)
  unfolding apply_layout
  apply_layout-WorkspaceOk ws =
      by_state ws apply_layout (λ w e. ground arith)
        λ w s e h.
          WorkspaceOk-of (apply_layout w) (apply_layout_state s) (ground arith) (layout-IsSound s h)
