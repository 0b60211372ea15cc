-- ===== src/Strip/Column.antt =====
-- Looking a pane up in a column and in the strip (gtk/workspace_strip.c, the lifecycle part and the
-- two resolvers), and the chain of `GtkPaned` widgets over a column's panes.
use prettymux.Prelude.{
  ℕ, suc, ◌-◌, Bool, true, false, not, ◌&&◌, Option, none, some, List, [], ◌∷◌, ◌==◌, if◌then◌else◌,
  length, get_elem?,
}
use prettymux.Prelude.Int.{ℤ, pos, negsuc, index?, clamp_index}
use prettymux.Strip.Model.{Widget, null, Root, leaf, paned, Column, Workspace}

-- The position of a pointer in an array of pointers.
abbrev pub position : Widget → List Widget → Option ℕ
position w [] = none
position w (x ∷ xs) =
    if x == w then some 0 else elim (position w xs) [ none ↦ none | some i ↦ some (suc i) ]

abbrev pub is_leaf : Widget → Option Root → Bool
is_leaf w none = w == null
is_leaf w (some (leaf v)) = v == w
is_leaf w (some (paned a b)) = false

abbrev pub is_found : Option ℕ → Bool
is_found none = false
is_found (some i) = true

-- A column's index as an `int`, -1 for none.
abbrev pub or_minus_one : Option ℕ → ℤ
or_minus_one none = negsuc 0
or_minus_one (some i) = pos i

module _ {F : Type 0} where
  unfoldable pub column_contains_notebook : Column F → Widget → Bool
  column_contains_notebook col notebook =
      if notebook == null
      then false
      else if is_found (position notebook col.panes)
      then true
      else is_leaf notebook col.notebook

  unfoldable pub column_pane_index : Column F → Widget → ℤ
  column_pane_index col notebook =
      if notebook == null then negsuc 0 else or_minus_one (position notebook col.panes)

  abbrev pub find_column : Widget → List (Column F) → Option ℕ
  find_column notebook [] = none
  find_column notebook (col ∷ cols) =
      if column_contains_notebook col notebook
      then some 0
      else elim (find_column notebook cols) [ none ↦ none | some i ↦ some (suc i) ]

  -- The answer that the code falls back on when the focused index is out of range: the column of the
  -- active pane, else the first one.
  abbrev pub resolve_fallback : Option ℕ → List (Column F) → Option ℕ
  resolve_fallback (some i) cols = some i
  resolve_fallback none [] = none
  resolve_fallback none (c ∷ cols) = some 0

module _ {F B : Type 0} where
  unfoldable pub find_column_for_notebook : Workspace F B → Widget → ℤ
  find_column_for_notebook ws notebook = elim ws.strip_state [
    | none ↦ negsuc 0
    | some state ↦
        if notebook == null then negsuc 0 else or_minus_one (find_column notebook state.columns)
  ]

  unfoldable pub resolve_focused_col : Workspace F B → Option ℕ
  resolve_focused_col ws = elim ws.strip_state [
    | none ↦ none
    | some state ↦ elim (index? state.columns state.focused_col) [
      | some col ↦ elim state.focused_col [ pos i ↦ some i | negsuc i ↦ none ]
      | none ↦
          resolve_fallback
            (if ws.active_pane == null then none else find_column ws.active_pane state.columns)
            state.columns
    ]
  ]

-- `GTK_IS_NOTEBOOK` of a pointer that may be NULL or out of range.
abbrev pub as_notebook : (Widget → Bool) → Option Widget → Option Widget
as_notebook is_notebook none = none
as_notebook is_notebook (some w) = if not (w == null) && is_notebook w then some w else none

abbrev pub root_notebook : (Widget → Bool) → Option Root → Option Widget
root_notebook is_notebook none = none
root_notebook is_notebook (some (leaf w)) = as_notebook is_notebook (some w)
root_notebook is_notebook (some (paned a b)) = none

abbrev pub or_root : (Widget → Bool) → Option Widget → Option Root → Option Widget
or_root is_notebook (some w) r = some w
or_root is_notebook none r = root_notebook is_notebook r

unfoldable pub column_focused_notebook : {F : Type 0} → (Widget → Bool) → Column F → Option Widget
column_focused_notebook is_notebook col =
    or_root is_notebook
      (as_notebook is_notebook
        (get_elem? col.panes (clamp_index col.focused_pane (length col.panes - 1))))
      col.notebook

-- `result = paned(result, panes[i])` for each further pane
abbrev pub chain_from : Root → List Widget → Root
chain_from result [] = result
chain_from result (w ∷ ws) = chain_from (paned result (leaf w)) ws

unfoldable pub rebuild_column_paned_chain : List Widget → Option Root
rebuild_column_paned_chain [] = none
rebuild_column_paned_chain (w ∷ ws) = some (chain_from (leaf w) ws)
