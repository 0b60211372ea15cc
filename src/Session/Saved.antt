-- ===== src/Session/Saved.antt =====
-- What is written for a column of a sound strip, and the column that is built from it.
use prettymux.Prelude.{
  ℕ, ◌-◌, ◌<◌, ◌≡◌, refl, sym, ap, ap₂, ◌∙◌, subst, Bool, true, some, List, [], ◌∷◌, arith, map,
  length, get_elem?, get_elem?_lt, ltb, All-get_elem?,
}
use prettymux.Prelude.Int.{ℤ, pos, negsuc, clamp_index, ltb_ℤ}
use prettymux.Prelude.Text.{Text}
use prettymux.Json.{strings}
use prettymux.Strip.Model.{Widget, Column}
use prettymux.Strip.Column.{column_focused_notebook}
use prettymux.Strip.Invariant.Kept.{IsIndex, ColumnOk}
use prettymux.Layout.Panes.{has}
use prettymux.Session.Save.{
  column_members, pane_text, column_pane_id, saved_focused_pane, saved_focused_id, id_or,
  saved_pane_ids, saved_width, save_column,
}
use prettymux.Session.Ids.{IsNamed, Within}

-- A column as a saved strip has it: sound, and with a width.
pub record IsSavable {F : Type 0} (col : Column F) : Type 0 where
  pub ok : ColumnOk col
  pub wide : ltb_ℤ (pos 0) col.target_width ≡ true

-- The focused pane of a sound column: its index, the pane, and the panes with a first one.
pub record FocusedPane {F : Type 0} (col : Column F) : Type 0 where
  pub index : ℕ
  pub pane : Widget
  pub first : Widget
  pub rest : List Widget
  pub at : col.focused_pane ≡ pos index
  pub found : get_elem? col.panes index ≡ some pane
  pub inside : index < length col.panes
  pub shape : col.panes ≡ first ∷ rest

pub FocusedPane-of : {F : Type 0} (col : Column F) → ColumnOk col → FocusedPane col
FocusedPane-of col ok = go col.focused_pane col.panes refl refl ok.focused
  where
    go :
        (i : ℤ) (l : List Widget)
        → col.focused_pane ≡ i
        → col.panes ≡ l
        → IsIndex i (length l)
        → FocusedPane col
    go (negsuc n) l e f h = elim h [ ]
    go (pos k) [] e f h = absurd (omega arith)
    go (pos k) (x ∷ l) e f h =
        let (w, found) = get_elem?_lt (x ∷ l) k h in
        record {
          index = k;
          pane = w;
          first = x;
          rest = l;
          at = e;
          found = ap (λ m. get_elem? m k) f ∙ found;
          inside = subst (λ m. k < length m) (sym f) h;
          shape = f;
        }

module _ {F : Type 0} (ids : Widget → Text) (is_notebook : Widget → Bool) (panes : List Widget)
    (named : IsNamed ids is_notebook panes) (col : Column F) (h : IsSavable col)
    (within : Within panes col.panes) (focus : FocusedPane col) where
  there : has focus.pane panes ≡ true
  there = All-get_elem? (λ w. has w panes ≡ true) col.panes focus.index within focus.found

  focused_index : clamp_index (pos focus.index) (length col.panes - 1) ≡ focus.index
  focused_index = ground (arith, focus.inside)

  -- The focused notebook of the column is its focused pane.
  focused_notebook-eq : column_focused_notebook is_notebook col ≡ some focus.pane
  unfolding column_focused_notebook
  focused_notebook-eq =
      rw (focus.at, focused_index, focus.found, named.notebooks focus.pane there) refl

  pub column_pane_id-eq : column_pane_id ids is_notebook col ≡ ids focus.pane
  column_pane_id-eq = rw focused_notebook-eq refl

  some_pane : ltb 0 (length col.panes) ≡ true
  some_pane = ground (arith, focus.inside)

  focused_pane-eq : saved_focused_pane ids is_notebook col ≡ focus.index
  focused_pane-eq = rw (some_pane, focus.at, focused_index) refl

  focused_id-eq : saved_focused_id ids is_notebook col ≡ ids focus.pane
  focused_id-eq =
      ap (id_or ids is_notebook (column_pane_id ids is_notebook col))
        (ap (get_elem? col.panes) focused_pane-eq ∙ focus.found)
      ∙ (rw (named.notebooks focus.pane there) refl)

  pane_texts : (l : List Widget) → Within panes l → map (pane_text ids is_notebook) l ≡ map ids l
  pane_texts [] k = refl
  pane_texts (w ∷ l) k = rw (named.notebooks w k.0, pane_texts l k.1) refl

  pub save_column-eq :
      save_column ids is_notebook col
      ≡ column_members
          (ids focus.pane)
          (strings (map ids col.panes))
          (pos focus.index)
          (ids focus.pane)
          col.target_width
          col.maximized
          col.half_maximized
  unfolding save_column
  save_column-eq =
      ap₂
        (λ i t.
          column_members (column_pane_id ids is_notebook col) (saved_pane_ids ids is_notebook col)
            (pos i) t (saved_width col.target_width) col.maximized col.half_maximized)
        focused_pane-eq focused_id-eq
      ∙ (rw (column_pane_id-eq, some_pane, pane_texts col.panes within, h.wide) refl)
