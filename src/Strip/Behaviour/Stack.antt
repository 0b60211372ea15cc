-- ===== src/Strip/Behaviour/Stack.antt =====
-- Which pane of a column has the focus after one came into the column or left it
-- (workspace_strip_split_vertical_in_column, workspace_strip_remove_pane_from_column).
use prettymux.Prelude.{
  ℕ, suc, ◌≤◌, ◌<◌, ◌≡◌, ap, ◌∙◌, some, arith, length, length-erase_at, get_elem?,
  get_elem?-insert_at, erase_at, erase_at-insert_at, insert_at,
}
use prettymux.Prelude.Int.{pos, index?, clamp_index, ◌+ℤ◌, +ℤ_one}
use prettymux.Prelude.Slices.{get_elem?-erase_at_lt, get_elem?-erase_at_le}
use prettymux.Strip.Model.{Widget, Column}
use prettymux.Strip.Panes.{split_column, unsplit_column, pull_back}

module _ {F : Type 0} where
  -- Splitting a column of which the pane at an index of it has the focus puts the new pane directly below that one, the
  -- other panes stay as they are, and the new pane has the focus.
  split_column-Focused :
      (new_notebook : Widget) (col : Column F) (f : ℕ)
      → col.focused_pane ≡ pos f
      → f < length col.panes
      → (index? (split_column new_notebook col).panes (split_column new_notebook col).focused_pane
          ≡ some new_notebook)
        × ((split_column new_notebook col).focused_pane ≡ pos (suc f))
        × (erase_at (split_column new_notebook col).panes (suc f) ≡ col.panes)
  split_column-Focused new_notebook col f focused inside =
      let below : clamp_index (col.focused_pane +ℤ pos 1) (length col.panes) ≡ suc f =
        ap (λ v. clamp_index (v +ℤ pos 1) (length col.panes)) focused
        ∙ ap (λ v. clamp_index v (length col.panes)) (+ℤ_one f)
        ∙ omega arith in
      (
        ap (λ n. get_elem? (insert_at col.panes n new_notebook) n) below
            ∙ get_elem?-insert_at col.panes (suc f) new_notebook inside,
        ap pos below,
        ap (λ n. erase_at (insert_at col.panes n new_notebook) (suc f)) below
            ∙ erase_at-insert_at col.panes (suc f) new_notebook inside,
      )

  -- Removing a pane of a column keeps the focus on its pane when the removed pane is below it. When the
  -- removed pane is the focused one or above it, and the focused one is not the last, the pane that was
  -- right below the focused one has the focus afterwards.
  pub unsplit_column-Focused :
      (col : Column F) (i f : ℕ)
      → col.focused_pane ≡ pos f
      → i < length col.panes
      → (f < i
          → index? (unsplit_column i col).panes (unsplit_column i col).focused_pane
            ≡ get_elem? col.panes f)
        × (i ≤ f
            → suc f < length col.panes
            → index? (unsplit_column i col).panes (unsplit_column i col).focused_pane
              ≡ get_elem? col.panes (suc f))
  unsplit_column-Focused col i f focused inside =
      let len : suc (length (erase_at col.panes i)) ≡ length col.panes =
        length-erase_at col.panes i inside in
      let at : (f < length (erase_at col.panes i))
          → index? (erase_at col.panes i)
              (pull_back (length (erase_at col.panes i)) col.focused_pane)
            ≡ get_elem? (erase_at col.panes i) f =
        λ h.
          ap (λ v. index? (erase_at col.panes i) (pull_back (length (erase_at col.panes i)) v))
            focused
          ∙ ap (index? (erase_at col.panes i)) (stays (length (erase_at col.panes i)) h) in
      (
        (λ above. at (omega arith) ∙ get_elem?-erase_at_lt col.panes i f above),
        λ below more. at (omega arith) ∙ get_elem?-erase_at_le col.panes i f below,
      )
    where
      stays : (len : ℕ) → f < len → pull_back len (pos f) ≡ pos f
      stays len h = ground arith
