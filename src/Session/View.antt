-- ===== src/Session/View.antt =====
-- What the session keeps of a strip's columns, and that the layout leaves it as it is.
use prettymux.Prelude.{
  ◌≡◌, refl, ap, ap₂, Bool, true, false, ◌||◌, Option, none, some, List, [], ◌∷◌, arith, All, map,
  if◌then◌else◌,
}
use prettymux.Prelude.Int.{ℤ, pos, negsuc, ltb_ℤ, leb_ℤ, half}
use prettymux.Strip.Model.{Widget, Double, Column}
use prettymux.Strip.Camera.{default_col_width}
use prettymux.Strip.Columns.{layout_column}
use prettymux.Session.Read.{reset_column}
use prettymux.Session.Saved.{IsSavable}
use prettymux.Session.Built.{restored}

-- What the session keeps of a column: a maximized column gets its width from the viewport again.
pub record ColumnView : Type 0 where
  pub panes : List Widget
  pub focused_pane : ℤ
  pub maximized : Bool
  pub half_maximized : Bool
  pub width : Option ℤ

abbrev pub column_view : {F : Type 0} → Column F → ColumnView
column_view col = record {
  panes = col.panes;
  focused_pane = col.focused_pane;
  maximized = col.maximized;
  half_maximized = col.half_maximized;
  width = if col.maximized || col.half_maximized then none else some col.target_width;
}

width-layout :
    (v w : ℤ) (a b : Bool)
    → ltb_ℤ (pos 0) w ≡ true
    → (if a || b
        then none
        else some (
            if a
            then v
            else if b
            then half v
            else if leb_ℤ w (pos 0)
            then default_col_width
            else w))
      ≡ (if a || b then none else some w)
width-layout v w true b h = refl
width-layout v w false true h = refl
width-layout v (pos w) false false h = ground arith
width-layout v (negsuc w) false false h = ground arith

module _ {F : Type 0} ⦃num : Double F⦄ where
  view-layout :
      (v : ℤ) (col : Column F)
      → IsSavable col
      → column_view (layout_column v (restored col)) ≡ column_view col
  view-layout v col h =
      ap (λ w. record (column_view col) { width = w })
        (width-layout v col.target_width col.maximized col.half_maximized h.wide)

  pub map-map :
      (cols : List (Column F))
      → map reset_column (map restored cols) ≡ map (λ c. reset_column (restored c)) cols
  map-map [] = refl
  map-map (c ∷ cols) = ap (λ l. reset_column (restored c) ∷ l) (map-map cols)

  pub views-layout :
      (v : ℤ) (cols : List (Column F))
      → All IsSavable cols
      → map column_view (map (layout_column v) (map restored cols)) ≡ map column_view cols
  views-layout v [] h = refl
  views-layout v (c ∷ cols) h = ap₂ (λ x l. x ∷ l) (view-layout v c h.0) (views-layout v cols h.1)
