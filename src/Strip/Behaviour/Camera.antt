-- ===== src/Strip/Behaviour/Camera.antt =====
-- The camera stays over the strip (workspace_strip_clamp_camera and its callers).
use prettymux.Prelude.{◌≡◌, refl, true, false, some, List, [], ◌∷◌, map, arith, ap₂, if◌then◌else◌}
use prettymux.Prelude.Int.{ℤ, pos, negsuc, index?}
use prettymux.Strip.Model.{Double, Gtk, Column, Strip, Workspace}
use prettymux.Strip.Camera.{
  zero_f, viewport_width, max_scroll, has_columns, centered_target, sum_widths, clamp_target,
  clamp_camera, pan_to_focused_column, pan_by, ensure_tick_running, apply_camera,
  apply_column_widths,
}
use prettymux.Strip.Columns.{layout_column, apply_layout_state, apply_layout}
use prettymux.Strip.Invariant.Kept.{IsSound, IsSound-index?, sized-IsSound, columns-pan}

module _ {F : Type 0} ⦃num : Double F⦄ where
  -- The target is neither left of the strip nor past the place where the last column ends at the right
  -- edge of the viewport.
  pub record InView {B : Type 0} (s : Strip F B) : Type 0 where
    pub left : num.lt s.camera_target_x zero_f ≡ false
    pub right : num.lt (max_scroll s (viewport_width s)) s.camera_target_x ≡ false

  abbrev limit_of : List (Column F) → ℤ → F
  limit_of cols v =
      let room = num.sub (sum_widths zero_f cols) (num.of_int v) in
      if num.lt room zero_f then zero_f else room

  clamp_target_bounds :
      (cols : List (Column F)) (v : ℤ) (t : F)
      → (num.lt (clamp_target (limit_of cols v) t) zero_f ≡ false)
        × (num.lt (limit_of cols v) (clamp_target (limit_of cols v) t) ≡ false)
  clamp_target_bounds cols v t =
      (ground (arith, num.lt_irrefl zero_f), ground (arith, num.lt_irrefl (limit_of cols v)))

has_columns_of_index? :
    {F : Type 0} (cols : List (Column F)) (i : ℤ) {c : Column F}
    → index? cols i ≡ some c
    → has_columns cols ≡ true
has_columns_of_index? [] (pos i) e = cc
has_columns_of_index? [] (negsuc i) e = cc
has_columns_of_index? (c ∷ cols) i e = refl

module _ {F B : Type 0} ⦃num : Double F⦄ ⦃gtk : Gtk B⦄ where
  target-pan :
      (s : Strip F B) (c : Column F)
      → index? s.columns s.focused_col ≡ some c
      → (pan_to_focused_column s).camera_target_x
        ≡ clamp_target (max_scroll s (viewport_width s)) (centered_target s c)
  unfolding pan_to_focused_column clamp_camera ensure_tick_running
  target-pan s c found = ground (arith, has_columns_of_index? s.columns s.focused_col found)

  viewport_width-pan : (s : Strip F B) → viewport_width (pan_to_focused_column s) ≡ viewport_width s
  unfolding pan_to_focused_column clamp_camera ensure_tick_running
  viewport_width-pan s = ground arith

  max_scroll-pan :
      (s : Strip F B)
      → max_scroll (pan_to_focused_column s) (viewport_width (pan_to_focused_column s))
        ≡ max_scroll s (viewport_width s)
  max_scroll-pan s = ap₂ limit_of (columns-pan s) (viewport_width-pan s)

  pan-InView :
      (s : Strip F B) (c : Column F)
      → index? s.columns s.focused_col ≡ some c
      → InView (pan_to_focused_column s)
  pan-InView s c found =
      let b = clamp_target_bounds s.columns (viewport_width s) (centered_target s c) in
      record {
        left = rw (target-pan s c found) b.0;
        right = rw (max_scroll-pan s, target-pan s c found) b.1;
      }

  -- After the layout was applied to a sound strip, the camera's target is in view.
  pub apply_layout-InView :
      (ws : Workspace F B) (s : Strip F B)
      → ws.strip_state ≡ some s
      → IsSound s.columns s.focused_col
      → (s' : Strip F B) × ((apply_layout ws).strip_state ≡ some s') × InView s'
  apply_layout-InView ws s e h =
      let shown : Strip F B =
        apply_column_widths
          (record s { columns = map (layout_column (viewport_width s)) s.columns }) in
      let (c, found) = IsSound-index? shown.columns shown.focused_col (sized-IsSound s h) in
      (
        apply_layout_state s,
        unfold apply_layout in ground arith,
        unfold apply_layout_state in pan-InView shown c found,
      )

  -- Whatever the state and however far the trackpad pans, a strip with columns is in view, and the
  -- camera is at its target.
  pub pan_by-InView :
      (dx : F) (s : Strip F B)
      → has_columns s.columns ≡ true
      → num.eq dx zero_f ≡ false
      → InView (pan_by dx s) × ((pan_by dx s).camera_x ≡ (pan_by dx s).camera_target_x)
  pan_by-InView dx s h moves =
      let t = num.add s.camera_target_x dx in
      let b = clamp_target_bounds s.columns (viewport_width s) t in
      let limit : max_scroll (pan_by dx s) (viewport_width (pan_by dx s))
          ≡ limit_of s.columns (viewport_width s) =
        ap₂ limit_of {x = (pan_by dx s).columns} {y = s.columns}
          (unfold pan_by clamp_camera apply_camera in ground arith)
          (unfold pan_by clamp_camera apply_camera in ground arith) in
      let target : (pan_by dx s).camera_target_x
          ≡ clamp_target (limit_of s.columns (viewport_width s)) t =
        unfold pan_by clamp_camera apply_camera in ground arith in
      (
        record { left = rw target b.0; right = rw (limit, target) b.1 },
        unfold pan_by clamp_camera apply_camera in ground arith,
      )
