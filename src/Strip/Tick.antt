-- ===== src/Strip/Tick.antt =====
-- The animation (gtk/workspace_strip.c): smoothing toward the targets, once per frame.
use prettymux.Prelude.{
  ℕ, Bool, true, false, not, ◌||◌, Option, none, some, List, [], ◌∷◌, if◌then◌else◌,
}
use prettymux.Prelude.Int.{ℤ, pos, leb_ℤ, ◌-ℤ◌}
use prettymux.Strip.Model.{
  Double, Column, AnimProfile, anim_default, anim_insert, anim_remove, anim_maximize, Strip,
  Workspace,
}
use prettymux.Strip.Camera.{zero_f, apply_camera, apply_column_widths}

module _ {F : Type 0} ⦃num : Double F⦄ where
  -- CLAMP(x, low, high) of GLib
  abbrev pub clamp_f : F → F → F → F
  clamp_f x low high = if num.lt high x then high else if num.lt x low then low else x

  -- STRIP_ANIM_EPSILON is 0.5.
  unfoldable pub exp_smooth_toward : F → F → F → F → F
  exp_smooth_toward current target lambda dt_sec =
      let delta = num.sub target current in
      let delta_abs = if num.lt delta zero_f then num.neg delta else delta in
      let factor = clamp_f (num.mul lambda dt_sec) zero_f (num.of_int (pos 1)) in
      if num.lt delta_abs (num.literal 5 1) then target else num.add current (num.mul delta factor)

  -- 1.0 / n
  abbrev pub inverse_f : ℕ → F
  inverse_f n = num.div (num.literal 1 0) (num.literal n 0)

  -- The rates of the camera and of the widths.
  unfoldable pub animation_rates : AnimProfile → F × F
  animation_rates anim_insert = (num.literal 85 1, num.literal 95 1)
  animation_rates anim_remove = (num.literal 120 1, num.literal 125 1)
  animation_rates anim_maximize = (num.literal 70 1, num.literal 65 1)
  animation_rates anim_default = (num.literal 105 1, num.literal 115 1)

  -- The widths of all columns after one frame, and whether one of them moved.
  abbrev pub step_widths : F → F → List (Column F) → List (Column F) × Bool
  step_widths width_lambda dt_sec [] = ([], false)
  step_widths width_lambda dt_sec (col ∷ cols) =
      let (rest, moved) = step_widths width_lambda dt_sec cols in
      let new_w =
        exp_smooth_toward col.current_width (num.of_int col.target_width) width_lambda dt_sec in
      if not (num.eq new_w col.current_width)
      then (record col { current_width = new_w } ∷ rest, true)
      else (col ∷ rest, moved)

module _ {F B : Type 0} ⦃num : Double F⦄ where
  -- The frame clock's time in microseconds, `none` for a NULL clock. STRIP_DEFAULT_DT_SEC is
  -- 1.0 / 60.0, STRIP_MIN_DT_SEC 1.0 / 240.0 and STRIP_MAX_DT_SEC 1.0 / 20.0.
  unfoldable pub tick_dt_sec : Option ℤ → Strip F B → Strip F B × F
  tick_dt_sec none state = (record state { last_tick_usec = pos 0 }, inverse_f 60)
  tick_dt_sec (some now) state =
      if leb_ℤ state.last_tick_usec (pos 0) || leb_ℤ now state.last_tick_usec
      then (record state { last_tick_usec = now }, inverse_f 60)
      else (
        record state { last_tick_usec = now },
        clamp_f (num.div (num.of_int (now -ℤ state.last_tick_usec)) (num.literal 1000000 0))
            (inverse_f 240) (inverse_f 20),
      )

  -- One frame from a given frame length on; true asks GTK for a further frame.
  abbrev pub tick_frame : F → Strip F B → Strip F B × Bool
  tick_frame dt_sec state =
      let (camera_lambda, width_lambda) = animation_rates state.anim_profile in
      let new_cam = exp_smooth_toward state.camera_x state.camera_target_x camera_lambda dt_sec in
      let cam_moved = not (num.eq new_cam state.camera_x) in
      let (cols, width_moved) = step_widths width_lambda dt_sec state.columns in
      let shown = apply_camera (
        apply_column_widths (record state {
          camera_x = if cam_moved then new_cam else state.camera_x;
          columns = cols;
        })) in
      if cam_moved || width_moved then (shown, true) else (
        record shown { tick_id = 0; last_tick_usec = pos 0; anim_profile = anim_default },
        false,
      )

  unfoldable pub tick_cb : Option ℤ → Workspace F B → Workspace F B × Bool
  tick_cb frame_time ws = elim ws.strip_state [
    | none ↦ (ws, false)
    | some state ↦
        let (timed, dt_sec) = tick_dt_sec frame_time state in
        let (state', more) = tick_frame dt_sec timed in
        (record ws { strip_state = some state' }, more)
  ]
