-- ===== src/Strip/Camera.antt =====
-- The camera over the strip (gtk/workspace_strip.c): its target, its bounds and the tick callback
-- that is started to move it.
use prettymux.Prelude.{
  Bool, true, false, not, ◌||◌, none, some, List, [], ◌∷◌, ◌++◌, ◌==◌, if◌then◌else◌, take,
}
use prettymux.Prelude.Int.{ℤ, pos, index?, leb_ℤ, pos_part}
use prettymux.Strip.Model.{Double, Gtk, Column, Strip, Workspace, Call, set_value, set_size_request}

-- STRIP_DEFAULT_COL_WIDTH
abbrev pub default_col_width : ℤ
default_col_width = pos 600

module _ {F : Type 0} ⦃num : Double F⦄ where
  abbrev pub zero_f : F
  zero_f = num.of_int (pos 0)

  -- the loop that sums the target widths from the left
  abbrev pub sum_widths : F → List (Column F) → F
  sum_widths total [] = total
  sum_widths total (col ∷ cols) = sum_widths (num.add total (num.of_int col.target_width)) cols

  abbrev pub clamp_target : F → F → F
  clamp_target limit t =
      let t' = if num.lt t zero_f then zero_f else t in if num.lt limit t' then limit else t'

  -- the size request of `apply_column_widths` for one column
  abbrev pub width_call : Column F → List (Call F)
  width_call col = elim col.notebook [
    | none ↦ []
    | some r ↦ set_size_request r (num.to_int (num.add col.current_width (num.literal 5 1))) ∷ []
  ]

  abbrev pub width_calls : List (Column F) → List (Call F)
  width_calls [] = []
  width_calls (col ∷ cols) = width_call col ++ width_calls cols

module _ {F : Type 0} where
  abbrev pub has_columns : List (Column F) → Bool
  has_columns [] = false
  has_columns (col ∷ cols) = true

module _ {F B : Type 0} where
  abbrev pub viewport_width : Strip F B → ℤ
  viewport_width state =
      let w = if state.scroll_container then state.allocated_width else pos 0 in
      if leb_ℤ w (pos 0) then default_col_width else w

  -- `ws->strip_state = f(ws->strip_state)`
  abbrev pub with_state : Workspace F B → (Strip F B → Strip F B) → Workspace F B
  with_state ws f = elim ws.strip_state [
    | none ↦ ws
    | some state ↦ record ws { strip_state = some (f state) }
  ]

module _ {F B : Type 0} ⦃gtk : Gtk B⦄ where
  unfoldable pub ensure_tick_running : Strip F B → Strip F B
  ensure_tick_running state =
      if not (state.tick_id == 0) || not state.scroll_container
      then state
      else record state { last_tick_usec = pos 0; tick_id = gtk.new_tick_id }

module _ {F B : Type 0} ⦃num : Double F⦄ where
  unfoldable pub apply_camera : Strip F B → Strip F B
  apply_camera state =
      if state.scroll_container
      then record state { calls = state.calls ++ set_value state.camera_x ∷ [] }
      else state

  unfoldable pub apply_column_widths : Strip F B → Strip F B
  apply_column_widths state = record state { calls = state.calls ++ width_calls state.columns }

  -- `max_scroll`
  abbrev pub max_scroll : Strip F B → ℤ → F
  max_scroll state viewport =
      let room = num.sub (sum_widths zero_f state.columns) (num.of_int viewport) in
      if num.lt room zero_f then zero_f else room

  unfoldable pub clamp_camera : ℤ → Strip F B → Strip F B
  clamp_camera viewport state =
      if has_columns state.columns
      then record state {
        camera_target_x = clamp_target (max_scroll state viewport) state.camera_target_x;
      }
      else state

module _ {F B : Type 0} ⦃num : Double F⦄ ⦃gtk : Gtk B⦄ where
  -- the centre of the focused column, less half of the viewport
  abbrev pub centered_target : Strip F B → Column F → F
  centered_target state focused =
      let col_left = sum_widths zero_f (take (pos_part state.focused_col) state.columns) in
      let col_center =
        num.add col_left (num.div (num.of_int focused.target_width) (num.literal 2 0)) in
      num.sub col_center (num.div (num.of_int (viewport_width state)) (num.literal 2 0))

  unfoldable pub pan_to_focused_column : Strip F B → Strip F B
  pan_to_focused_column state = elim (index? state.columns state.focused_col) [
    | none ↦ state
    | some focused ↦ ensure_tick_running (
        clamp_camera (viewport_width state)
          (record state { camera_target_x = centered_target state focused }))
  ]

  unfoldable pub pan_by : F → Strip F B → Strip F B
  pan_by dx state =
      if num.eq dx zero_f
      then state
      else (let moved =
            clamp_camera (viewport_width state)
              (record state { camera_target_x = num.add state.camera_target_x dx }) in
          apply_camera (record moved { camera_x = moved.camera_target_x }))
