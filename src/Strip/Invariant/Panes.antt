-- ===== src/Strip/Invariant/Panes.antt =====
-- Splitting a column, taking a pane out of one, and a frame of the animation (gtk/workspace_strip.c)
-- keep the invariant of the strip.
use prettymux.Prelude.{
  ℕ, ◌-◌, ◌≤◌, ◌<◌, ◌≡◌, refl, sym, ◌==◌, Option, none, some, List, [], ◌∷◌, arith, All, length,
  length-insert_at, length-erase_at, inl, inr, Option-cases, Bool-cases, subst, min, set, get_elem?,
  All-get_elem?,
}
use prettymux.Prelude.Int.{ℤ, pos, negsuc, clamp_index, ◌+ℤ◌, ◌-ℤ◌}
use prettymux.Strip.Model.{Widget, null, Root, Double, Gtk, Column, Strip, Workspace}
use prettymux.Strip.Column.{column_focused_notebook}
use prettymux.Strip.Focus.{activate}
use prettymux.Strip.Columns.{remove_from_box, apply_layout}
use prettymux.Strip.Panes.{
  split_column, pane_place, pull_back, unsplit_column, show_root, replace_column,
  split_vertical_in_column, remove_pane_from_column,
}
use prettymux.Strip.Tick.{
  step_widths, tick_dt_sec, tick_frame, tick_cb, exp_smooth_toward, animation_rates,
}
use prettymux.Strip.Camera.{apply_camera, apply_column_widths}
use prettymux.Strip.Invariant.Kept.{
  IsIndex, ColumnOk, IsSound, WorkspaceOk, IsIndex-cong, set-IsSound, by_state, WorkspaceOk-of,
  resolve-focused, apply_layout-WorkspaceOk,
}
use prettymux.Strip.Invariant.Focus.{position_lt}

clamp_index_le : (i : ℤ) (n : ℕ) → clamp_index i n ≤ n
clamp_index_le (pos i) n = omega arith
clamp_index_le (negsuc i) n = omega arith

-- The index that is left over: the old one, or the last.
pub pull_back-min : (n i : ℕ) → 0 < n → pull_back n (pos i) ≡ pos (min i (n - 1))
unfolding ◌-ℤ◌
pull_back-min n i h = ground arith

pull_back-negsuc : (n i : ℕ) → pull_back n (negsuc i) ≡ pos 0
unfolding ◌-ℤ◌
pull_back-negsuc n i = ground arith

pull_back-IsIndex : (n : ℕ) (i : ℤ) → 0 < n → IsIndex (pull_back n i) n
pull_back-IsIndex n (pos i) h =
    subst (λ (j : ℤ). IsIndex j n) (sym (pull_back-min n i h)) (omega arith)
pull_back-IsIndex n (negsuc i) h =
    subst (λ (j : ℤ). IsIndex j n) (sym (pull_back-negsuc n i)) (omega arith)

module _ {F : Type 0} where
  pub split_column-ColumnOk :
      (nb : Widget) (c : Column F) → ColumnOk c → ColumnOk (split_column nb c)
  split_column-ColumnOk nb c ok = record {
    focused = omega (
      arith,
      clamp_index_le (c.focused_pane +ℤ pos 1) (length c.panes),
      length-insert_at c.panes (clamp_index (c.focused_pane +ℤ pos 1) (length c.panes)) nb,
    );
    exclusive = ok.exclusive;
    rooted = refl;
  }

  pub unsplit_column-ColumnOk :
      (i : ℕ) (c : Column F)
      → ColumnOk c
      → i < length c.panes
      → 1 < length c.panes
      → ColumnOk (unsplit_column i c)
  unsplit_column-ColumnOk i c ok lt many = record {
    focused = pull_back-IsIndex _ c.focused_pane (omega (arith, length-erase_at c.panes i lt));
    exclusive = ok.exclusive;
    rooted = refl;
  }

  pub pane_place_sound :
      (pane : Widget) (cols : List (Column F)) (k : ℕ) (c : Column F) (p : ℕ)
      → pane_place pane cols ≡ some (k, c, p)
      → (get_elem? cols k ≡ some c) × (1 < length c.panes) × (p < length c.panes)
  pane_place_sound pane cols k c p e =
      unfold pane_place in (ground arith, ground arith, position_lt pane c.panes p (ground arith))

module _ {F : Type 0} ⦃num : Double F⦄ where
  step_widths-ColumnOk :
      (r dt : F) (cols : List (Column F))
      → All ColumnOk cols
      → All ColumnOk (step_widths r dt cols).0
  step_widths-ColumnOk r dt [] h = tt
  step_widths-ColumnOk r dt (c ∷ cols) h =
      let rest = step_widths-ColumnOk r dt cols h.1 in
      let new_w = exp_smooth_toward c.current_width (num.of_int c.target_width) r dt in
      let moved : Column F = record c { current_width = new_w } in
      let ok : ColumnOk moved = record {
        focused = h.0.focused;
        exclusive = h.0.exclusive;
        rooted = h.0.rooted;
      } in
      elim (Bool-cases (num.eq new_w c.current_width)) [
        | inl e ↦
            subst (All ColumnOk) {x = c ∷ (step_widths r dt cols).0}
              {y = (step_widths r dt (c ∷ cols)).0} (ground arith) (h.0, rest)
        | inr e ↦
            subst (All ColumnOk) {x = moved ∷ (step_widths r dt cols).0}
              {y = (step_widths r dt (c ∷ cols)).0} (ground arith) (ok, rest)
      ]

  length-step_widths :
      (r dt : F) (cols : List (Column F)) → length (step_widths r dt cols).0 ≡ length cols
  length-step_widths r dt [] = refl
  length-step_widths r dt (c ∷ cols) = ground (arith, length-step_widths r dt cols)

module _ {F B : Type 0} ⦃num : Double F⦄ ⦃gtk : Gtk B⦄ where
  columns-remove_from_box :
      (r : Option Root) (s : Strip F B) → (remove_from_box r s).columns ≡ s.columns
  columns-remove_from_box none s = refl
  columns-remove_from_box (some r) s = ground arith

  focused_col-remove_from_box :
      (r : Option Root) (s : Strip F B) → (remove_from_box r s).focused_col ≡ s.focused_col
  focused_col-remove_from_box none s = refl
  focused_col-remove_from_box (some r) s = ground arith

  columns-show_root :
      (v : ℤ) (r : Option Root) (s : Strip F B) → (show_root v r s).columns ≡ s.columns
  columns-show_root v none s = refl
  columns-show_root v (some r) s = ground arith

  focused_col-show_root :
      (v : ℤ) (r : Option Root) (s : Strip F B) → (show_root v r s).focused_col ≡ s.focused_col
  focused_col-show_root v none s = refl
  focused_col-show_root v (some r) s = ground arith

  replace-IsSound :
      (i : ℕ) (c c' : Column F) (s : Strip F B)
      → IsSound s.columns s.focused_col
      → ColumnOk c'
      → IsSound (replace_column i c c' s).columns (replace_column i c c' s).focused_col
  replace-IsSound i c c' s h ok =
      let out = remove_from_box c.notebook s in
      let s' : Strip F B = record out { columns = set s.columns i c' } in
      rw
        (
          columns-show_root c'.target_width c'.notebook s',
          focused_col-show_root c'.target_width c'.notebook s',
        )
        (rw (focused_col-remove_from_box c.notebook s)
          (set-IsSound s.columns i c' s.focused_col h ok))

  pub split-WorkspaceOk :
      (ws : Workspace F B) (nb : Widget)
      → WorkspaceOk ws
      → WorkspaceOk (split_vertical_in_column ws nb).0
  split-WorkspaceOk ws nb =
      by_state ws (λ w. (split_vertical_in_column w nb).0)
        (λ w e. unfold split_vertical_in_column in ground arith)
        λ w s e h. elim (Bool-cases (nb == null)) [
          | inl n ↦
              WorkspaceOk-of (split_vertical_in_column w nb).0 s
                (unfold split_vertical_in_column in ground arith) h
          | inr n ↦
              let (k, c, at, resolved, found) = resolve-focused w s e h in
              let w' : Workspace F B = record w {
                strip_state = some (replace_column k c (split_column nb c) s);
              } in
              subst WorkspaceOk {x = apply_layout w'} {y = (split_vertical_in_column w nb).0}
                (unfold split_vertical_in_column in ground arith)
                (apply_layout-WorkspaceOk w' (
                  replace-IsSound k c (split_column nb c) s h
                    (split_column-ColumnOk nb c (All-get_elem? ColumnOk s.columns k h.0 found))))
        ]

  -- `remove_pane_from_column` at a pane that one column holds beside others.
  removed :
      (w : Workspace F B) (s : Strip F B) (k p : ℕ) (c : Column F)
      → w.strip_state ≡ some s
      → IsSound s.columns s.focused_col
      → get_elem? s.columns k ≡ some c
      → p < length c.panes
      → 1 < length c.panes
      → WorkspaceOk (
          apply_layout (
            activate
              (column_focused_notebook gtk.is_notebook (unsplit_column p c))
              (record w { strip_state = some (replace_column k c (unsplit_column p c) s) })))
  removed w s k p c e h found lt many =
      let s' = replace_column k c (unsplit_column p c) s in
      let w' : Workspace F B =
        activate (column_focused_notebook gtk.is_notebook (unsplit_column p c))
          (record w { strip_state = some s' }) in
      apply_layout-WorkspaceOk w' (
        WorkspaceOk-of w' s' (ground arith) (
          replace-IsSound k c (unsplit_column p c) s h
            (unsplit_column-ColumnOk p c (All-get_elem? ColumnOk s.columns k h.0 found) lt many)))

  pub remove_pane-WorkspaceOk :
      (ws : Workspace F B) (pane : Widget)
      → WorkspaceOk ws
      → WorkspaceOk (remove_pane_from_column ws pane).0
  remove_pane-WorkspaceOk ws pane =
      by_state ws (λ w. (remove_pane_from_column w pane).0)
        (λ w e. unfold remove_pane_from_column in ground arith)
        λ w s e h. elim (Bool-cases (pane == null)) [
          | inl n ↦
              WorkspaceOk-of (remove_pane_from_column w pane).0 s
                (unfold remove_pane_from_column in ground arith) h
          | inr n ↦ elim (Option-cases (pane_place pane s.columns)) [
            | inl absent ↦
                WorkspaceOk-of (remove_pane_from_column w pane).0 s
                  (unfold remove_pane_from_column in ground arith) h
            | inr ((k, c, p), place) ↦
                let at = pane_place_sound pane s.columns k c p place in
                subst WorkspaceOk
                  {x = apply_layout (
                    activate (column_focused_notebook gtk.is_notebook (unsplit_column p c))
                      (record w {
                        strip_state = some (replace_column k c (unsplit_column p c) s);
                      }))}
                  {y = (remove_pane_from_column w pane).0}
                  (unfold remove_pane_from_column in ground arith)
                  (removed w s k p c e h at.0 at.2 at.1)
          ]
        ]

  timed-IsSound :
      (frame_time : Option ℤ) (s : Strip F B)
      → IsSound s.columns s.focused_col
      → IsSound (tick_dt_sec frame_time s).0.columns (tick_dt_sec frame_time s).0.focused_col
  timed-IsSound frame_time s h =
      subst (λ (r : List (Column F) × ℤ). IsSound r.0 r.1) {x = (s.columns, s.focused_col)}
        {y = ((tick_dt_sec frame_time s).0.columns, (tick_dt_sec frame_time s).0.focused_col)}
        (unfold tick_dt_sec in ground arith) h

  frame-IsSound :
      (dt : F) (s : Strip F B)
      → IsSound s.columns s.focused_col
      → IsSound (tick_frame dt s).0.columns (tick_frame dt s).0.focused_col
  frame-IsSound dt s h =
      let (camera, width) = animation_rates s.anim_profile in
      subst (λ (r : List (Column F) × ℤ). IsSound r.0 r.1)
        {x = ((step_widths width dt s.columns).0, s.focused_col)}
        {y = ((tick_frame dt s).0.columns, (tick_frame dt s).0.focused_col)}
        (unfold apply_camera apply_column_widths in ground arith)
        (
          step_widths-ColumnOk width dt s.columns h.0,
          IsIndex-cong s.focused_col _ _ (sym (length-step_widths width dt s.columns)) h.1,
        )

  pub tick-WorkspaceOk :
      (frame_time : Option ℤ) (ws : Workspace F B)
      → WorkspaceOk ws
      → WorkspaceOk (tick_cb frame_time ws).0
  tick-WorkspaceOk frame_time ws =
      by_state ws (λ w. (tick_cb frame_time w).0) (λ w e. unfold tick_cb in ground arith)
        λ w s e h.
          let (timed, dt) = tick_dt_sec frame_time s in
          WorkspaceOk-of (tick_cb frame_time w).0 (tick_frame dt timed).0
            (unfold tick_cb in ground arith) (frame-IsSound dt timed (timed-IsSound frame_time s h))
