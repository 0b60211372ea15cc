-- ===== src/Strip/Invariant/Columns.antt =====
-- Columns that come, go and change their width (gtk/workspace_strip.c) keep the invariant of the strip.
use prettymux.Prelude.{
  ℕ, ◌-◌, ◌≤◌, ◌<◌, refl, ◌==◌, Option, some, List, [], ◌∷◌, ◌++◌, arith, length, length-append,
  length-insert_at, length-erase_at, All-append, All-insert_at, All-erase_at, inl, inr,
  Option-cases, Bool-cases, subst, leb, insert_at, erase_at, set, if◌then◌else◌, lt_of_get_elem?,
}
use prettymux.Prelude.Int.{ℤ, pos, negsuc, index?, pos_part}
use prettymux.Strip.Model.{
  Widget, null, Root, leaf, anim_maximize, Double, Gtk, Column, Strip, Workspace,
}
use prettymux.Strip.Column.{resolve_focused_col, rebuild_column_paned_chain}
use prettymux.Strip.Camera.{
  pan_to_focused_column, ensure_tick_running, default_col_width, viewport_width,
}
use prettymux.Strip.Focus.{focus_column, activate}
use prettymux.Strip.Columns.{
  new_column, in_box, size_call, init, create_root, add_notebook_column, insert_point, insert_state,
  insert_column_after_active, settle_after_remove, remove_state, focused_notebook,
  remove_active_column, toggle_state, toggle_maximized, toggle_half_maximized,
  toggle_maximize_column, toggle_half_maximize_column, apply_layout, width_or_target,
  settled_column,
}
use prettymux.Strip.Invariant.Kept.{
  IsIndex, ColumnOk, IsSound, WorkspaceOk, set-IsSound, index?-ColumnOk, by_state, WorkspaceOk-of,
  resolve-focused, apply_layout-WorkspaceOk,
}
use prettymux.Strip.Invariant.Focus.{pan-IsSound, focus_column-WorkspaceOk}

module _ {F : Type 0} ⦃num : Double F⦄ where
  new_column-ColumnOk : (nb : Widget) (w : F) → ColumnOk (new_column nb w)
  unfolding rebuild_column_paned_chain
  new_column-ColumnOk nb w = record { focused = omega arith; exclusive = refl; rooted = refl }

module _ {F : Type 0} where
  toggle_maximized-ColumnOk : (v : ℤ) (c : Column F) → ColumnOk c → ColumnOk (toggle_maximized v c)
  toggle_maximized-ColumnOk v c ok = record {
    focused = ok.focused;
    exclusive = ground arith;
    rooted = ok.rooted;
  }

  toggle_half-ColumnOk : (v : ℤ) (c : Column F) → ColumnOk c → ColumnOk (toggle_half_maximized v c)
  toggle_half-ColumnOk v c ok = record {
    focused = ok.focused;
    exclusive = ground arith;
    rooted = ok.rooted;
  }

-- An index stays one when there are more elements.
IsIndex-le : (i : ℤ) (m n : ℕ) → m ≤ n → IsIndex i m → IsIndex i n
IsIndex-le (pos k) m n le h = omega arith
IsIndex-le (negsuc k) m n le h = h

-- The index that gets the focus after the removal of index `k` leaves `n` columns.
focus_after : (n k : ℕ) → 0 < n → IsIndex (if leb n k then pos (n - 1) else pos k) n
focus_after n k h = elim (Bool-cases (leb n k)) [
  | inl e ↦ rw e (omega arith)
  | inr e ↦ rw e (ground arith)
]

module _ {F B : Type 0} ⦃num : Double F⦄ ⦃gtk : Gtk B⦄ where
  -- What happens in the box shows in no column.
  in_box-IsSound :
      (f : B → B) (s : Strip F B)
      → IsSound s.columns s.focused_col
      → IsSound (in_box f s).columns (in_box f s).focused_col
  in_box-IsSound f s h = elim (Option-cases s.column_box) [
    | inl e ↦
        subst (λ (t : Strip F B). IsSound t.columns t.focused_col) {x = s} {y = in_box f s}
          (ground arith) h
    | inr (b, e) ↦
        subst (λ (t : Strip F B). IsSound t.columns t.focused_col)
          {x = record s { column_box = some (f b) }} {y = in_box f s} (ground arith) h
  ]

  ensure-IsSound :
      (s : Strip F B)
      → IsSound s.columns s.focused_col
      → IsSound (ensure_tick_running s).columns (ensure_tick_running s).focused_col
  ensure-IsSound s h =
      subst (λ (r : List (Column F) × ℤ). IsSound r.0 r.1) {x = (s.columns, s.focused_col)}
        {y = ((ensure_tick_running s).columns, (ensure_tick_running s).focused_col)}
        (unfold ensure_tick_running in ground arith) h

  insert-IsSound :
      (i : ℕ) (after : Option Root) (nb : Widget) (s : Strip F B)
      → IsSound s.columns s.focused_col
      → IsSound (insert_state i after nb s).columns (insert_state i after nb s).focused_col
  insert-IsSound i after nb s h =
      in_box-IsSound _
        (size_call nb (record s { columns = insert_at s.columns i _; anim_profile = _ }))
        (
          All-insert_at ColumnOk s.columns i _ h.0 (new_column-ColumnOk nb _),
          IsIndex-le s.focused_col _ _
              (omega (arith, length-insert_at s.columns i (new_column nb (num.of_int (pos 180)))))
              h.1,
        )

  pub insert-WorkspaceOk :
      (ws : Workspace F B) (nb : Widget)
      → WorkspaceOk ws
      → WorkspaceOk (insert_column_after_active ws nb).0
  insert-WorkspaceOk ws nb =
      by_state ws (λ w. (insert_column_after_active w nb).0)
        (λ w e. unfold insert_column_after_active in ground arith)
        λ w s e h. elim (Bool-cases (nb == null)) [
          | inl n ↦
              WorkspaceOk-of (insert_column_after_active w nb).0 s
                (unfold insert_column_after_active in ground arith) h
          | inr n ↦
              let (i, after) = insert_point (resolve_focused_col w) s in
              let w' : Workspace F B = record w {
                strip_state = some (insert_state i after nb s);
              } in
              subst WorkspaceOk {x = apply_layout (focus_column w' (pos i))}
                {y = (insert_column_after_active w nb).0}
                (unfold insert_column_after_active in ground arith)
                (apply_layout-WorkspaceOk _
                  (focus_column-WorkspaceOk w' (pos i) (insert-IsSound i after nb s h)))
        ]

  pub add-WorkspaceOk :
      (ws : Workspace F B) (nb : Widget) → WorkspaceOk ws → WorkspaceOk (add_notebook_column ws nb)
  unfolding add_notebook_column
  add-WorkspaceOk ws nb =
      by_state ws (λ w. add_notebook_column w nb) (λ w e. ground arith)
        λ w s e h. elim (Bool-cases (nb == null)) [
          | inl n ↦ WorkspaceOk-of (add_notebook_column w nb) s (ground arith) h
          | inr n ↦
              let col = new_column nb (num.of_int default_col_width) in
              let s' = size_call nb (record s { columns = s.columns ++ col ∷ [] }) in
              WorkspaceOk-of (add_notebook_column w nb)
                (in_box (λ box. gtk.append box (leaf nb)) s') (ground arith)
                (in_box-IsSound _ s' (
                  All-append ColumnOk s.columns (col ∷ []) h.0 (new_column-ColumnOk nb _, tt),
                  IsIndex-le s.focused_col _ _ (omega (arith, length-append s.columns (col ∷ [])))
                      h.1,
                ))
        ]

  -- The first column of a new strip.
  pub create_root-WorkspaceOk :
      (ws : Workspace F B) (nb : Widget) (allocated : ℤ) → WorkspaceOk (create_root ws nb allocated)
  unfolding create_root init
  create_root-WorkspaceOk ws nb allocated =
      apply_layout-WorkspaceOk _ ((new_column-ColumnOk nb _, tt), omega arith)

  settle-IsSound :
      (i : ℤ) (removed : F) (s : Strip F B)
      → IsSound s.columns s.focused_col
      → IsSound
          (settle_after_remove i removed s).columns
          (settle_after_remove i removed s).focused_col
  settle-IsSound i removed s h = elim (Option-cases (index? s.columns i)) [
    | inl out ↦
        subst (λ (t : Strip F B). IsSound t.columns t.focused_col) {x = s}
          {y = settle_after_remove i removed s} (unfold settle_after_remove in ground arith) h
    | inr (c, found) ↦
        let ok = index?-ColumnOk s.columns i h.0 found in
        subst (λ (t : Strip F B). IsSound t.columns t.focused_col)
          {x = record s { columns = set s.columns (pos_part i) (settled_column removed c) }}
          {y = settle_after_remove i removed s} (unfold settle_after_remove in ground arith)
          (set-IsSound s.columns (pos_part i) (settled_column removed c) s.focused_col h
            (record { focused = ok.focused; exclusive = ok.exclusive; rooted = ok.rooted }))
  ]

  remove-IsSound :
      (k : ℕ) (col : Column F) (s : Strip F B)
      → IsSound s.columns s.focused_col
      → k < length s.columns
      → 1 < length s.columns
      → IsSound (remove_state k col s).columns (remove_state k col s).focused_col
  remove-IsSound k col s h lt many = settle-IsSound _ (width_or_target col) _ (
    All-erase_at ColumnOk s.columns k h.0,
    focus_after (length (erase_at s.columns k)) k (omega (arith, length-erase_at s.columns k lt)),
  )

  pub remove-WorkspaceOk :
      (ws : Workspace F B) → WorkspaceOk ws → WorkspaceOk (remove_active_column ws).0
  remove-WorkspaceOk ws =
      by_state ws (λ w. (remove_active_column w).0)
        (λ w e. unfold remove_active_column in ground arith)
        λ w s e h. elim (Bool-cases (leb (length s.columns) 1)) [
          | inl last ↦
              WorkspaceOk-of (remove_active_column w).0 s
                (unfold remove_active_column in ground arith) h
          | inr many ↦
              let (k, c, at, resolved, found) = resolve-focused w s e h in
              let s' = remove_state k c s in
              let w' : Workspace F B =
                activate (focused_notebook s') (record w { strip_state = some s' }) in
              let ok = remove-IsSound k c s h (lt_of_get_elem? s.columns k found) (ground arith) in
              subst WorkspaceOk {x = apply_layout w'} {y = (remove_active_column w).0}
                (unfold remove_active_column in ground arith)
                (apply_layout-WorkspaceOk w' (WorkspaceOk-of w' s' (ground arith) ok))
        ]

  toggle_state-IsSound :
      (f : ℤ → Column F → Column F) (s : Strip F B)
      → ((v : ℤ) (c : Column F) → ColumnOk c → ColumnOk (f v c))
      → IsSound s.columns s.focused_col
      → IsSound (toggle_state f s).columns (toggle_state f s).focused_col
  toggle_state-IsSound f s keep h = elim (Option-cases (index? s.columns s.focused_col)) [
    | inl out ↦
        subst (λ (t : Strip F B). IsSound t.columns t.focused_col) {x = s} {y = toggle_state f s}
          (ground arith) h
    | inr (c, found) ↦
        let s' : Strip F B = record s {
          columns = set s.columns (pos_part s.focused_col) (f (viewport_width s) c);
          anim_profile = anim_maximize;
        } in
        subst (λ (t : Strip F B). IsSound t.columns t.focused_col)
          {x = ensure_tick_running (pan_to_focused_column s')} {y = toggle_state f s} (ground arith)
          (ensure-IsSound (pan_to_focused_column s') (
            pan-IsSound s' (
              set-IsSound s.columns (pos_part s.focused_col) (f (viewport_width s) c) s.focused_col
                h (keep _ c (index?-ColumnOk s.columns s.focused_col h.0 found)))))
  ]

  pub toggle_maximize-WorkspaceOk :
      (ws : Workspace F B) → WorkspaceOk ws → WorkspaceOk (toggle_maximize_column ws)
  toggle_maximize-WorkspaceOk ws =
      by_state ws toggle_maximize_column (λ w e. unfold toggle_maximize_column in ground arith)
        λ w s e h.
          WorkspaceOk-of (toggle_maximize_column w) (toggle_state toggle_maximized s)
            (unfold toggle_maximize_column in ground arith)
            (toggle_state-IsSound toggle_maximized s toggle_maximized-ColumnOk h)

  pub toggle_half-WorkspaceOk :
      (ws : Workspace F B) → WorkspaceOk ws → WorkspaceOk (toggle_half_maximize_column ws)
  toggle_half-WorkspaceOk ws =
      by_state ws toggle_half_maximize_column
        (λ w e. unfold toggle_half_maximize_column in ground arith)
        λ w s e h.
          WorkspaceOk-of (toggle_half_maximize_column w) (toggle_state toggle_half_maximized s)
            (unfold toggle_half_maximize_column in ground arith)
            (toggle_state-IsSound toggle_half_maximized s toggle_half-ColumnOk h)
