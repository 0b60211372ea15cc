-- ===== src/Strip/Invariant/Focus.antt =====
-- Moving the focus (gtk/workspace_strip.c, gtk/workspace.c) keeps the invariant of the strip.
use prettymux.Prelude.{
  ℕ, suc, ◌+◌, ◌<◌, ◌≡◌, refl, Bool, false, not, ◌&&◌, ◌==◌, some, List, [], ◌∷◌, arith, All,
  length, inl, inr, Option-cases, Bool-cases, zero, subst, ap, set, ◌++◌, ◌⊎◌,
}
use prettymux.Prelude.Int.{ℤ, pos, negsuc, index?, pos_part, ltb_ℤ, leb_ℤ, ◌-ℤ◌, ◌+ℤ◌}
use prettymux.Strip.Model.{
  Widget, null, Double, Gtk, Column, Strip, Call, focus_terminal, Workspace,
}
use prettymux.Strip.Column.{position, is_leaf, is_found}
use prettymux.Strip.Camera.{pan_to_focused_column}
use prettymux.Strip.Focus.{
  focus_column, on_focus_enter, set_active_pane, focus_pane, focus_pane_up, focus_pane_down,
  is_strip, add_calls, focus_target, stacked_column, entered_column, focus_pane_of,
  focus_in_columns,
}
use prettymux.Strip.Invariant.Kept.{
  IsIndex, ColumnOk, IsSound, WorkspaceOk, IsIndex-cong, set-IsSound, index?-IsIndex,
  index?-ColumnOk, by_state, WorkspaceOk-of, columns-pan, focused_col-pan,
}

module _ {F B : Type 0} ⦃num : Double F⦄ ⦃gtk : Gtk B⦄ where
  pub pan-IsSound :
      (s : Strip F B)
      → IsSound s.columns s.focused_col
      → IsSound (pan_to_focused_column s).columns (pan_to_focused_column s).focused_col
  pan-IsSound s h = rw (columns-pan, focused_col-pan) h

  pub focus_column-WorkspaceOk :
      (ws : Workspace F B) (i : ℤ) → WorkspaceOk ws → WorkspaceOk (focus_column ws i)
  unfolding focus_column
  focus_column-WorkspaceOk ws i =
      by_state ws (λ w. focus_column w i) (λ w e. ground arith)
        λ w s e h. elim (Option-cases (index? s.columns i)) [
          | inl out ↦ WorkspaceOk-of (focus_column w i) s (ground arith) h
          | inr (c, found) ↦
              WorkspaceOk-of (focus_column w i)
                (pan_to_focused_column (record s { focused_col = i })) (ground arith)
                (pan-IsSound (record s { focused_col = i }) (h.0, index?-IsIndex s.columns i found))
        ]

up-IsIndex :
    (i : ℤ) (n : ℕ) → IsIndex i n → ltb_ℤ (i -ℤ pos 1) (pos 0) ≡ false → IsIndex (i -ℤ pos 1) n
up-IsIndex (pos i) n h t = unfold ◌-ℤ◌ in ground arith
up-IsIndex (negsuc i) n h t = absurd h

down-IsIndex :
    (i : ℤ) (n : ℕ) → IsIndex i n → leb_ℤ (pos n) (i +ℤ pos 1) ≡ false → IsIndex (i +ℤ pos 1) n
down-IsIndex (pos i) n h t = unfold ◌+ℤ◌ in ground arith
down-IsIndex (negsuc i) n h t = absurd h

pub position_lt : (w : Widget) (xs : List Widget) (i : ℕ) → position w xs ≡ some i → i < length xs
position_lt w [] i e = cc
position_lt w (x ∷ xs) zero e = omega arith
position_lt w (x ∷ xs) (suc i) e = ground (arith, position_lt w xs i)

module _ {F : Type 0} where
  focus_pane_of-ColumnOk :
      (col : Column F) (i : ℕ)
      → i < length col.panes
      → ColumnOk col
      → ColumnOk (focus_pane_of col i)
  focus_pane_of-ColumnOk col i lt ok = record {
    focused = lt;
    exclusive = ok.exclusive;
    rooted = ok.rooted;
  }

  pub entered_column-ColumnOk :
      (w : Widget) (i : ℕ) (cols : List (Column F)) (j : ℕ) (c : Column F)
      → All ColumnOk cols
      → entered_column w i cols ≡ some (j, c)
      → ColumnOk c
  entered_column-ColumnOk w i [] j c h e = cc
  entered_column-ColumnOk w i (col ∷ cols) j c h e = elim (Option-cases (position w col.panes)) [
    | inr (p, at) ↦
        subst ColumnOk (ground arith)
          (focus_pane_of-ColumnOk col p (position_lt w col.panes p at) h.0)
    | inl no_pane ↦ elim (Bool-cases (is_leaf w col.notebook)) [
      | inl here ↦ subst ColumnOk (ground arith) h.0
      | inr there ↦ entered_column-ColumnOk w (suc i) cols j c h.1 (ground arith)
    ]
  ]

  -- The columns and the focused index that the double loop of `workspace_set_active_pane` leaves.
  abbrev pub FocusedOk : ℕ → ℕ → List (Column F) × ℤ → Type 0
  FocusedOk ci n (cols, focused) = All ColumnOk cols × (length cols ≡ n) × IsIndex focused (ci + n)

  pub focus_in_columns-FocusedOk :
      (w : Widget) (ci : ℕ) (cols : List (Column F)) (focused : ℤ)
      → All ColumnOk cols
      → IsIndex focused (ci + length cols)
      → FocusedOk ci (length cols) (focus_in_columns w ci cols focused)
  focus_in_columns-FocusedOk w ci [] focused h i = (tt, refl, i)
  focus_in_columns-FocusedOk w ci (col ∷ cols) focused h i =
      elim (Option-cases (position w col.panes)) [
        | inl no_pane ↦
            let r =
              focus_in_columns-FocusedOk w (suc ci) cols focused h.1
                (IsIndex-cong focused _ _ (omega arith) i) in
            let (rest, last) = focus_in_columns w (suc ci) cols focused in
            subst (FocusedOk ci (suc (length cols))) {x = (col ∷ rest, last)} (ground arith)
              ((h.0, r.0), ap suc r.1, IsIndex-cong last _ _ (omega arith) r.2)
        | inr (p, at) ↦
            let r = focus_in_columns-FocusedOk w (suc ci) cols (pos ci) h.1 (omega arith) in
            let (rest, last) = focus_in_columns w (suc ci) cols (pos ci) in
            subst (FocusedOk ci (suc (length cols))) {x = (focus_pane_of col p ∷ rest, last)}
              (ground arith)
              (
                (focus_pane_of-ColumnOk col p (position_lt w col.panes p at) h.0, r.0),
                ap suc r.1,
                IsIndex-cong last _ _ (omega arith) r.2,
              )
      ]

module _ {F B : Type 0} ⦃gtk : Gtk B⦄ where
  -- Does `set_active_pane` search the columns?
  abbrev changes : Workspace F B → Widget → Bool
  changes w nb =
      not (nb == null)
      && gtk.is_notebook nb
      && is_found (position nb w.pane_notebooks)
      && is_strip w.layout_mode

  pub set_active_pane-WorkspaceOk :
      (ws : Workspace F B) (nb : Widget) → WorkspaceOk ws → WorkspaceOk (set_active_pane ws nb)
  unfolding set_active_pane
  set_active_pane-WorkspaceOk ws nb =
      by_state ws (λ w. set_active_pane w nb) (λ w e. ground arith)
        λ w s e h.
          let (cols, last) = focus_in_columns nb 0 s.columns s.focused_col in
          let r =
            focus_in_columns-FocusedOk nb 0 s.columns s.focused_col h.0
              (IsIndex-cong s.focused_col _ _ (omega arith) h.1) in
          elim (Bool-cases (changes w nb)) [
            | inl moved ↦
                WorkspaceOk-of (set_active_pane w nb)
                  (record s { columns = cols; focused_col = last }) (ground arith)
                  (r.0, IsIndex-cong last _ _ (omega arith) r.2)
            | inr still ↦ WorkspaceOk-of (set_active_pane w nb) s (ground arith) h
          ]

  add_calls-WorkspaceOk :
      (cs : List (Call F)) (ws : Workspace F B) → WorkspaceOk ws → WorkspaceOk (add_calls cs ws)
  add_calls-WorkspaceOk cs ws =
      by_state ws (add_calls cs) (λ w e. ground arith)
        λ w s e h.
          WorkspaceOk-of (add_calls cs w) (record s { calls = s.calls ++ cs }) (ground arith) h

  -- What `focus_pane` returns: nothing moved, or the pane was made active, and its terminal was focused
  -- if it has one.
  focus_pane-cases :
      (ws : Workspace F B) (nb : Widget)
      → ((focus_pane ws nb).0 ≡ ws)
        ⊎ ((focus_pane ws nb).0 ≡ set_active_pane ws nb)
        ⊎ ((focus_pane ws nb).0 ≡ add_calls (focus_terminal nb ∷ []) (set_active_pane ws nb))
  focus_pane-cases ws nb =
      unfold focus_pane in
      elim (Bool-cases (not (not (nb == null) && gtk.is_notebook nb))) [
        | inl bad ↦ inl (rw bad)
        | inr good ↦ elim (Option-cases (position nb ws.pane_notebooks)) [
          | inl absent ↦ inl (rw (good, absent))
          | inr (i, found) ↦ elim (Bool-cases (gtk.has_current_terminal nb)) [
            | inl t ↦ inr (inr (rw (good, found, t)))
            | inr f ↦ inr (inl (rw (good, found, f)))
          ]
        ]
      ]

  pub focus_pane-WorkspaceOk :
      (ws : Workspace F B) (nb : Widget) → WorkspaceOk ws → WorkspaceOk (focus_pane ws nb).0
  focus_pane-WorkspaceOk ws nb h = elim (focus_pane-cases ws nb) [
    | inl e ↦ rw e h
    | inr (inl e) ↦ rw e (set_active_pane-WorkspaceOk ws nb h)
    | inr (inr e) ↦
        rw e
          (add_calls-WorkspaceOk (focus_terminal nb ∷ []) _ (set_active_pane-WorkspaceOk ws nb h))
  ]

module _ {F B : Type 0} ⦃num : Double F⦄ ⦃gtk : Gtk B⦄ where
  -- The workspace in which `focus_target` has written the index.
  abbrev written : Workspace F B → Strip F B → Column F → ℤ → Workspace F B
  written ws s col target = record ws {
    strip_state = some (record s {
      columns = set s.columns (pos_part s.focused_col) (record col { focused_pane = target });
    });
  }

  focus_target-WorkspaceOk :
      (ws : Workspace F B) (s : Strip F B) (col : Column F) (target : ℤ)
      → IsSound s.columns s.focused_col
      → ColumnOk col
      → IsIndex target (length col.panes)
      → WorkspaceOk (focus_target ws s col target).0
  focus_target-WorkspaceOk ws s col target h ok i =
      let w = written ws s col target in
      let kept : WorkspaceOk w =
        set-IsSound s.columns (pos_part s.focused_col) (record col { focused_pane = target })
          s.focused_col h (record { focused = i; exclusive = ok.exclusive; rooted = ok.rooted }) in
      elim (Option-cases (index? col.panes target)) [
        | inl out ↦
            subst WorkspaceOk {x = w} {y = (focus_target ws s col target).0} (ground arith) kept
        | inr (nb, found) ↦ elim (Bool-cases (not (nb == null) && gtk.is_notebook nb)) [
          | inl is_nb ↦
              subst WorkspaceOk {x = (focus_pane (record w { active_pane = nb }) nb).0}
                {y = (focus_target ws s col target).0} (ground arith)
                (focus_pane-WorkspaceOk (record w { active_pane = nb }) nb kept)
          | inr no_nb ↦
              subst WorkspaceOk {x = w} {y = (focus_target ws s col target).0} (ground arith) kept
        ]
      ]

  -- The column that moving up and down looks at.
  stacked_column-ColumnOk :
      (s : Strip F B) (col : Column F)
      → IsSound s.columns s.focused_col
      → stacked_column s ≡ some col
      → ColumnOk col
  stacked_column-ColumnOk s col h e = elim (Option-cases (index? s.columns s.focused_col)) [
    | inl out ↦ absurd (ground arith)
    | inr (c, found) ↦
        subst ColumnOk {x = c} (ground arith) (index?-ColumnOk s.columns s.focused_col h.0 found)
  ]

  pub focus_pane_up-WorkspaceOk :
      (ws : Workspace F B) → WorkspaceOk ws → WorkspaceOk (focus_pane_up ws).0
  unfolding focus_pane_up
  focus_pane_up-WorkspaceOk ws =
      by_state ws (λ w. (focus_pane_up w).0) (λ w e. ground arith)
        λ w s e h. elim (Option-cases (stacked_column s)) [
          | inl single ↦ WorkspaceOk-of (focus_pane_up w).0 s (ground arith) h
          | inr (col, stacked) ↦ elim (Bool-cases (ltb_ℤ (col.focused_pane -ℤ pos 1) (pos 0))) [
            | inl top ↦ WorkspaceOk-of (focus_pane_up w).0 s (ground arith) h
            | inr above ↦
                let ok = stacked_column-ColumnOk s col h stacked in
                subst WorkspaceOk {x = (focus_target w s col (col.focused_pane -ℤ pos 1)).0}
                  {y = (focus_pane_up w).0} (ground arith)
                  (focus_target-WorkspaceOk w s col _ h ok
                    (up-IsIndex col.focused_pane _ ok.focused above))
          ]
        ]

  pub focus_pane_down-WorkspaceOk :
      (ws : Workspace F B) → WorkspaceOk ws → WorkspaceOk (focus_pane_down ws).0
  unfolding focus_pane_down
  focus_pane_down-WorkspaceOk ws =
      by_state ws (λ w. (focus_pane_down w).0) (λ w e. ground arith)
        λ w s e h. elim (Option-cases (stacked_column s)) [
          | inl single ↦ WorkspaceOk-of (focus_pane_down w).0 s (ground arith) h
          | inr (col, stacked) ↦
              elim (Bool-cases (leb_ℤ (pos (length col.panes)) (col.focused_pane +ℤ pos 1))) [
                | inl bottom ↦ WorkspaceOk-of (focus_pane_down w).0 s (ground arith) h
                | inr below ↦
                    let ok = stacked_column-ColumnOk s col h stacked in
                    subst WorkspaceOk {x = (focus_target w s col (col.focused_pane +ℤ pos 1)).0}
                      {y = (focus_pane_down w).0} (ground arith)
                      (focus_target-WorkspaceOk w s col _ h ok
                        (down-IsIndex col.focused_pane _ ok.focused below))
              ]
        ]

  pub on_focus_enter-WorkspaceOk :
      (ws : Workspace F B) (nb : Widget) → WorkspaceOk ws → WorkspaceOk (on_focus_enter ws nb)
  on_focus_enter-WorkspaceOk ws nb =
      by_state ws (λ w. on_focus_enter w nb) (λ w e. unfold on_focus_enter in ground arith)
        λ w s e h. elim (Option-cases (entered_column nb 0 s.columns)) [
          | inl absent ↦
              WorkspaceOk-of (on_focus_enter w nb) s (unfold on_focus_enter in ground arith) h
          | inr ((j, c), found) ↦
              subst WorkspaceOk
                {x = focus_column
                  (record w { strip_state = some (record s { columns = set s.columns j c }) })
                  (pos j)}
                {y = on_focus_enter w nb} (unfold on_focus_enter in ground arith)
                (focus_column-WorkspaceOk _ (pos j) (
                  set-IsSound s.columns j c s.focused_col h
                    (entered_column-ColumnOk nb 0 s.columns j c h.0 found)))
        ]
