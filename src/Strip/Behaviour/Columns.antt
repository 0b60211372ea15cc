-- ===== src/Strip/Behaviour/Columns.antt =====
-- Which columns are there, in which order, and which is focused, after a column was inserted or removed
-- (workspace_strip_insert_column_after_active, workspace_strip_remove_active_column).
use prettymux.Prelude.{
  ℕ, suc, ◌-◌, ◌≤◌, ◌<◌, ◌≡◌, ◌≢◌, refl, sym, ◌∙◌, ap, Bool, true, false, Option, some, List, [],
  ◌∷◌, ◌++◌, map, arith, length, length-insert_at, length-erase_at, length-map, inl, inr,
  Option-cases, subst, min, leb, insert_at, erase_at, set, get_elem?, take, drop, lt_of_get_elem?,
  insert_at-append, erase_at-insert_at, get_elem?-insert_at, map-insert_at, map-erase_at,
  map-set_self, if◌then◌else◌,
}
use prettymux.Prelude.Int.{ℤ, pos, negsuc, index?, pos_part}
use prettymux.Strip.Model.{Widget, null, Root, Double, Gtk, Column, Strip, Workspace}
use prettymux.Strip.Camera.{pan_to_focused_column, viewport_width}
use prettymux.Strip.Focus.{activate, focus_column}
use prettymux.Strip.Columns.{
  new_column, insert_state, insert_point, insert_column_after_active, remove_state,
  remove_active_column, layout_column, apply_layout_state, apply_layout, settle_after_remove,
  settled_column, remove_from_box, width_or_target, focused_notebook,
}
use prettymux.Strip.Invariant.Kept.{
  IsIndex, IsSound, WorkspaceOk-of, IsSound-of, columns-layout, focused_col-layout, columns-pan,
  focused_col-pan, resolve-focused,
}
use prettymux.Strip.Invariant.Columns.{insert-WorkspaceOk}

-- The panes of the columns, from left to right and from the top down.
abbrev pub pane_lists : {F : Type 0} → List (Column F) → List (List Widget)
pane_lists = map (λ c. c.panes)

-- What a strip shows of its columns, with the index of the focused one.
abbrev pub Shows : {F B : Type 0} → Workspace F B → List (List Widget) → ℕ → Type 0
Shows {F} {B} ws panes focused =
    (s : Strip F B) × (ws.strip_state ≡ some s)
    × (pane_lists s.columns ≡ panes)
    × (s.focused_col ≡ pos focused)

focus_index :
    (n j k len : ℕ)
    → suc n ≡ len
    → j ≡ k
    → (if leb n j then pos (n - 1) else pos j) ≡ pos (min k (len - 2))
focus_index n j k len e same = ground arith

get_elem?-index? :
    {F : Type 0} (cols : List (Column F)) (i : ℤ) (c : Column F)
    → index? cols i ≡ some c
    → get_elem? cols (pos_part i) ≡ some c
get_elem?-index? cols (pos i) c e = e
get_elem?-index? cols (negsuc i) c e = cc

module _ {F : Type 0} ⦃num : Double F⦄ where
  pane_lists-layout :
      (v : ℤ) (cols : List (Column F)) → pane_lists (map (layout_column v) cols) ≡ pane_lists cols
  pane_lists-layout v [] = refl
  pane_lists-layout v (c ∷ cols) = ap (λ l. c.panes ∷ l) (pane_lists-layout v cols)

module _ {F B : Type 0} ⦃num : Double F⦄ ⦃gtk : Gtk B⦄ where
  -- The layout shows the columns as they are.
  apply_layout-Shows :
      (ws : Workspace F B) (s : Strip F B) (k : ℕ)
      → ws.strip_state ≡ some s
      → s.focused_col ≡ pos k
      → Shows (apply_layout ws) (pane_lists s.columns) k
  apply_layout-Shows ws s k e at = (
    apply_layout_state s,
    unfold apply_layout in ground arith,
    ap pane_lists (columns-layout s) ∙ pane_lists-layout (viewport_width s) s.columns,
    focused_col-layout s ∙ at,
  )

  columns-insert_state :
      (i : ℕ) (after : Option Root) (nb : Widget) (s : Strip F B)
      → (insert_state i after nb s).columns
        ≡ insert_at s.columns i (new_column nb (num.of_int (pos 180)))
  columns-insert_state i after nb s = ground arith

  Shows-cong :
      {w w' : Workspace F B} {p p' : List (List Widget)} {f f' : ℕ}
      → w ≡ w'
      → p ≡ p'
      → f ≡ f'
      → Shows w p f
      → Shows w' p' f'
  Shows-cong {w' = w'} {p' = p'} ew ep ef h =
      let (s, e, panes, at) = h in
      (s, ap (λ (w : Workspace F B). w.strip_state) (sym ew) ∙ e, panes ∙ ep, at ∙ ap pos ef)

  -- After `focus_column`: the columns as they were, and the focus on the given one.
  focused_at :
      (ws : Workspace F B) (s : Strip F B) (i : ℕ) (c : Column F)
      → ws.strip_state ≡ some s
      → get_elem? s.columns i ≡ some c
      → (focus_column ws (pos i)).strip_state
        ≡ some (pan_to_focused_column (record s { focused_col = pos i }))
  focused_at ws s i c e found = unfold focus_column in ground arith

  -- A new column stands directly to the right of the focused one and has the focus; the other columns
  -- keep their panes and their order.
  pub insert-Shows :
      (ws : Workspace F B) (s : Strip F B) (nb : Widget) (k : ℕ)
      → ws.strip_state ≡ some s
      → IsSound s.columns s.focused_col
      → s.focused_col ≡ pos k
      → nb ≢ null
      → Shows
          (insert_column_after_active ws nb).0
          (take (suc k) (pane_lists s.columns) ++ (nb ∷ []) ∷ drop (suc k) (pane_lists s.columns))
          (suc k)
        × ((insert_column_after_active ws nb).1 ≡ true)
  insert-Shows ws s nb k e h at ne =
      let (j, c, at', resolved, found) = resolve-focused ws s e h in
      let same : j ≡ k = ground (arith, sym at' ∙ at) in
      let (i, after) = insert_point (some j) s in
      let lt = lt_of_get_elem? s.columns j found in
      let i_eq : i ≡ suc j = omega arith in
      let s₁ = insert_state i after nb s in
      let w₁ : Workspace F B = record ws { strip_state = some s₁ } in
      let new = new_column nb (num.of_int (pos 180)) in
      let here : get_elem? s₁.columns i ≡ some new =
        ap (λ l. get_elem? l i) (columns-insert_state i after nb s)
        ∙ get_elem?-insert_at s.columns i new (omega arith) in
      let s₂ = pan_to_focused_column (record s₁ { focused_col = pos i }) in
      let w₂ = focus_column w₁ (pos i) in
      let result : insert_column_after_active ws nb ≡ (apply_layout w₂, true) =
        unfold insert_column_after_active in ground arith in
      let panes : pane_lists s₂.columns
          ≡ take (suc k) (pane_lists s.columns) ++ (nb ∷ []) ∷ drop (suc k) (pane_lists s.columns) =
        ap pane_lists
          (columns-pan (record s₁ { focused_col = pos i }) ∙ columns-insert_state i after nb s)
        ∙ map-insert_at (λ (d : Column F). d.panes) s.columns i new
        ∙ insert_at-append (pane_lists s.columns) i (nb ∷ [])
        ∙ ap (λ (m : ℕ). take m (pane_lists s.columns) ++ (nb ∷ []) ∷ drop m (pane_lists s.columns))
            (i_eq ∙ ap suc same) in
      (
        Shows-cong (sym (ap (λ (r : Workspace F B × Bool). r.0) result)) panes (i_eq ∙ ap suc same)
            (apply_layout-Shows w₂ s₂ i (focused_at w₁ s₁ i new refl here)
              (focused_col-pan (record s₁ { focused_col = pos i }))),
        ap (λ (r : Workspace F B × Bool). r.1) result,
      )

  panes-settle :
      (i : ℤ) (removed : F) (s : Strip F B)
      → (pane_lists (settle_after_remove i removed s).columns ≡ pane_lists s.columns)
        × ((settle_after_remove i removed s).focused_col ≡ s.focused_col)
  panes-settle i removed s = elim (Option-cases (index? s.columns i)) [
    | inl out ↦
        (unfold settle_after_remove in ground arith, unfold settle_after_remove in ground arith)
    | inr (c, found) ↦
        let changed : (settle_after_remove i removed s).columns
            ≡ set s.columns (pos_part i) (settled_column removed c) =
          unfold settle_after_remove in ground arith in
        (
          ap pane_lists changed
              ∙ map-set_self (λ (d : Column F). d.panes) s.columns (pos_part i) c
                  (settled_column removed c) (get_elem?-index? s.columns i c found) refl,
          unfold settle_after_remove in ground arith,
        )
  ]

  -- The focused column goes, with all its panes; the other columns keep their panes and their order. The
  -- focus stays at its index, or goes to the last column.
  pub remove-Shows :
      (ws : Workspace F B) (s : Strip F B) (k : ℕ)
      → ws.strip_state ≡ some s
      → IsSound s.columns s.focused_col
      → s.focused_col ≡ pos k
      → 1 < length s.columns
      → Shows
          (remove_active_column ws).0
          (erase_at (pane_lists s.columns) k)
          (min k (length s.columns - 2))
        × ((remove_active_column ws).1 ≡ true)
  remove-Shows ws s k e h at many =
      let (j, c, at', resolved, found) = resolve-focused ws s e h in
      let same : j ≡ k = ground (arith, sym at' ∙ at) in
      let lt = lt_of_get_elem? s.columns j found in
      let n = length (erase_at s.columns j) in
      let len : suc n ≡ length s.columns = length-erase_at s.columns j lt in
      let focus = if leb n j then pos (n - 1) else pos j in
      let removed : Strip F B = record (remove_from_box c.notebook s) {
        columns = erase_at s.columns j;
        focused_col = focus;
      } in
      let s₁ = remove_state j c s in
      let settled = panes-settle focus (width_or_target c) removed in
      let w₁ : Workspace F B =
        activate (focused_notebook s₁) (record ws { strip_state = some s₁ }) in
      let result : remove_active_column ws ≡ (apply_layout w₁, true) =
        unfold remove_active_column in ground arith in
      let panes : pane_lists s₁.columns ≡ erase_at (pane_lists s.columns) k =
        settled.0
        ∙ map-erase_at (λ (d : Column F). d.panes) s.columns j
        ∙ ap (erase_at (pane_lists s.columns)) same in
      let focused : s₁.focused_col ≡ pos (min k (length s.columns - 2)) =
        settled.1 ∙ focus_index n j k (length s.columns) len same in
      (
        Shows-cong (sym (ap (λ (r : Workspace F B × Bool). r.0) result)) panes refl (
            apply_layout-Shows w₁ s₁ (min k (length s.columns - 2))
              (unfold settle_after_remove in ground arith) focused),
        ap (λ (r : Workspace F B × Bool). r.1) result,
      )

  -- The last column is never removed: the call changes nothing and says so.
  pub remove_last :
      (ws : Workspace F B) (s : Strip F B)
      → ws.strip_state ≡ some s
      → length s.columns ≤ 1
      → remove_active_column ws ≡ (ws, false)
  remove_last ws s e few = unfold remove_active_column in ground arith

  -- Removing the column that was just inserted brings back the columns that were there, and the focus
  -- goes to the column right of the one that had it, if there is one.
  pub remove-insert :
      (ws : Workspace F B) (s : Strip F B) (nb : Widget) (k : ℕ)
      → ws.strip_state ≡ some s
      → IsSound s.columns s.focused_col
      → s.focused_col ≡ pos k
      → nb ≢ null
      → Shows
          (remove_active_column (insert_column_after_active ws nb).0).0
          (pane_lists s.columns)
          (min (suc k) (length s.columns - 1))
  remove-insert ws s nb k e h at ne =
      let (t, et, panes, focused) = (insert-Shows ws s nb k e h at ne).0 in
      let w = (insert_column_after_active ws nb).0 in
      let sound : IsSound t.columns t.focused_col =
        IsSound-of w t (insert-WorkspaceOk ws nb (WorkspaceOk-of ws s e h)) et in
      let inserted : pane_lists t.columns ≡ insert_at (pane_lists s.columns) (suc k) (nb ∷ []) =
        panes ∙ sym (insert_at-append (pane_lists s.columns) (suc k) (nb ∷ [])) in
      let lt : k < length s.columns = subst (λ (i : ℤ). IsIndex i (length s.columns)) at h.1 in
      let size = length-map (λ (d : Column F). d.panes) s.columns in
      let len : length t.columns ≡ suc (length s.columns) =
        sym (length-map (λ (d : Column F). d.panes) t.columns)
        ∙ ap length inserted
        ∙ length-insert_at (pane_lists s.columns) (suc k) (nb ∷ [])
        ∙ ap suc size in
      Shows-cong {w = (remove_active_column w).0} refl
        (ap (λ l. erase_at l (suc k)) inserted
          ∙ erase_at-insert_at (pane_lists s.columns) (suc k) (nb ∷ []) (omega arith))
        (omega arith) (remove-Shows w t (suc k) et sound focused (omega arith)).0
