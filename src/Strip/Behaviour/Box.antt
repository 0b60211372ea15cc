-- ===== src/Strip/Behaviour/Box.antt =====
-- The order of the widgets in the column box (workspace_strip_split_vertical_in_column).
use prettymux.Prelude.{
  ℕ, ◌≡◌, ◌≢◌, refl, sym, ap, ◌∙◌, Bool, true, false, Option, none, some, List, [], ◌∷◌, ◌++◌,
  arith, All, set, get_elem?, subst,
}
use prettymux.Prelude.Int.{ℤ, pos}
use prettymux.Strip.Model.{Widget, null, Root, root_eq, Double, Gtk, Column, Strip, Workspace}
use prettymux.Strip.Column.{resolve_focused_col}
use prettymux.Strip.Camera.{
  pan_to_focused_column, clamp_camera, ensure_tick_running, apply_column_widths,
}
use prettymux.Strip.Columns.{remove_from_box, apply_layout_state, apply_layout}
use prettymux.Strip.Panes.{split_column, show_root, replace_column, split_vertical_in_column}
use prettymux.Strip.Invariant.Kept.{IsSound, resolve-focused}

module _ {B : Type 0} ⦃gtk : Gtk B⦄ where
  -- The children of a box that the column's root `r` leaves and its new root `r'` enters.
  box_swap :
      (b : B) (r r' : Root) (xs ys : List Root)
      → gtk.children b ≡ xs ++ r ∷ ys
      → All (λ c. root_eq r c ≡ false) xs
      → All (λ c. root_eq r' c ≡ false) (xs ++ ys)
      → gtk.children (gtk.append (gtk.remove b r) r') ≡ (xs ++ ys) ++ r' ∷ []
  box_swap b r r' xs ys e first fresh =
      let removed = gtk.children-remove b r xs ys first e in
      gtk.children-append (gtk.remove b r) r'
        (subst (All (λ c. root_eq r' c ≡ false)) (sym removed) fresh)
      ∙ ap (λ l. l ++ r' ∷ []) removed

module _ {F B : Type 0} ⦃num : Double F⦄ ⦃gtk : Gtk B⦄ where
  pub column_box-layout : (s : Strip F B) → (apply_layout_state s).column_box ≡ s.column_box
  unfolding apply_layout_state apply_column_widths pan_to_focused_column clamp_camera
      ensure_tick_running
  column_box-layout s = ground arith

  box-remove :
      (o : Option Root) (s : Strip F B) (b : B) (r : Root)
      → o ≡ some r
      → s.column_box ≡ some b
      → gtk.contains b r ≡ true
      → (remove_from_box o s).column_box ≡ some (gtk.remove b r)
  box-remove none s b r e boxed has = cc
  box-remove (some q) s b r e boxed has = ground arith

  box-show :
      (v : ℤ) (o : Option Root) (s : Strip F B) (b : B) (r : Root)
      → o ≡ some r
      → s.column_box ≡ some b
      → (show_root v o s).column_box ≡ some (gtk.append b r)
  box-show v none s b r e boxed = cc
  box-show v (some q) s b r e boxed = ground arith

  box-replace :
      (k : ℕ) (c c' : Column F) (s : Strip F B) (b : B) (r r' : Root)
      → c.notebook ≡ some r
      → c'.notebook ≡ some r'
      → s.column_box ≡ some b
      → gtk.contains b r ≡ true
      → (replace_column k c c' s).column_box ≡ some (gtk.append (gtk.remove b r) r')
  box-replace k c c' s b r r' rooted new boxed has =
      box-show c'.target_width c'.notebook
        (record (remove_from_box c.notebook s) { columns = set s.columns k c' }) (gtk.remove b r) r'
        new (box-remove c.notebook s b r rooted boxed has)

  split-result :
      (ws : Workspace F B) (s : Strip F B) (nb : Widget) (k : ℕ) (c : Column F)
      → ws.strip_state ≡ some s
      → resolve_focused_col ws ≡ some k
      → get_elem? s.columns k ≡ some c
      → nb ≢ null
      → split_vertical_in_column ws nb ≡ (
        apply_layout (record ws { strip_state = some (replace_column k c (split_column nb c) s) }),
        true,
      )
  split-result ws s nb k c e resolved found ne = unfold split_vertical_in_column in ground arith

  -- Splitting the focused column takes its root widget out of the column box and puts the new root at the
  -- far end of the box, behind the widgets of all other columns, wherever the column stands.
  pub split-children :
      (ws : Workspace F B) (s : Strip F B) (nb : Widget) (k : ℕ) (c : Column F) (b : B)
      (r r' : Root) (xs ys : List Root)
      → ws.strip_state ≡ some s
      → IsSound s.columns s.focused_col
      → s.focused_col ≡ pos k
      → get_elem? s.columns k ≡ some c
      → nb ≢ null
      → s.column_box ≡ some b
      → c.notebook ≡ some r
      → (split_column nb c).notebook ≡ some r'
      → gtk.children b ≡ xs ++ r ∷ ys
      → All (λ c. root_eq r c ≡ false) xs
      → All (λ c. root_eq r' c ≡ false) (xs ++ ys)
      → (s' : Strip F B) × (b' : B) × ((split_vertical_in_column ws nb).0.strip_state ≡ some s')
        × (s'.column_box ≡ some b')
        × (gtk.children b' ≡ (xs ++ ys) ++ r' ∷ [])
  split-children ws s nb k c b r r' xs ys e h at found ne boxed rooted new children first fresh =
      let (j, d, at', resolved, found') = resolve-focused ws s e h in
      let same : j ≡ k = ground (arith, sym at' ∙ at) in
      let s₁ = replace_column k c (split_column nb c) s in
      let has = gtk.contains_middle b r xs ys children in
      let result = split-result ws s nb k c e (resolved ∙ ap some same) found ne in
      (
        apply_layout_state s₁,
        gtk.append (gtk.remove b r) r',
        ap (λ (t : Workspace F B × Bool). t.0.strip_state) result ∙ (unfold apply_layout in refl),
        column_box-layout s₁ ∙ box-replace k c (split_column nb c) s b r r' rooted new boxed has,
        box_swap b r r' xs ys children first fresh,
      )
