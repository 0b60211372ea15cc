-- ===== src/Layout/Shown.antt =====
-- Which notebooks stand in the overlay after it was built anew.
use prettymux.Prelude.{
  ◌≡◌, refl, sym, ap, ◌∙◌, subst, Bool, false, some, List, [], ◌∷◌, ◌++◌, map, arith, ◌==◌, All,
}
use mathlib.Core.List.{append-nil, append_assoc}
use prettymux.Prelude.Int.{ℤ}
use prettymux.Strip.Model.{
  Widget, null, Root, leaf, paned, root_eq, set_size_request, Double, Gtk, Strip, LayoutMode,
  classic, strip, Workspace,
}
use prettymux.Strip.Column.{chain_from}
use prettymux.Strip.Camera.{default_col_width}
use prettymux.Strip.Columns.{new_column, create_root, add_notebook_column, init, apply_layout}
use prettymux.Strip.Behaviour.Box.{column_box-layout}
use prettymux.Layout.{
  scrolled, add_saved_notebook, add_saved_notebooks, collect_notebooks, collect_all, box_children,
  shown_roots, new_root, add_columns,
}
use prettymux.Layout.Panes.{IsPanes, has, has-cons, adds-append, IsPanes-at, add-IsPanes}

leaves : List Widget → List Root
leaves l = map leaf l

module _ (is_notebook : Widget → Bool) where
  collect-chain :
      (r : Root) (l saved : List Widget)
      → collect_notebooks is_notebook (chain_from r l) saved
        ≡ add_saved_notebooks is_notebook (collect_notebooks is_notebook r saved) l
  collect-chain r [] saved = refl
  collect-chain r (w ∷ l) saved = collect-chain (paned r (leaf w)) l saved

  collect-leaves :
      (l saved : List Widget)
      → collect_all is_notebook (map leaf l) saved ≡ add_saved_notebooks is_notebook saved l
  collect-leaves [] saved = refl
  collect-leaves (w ∷ l) saved = collect-leaves l (add_saved_notebook is_notebook saved w)

  pub collect-IsPanes :
      (r : Root) (saved : List Widget)
      → IsPanes is_notebook saved
      → IsPanes is_notebook (collect_notebooks is_notebook r saved)
  collect-IsPanes (leaf w) saved h = add-IsPanes is_notebook saved w h
  collect-IsPanes (paned a b) saved h =
      collect-IsPanes b (collect_notebooks is_notebook a saved) (collect-IsPanes a saved h)

  pub collect_all-IsPanes :
      (rs : List Root) (saved : List Widget)
      → IsPanes is_notebook saved
      → IsPanes is_notebook (collect_all is_notebook rs saved)
  collect_all-IsPanes [] saved h = h
  collect_all-IsPanes (r ∷ rs) saved h =
      collect_all-IsPanes rs (collect_notebooks is_notebook r saved) (collect-IsPanes r saved h)

-- A root that is none of the notebooks' leaves.
fresh_leaf :
    (w : Widget) (l : List Widget)
    → has w l ≡ false
    → All (λ c. root_eq (leaf w) c ≡ false) (map leaf l)
fresh_leaf w [] h = tt
fresh_leaf w (x ∷ l) h =
    (ground (arith, has-cons w x l), fresh_leaf w l (ground (arith, has-cons w x l)))

map-append_leaf :
    (l : List Widget) (w : Widget) → map leaf (l ++ w ∷ []) ≡ map leaf l ++ leaf w ∷ []
map-append_leaf [] w = refl
map-append_leaf (x ∷ l) w = ap (λ r. leaf x ∷ r) (map-append_leaf l w)

module _ {B : Type 0} ⦃gtk : Gtk B⦄ where
  children-add :
      (b : B) (l : List Widget) (w : Widget)
      → gtk.children b ≡ map leaf l
      → has w l ≡ false
      → gtk.children (gtk.append b (leaf w)) ≡ map leaf (l ++ w ∷ [])
  children-add b l w e n =
      gtk.children-append b (leaf w)
        (subst (All (λ c. root_eq (leaf w) c ≡ false)) (sym e) (fresh_leaf w l n))
      ∙ ap (λ c. c ++ leaf w ∷ []) e
      ∙ sym (map-append_leaf l w)

module _ {F B : Type 0} ⦃num : Double F⦄ ⦃gtk : Gtk B⦄ where
  -- The strip has a box with just the leaves of these notebooks.
  abbrev pub Boxed : Workspace F B → List Widget → Type 0
  Boxed ws l =
      (s : Strip F B) × (b : B) × (ws.strip_state ≡ some s)
      × (s.column_box ≡ some b)
      × (gtk.children b ≡ map leaf l)

  created-Boxed :
      (ws : Workspace F B) (w : Widget) (allocated : ℤ)
      → Boxed (create_root ws w allocated) (w ∷ [])
  unfolding create_root init apply_layout
  created-Boxed ws w allocated = (
    _,
    gtk.append gtk.new_box (leaf w),
    refl,
    column_box-layout _,
    children-add gtk.new_box [] w gtk.children-new_box refl,
  )

  added-Boxed :
      (ws : Workspace F B) (l : List Widget) (w : Widget)
      → Boxed ws l
      → has w l ≡ false
      → (w == null) ≡ false
      → Boxed (add_notebook_column ws w) (l ++ w ∷ [])
  added-Boxed ws l w (s, b, e, boxed, children) n there = (
    record s {
      columns = s.columns ++ new_column w (num.of_int default_col_width) ∷ [];
      calls = s.calls ++ set_size_request (leaf w) default_col_width ∷ [];
      column_box = some (gtk.append b (leaf w));
    },
    gtk.append b (leaf w),
    unfold add_notebook_column in ground arith,
    refl,
    children-add b l w children n,
  )

  add_columns-Boxed :
      (l m : List Widget) (ws : Workspace F B)
      → Boxed ws l
      → IsPanes gtk.is_notebook (l ++ m)
      → Boxed (add_columns ws m) (l ++ m)
  add_columns-Boxed l [] ws h k = subst (Boxed ws) (sym (append-nil l)) h
  add_columns-Boxed l (w ∷ m) ws h k =
      let (there, n) = IsPanes-at gtk.is_notebook l m w k in
      subst (Boxed (add_columns (add_notebook_column ws w) m)) (append_assoc l (w ∷ []) m) (
        add_columns-Boxed (l ++ w ∷ []) m (add_notebook_column ws w)
          (added-Boxed ws l w h n (ground arith))
          (subst (IsPanes gtk.is_notebook) (sym (append_assoc l (w ∷ []) m)) k))

  -- The notebooks in the overlay are those that it was built from, in their order.
  pub collect-new_root :
      (mode : LayoutMode) (allocated : ℤ) (first : Widget) (rest : List Widget) (ws : Workspace F B)
      → IsPanes gtk.is_notebook (first ∷ rest)
      → collect_all gtk.is_notebook
          (shown_roots
            (new_root mode allocated first rest ws).0
            (new_root mode allocated first rest ws).1.strip_state)
          []
        ≡ first ∷ rest
  unfolding new_root
  collect-new_root classic allocated first rest ws h =
      collect-chain gtk.is_notebook (leaf first) rest []
      ∙ adds-append gtk.is_notebook [] (first ∷ rest) h
  collect-new_root strip allocated first rest ws h =
      let (s, b, e, boxed, children) =
        add_columns-Boxed (first ∷ []) rest (create_root ws first allocated)
          (created-Boxed ws first allocated) h in
      let shown : shown_roots scrolled
            (add_columns (create_root ws first allocated) rest).strip_state
          ≡ map leaf (first ∷ rest) =
        ap (shown_roots scrolled) e ∙ ap box_children boxed ∙ children in
      ap (λ r. collect_all gtk.is_notebook r []) shown
      ∙ collect-leaves gtk.is_notebook (first ∷ rest) []
      ∙ adds-append gtk.is_notebook [] (first ∷ rest) h
