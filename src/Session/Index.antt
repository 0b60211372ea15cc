-- ===== src/Session/Index.antt =====
-- The column of a pane is found by the pane's id (session_strip_column_index_by_pane_id).
use prettymux.Prelude.{
  ◌≡◌, refl, ap, ◌∙◌, Bool, true, false, some, List, [], ◌∷◌, ◌++◌, arith, All, length, get_elem?,
  set,
}
use prettymux.Prelude.Text.{Text}
use prettymux.Strip.Model.{Widget, Root, leaf, paned, Column}
use prettymux.Strip.Column.{rebuild_column_paned_chain, chain_from}
use prettymux.Strip.Invariant.Kept.{ColumnOk}
use prettymux.Layout.Panes.{has, has-cons, has-append}
use prettymux.Session.Lookup.{root_has_id, column_index_in, column_index_by_id}
use prettymux.Session.Restore.{all_panes}
use prettymux.Session.Seen.{All-left, All-right}
use prettymux.Session.Ids.{IsNamed, Within, text_eq-ids, pane_index-position}

module _ {C : Type 0} where
  pub get_elem?-length_append : (l m : List C) (c : C) → get_elem? (l ++ c ∷ m) (length l) ≡ some c
  get_elem?-length_append [] m c = refl
  get_elem?-length_append (x ∷ l) m c = get_elem?-length_append l m c

  pub set-length_append : (l m : List C) (c d : C) → set (l ++ c ∷ m) (length l) d ≡ l ++ d ∷ m
  set-length_append [] m c d = refl
  set-length_append (x ∷ l) m c d = ap (λ k. x ∷ k) (set-length_append l m c d)

module _ (ids : Widget → Text) (is_notebook : Widget → Bool) (panes : List Widget)
    (named : IsNamed ids is_notebook panes) (w : Widget) (h : has w panes ≡ true) where
  root_paned :
      (a b : Root) (l : List Widget)
      → root_has_id ids is_notebook (ids w) (some (chain_from (paned a b) l)) ≡ false
  root_paned a b [] = refl
  root_paned a b (x ∷ l) = root_paned (paned a b) (leaf x) l

  root_other :
      (l : List Widget)
      → Within panes l
      → has w l ≡ false
      → root_has_id ids is_notebook (ids w) (rebuild_column_paned_chain l) ≡ false
  unfolding rebuild_column_paned_chain
  root_other [] k n = refl
  root_other (x ∷ []) k n =
      rw (text_eq-ids ids is_notebook panes named x w k.0 h) (ground (arith, has-cons w x []))
  root_other (x ∷ y ∷ l) k n = root_paned (leaf x) (leaf y) l

  module _ {F : Type 0} where
    pub column_index-eq :
        (before after : List (Column F)) (col : Column F)
        → All ColumnOk before
        → Within panes (all_panes before)
        → has w (all_panes before) ≡ false
        → Within panes col.panes
        → has w col.panes ≡ true
        → column_index_in ids is_notebook (ids w) (before ++ col ∷ after) ≡ some (length before)
    column_index-eq [] after col o k n inside there =
        rw (pane_index-position ids is_notebook panes named w h col inside, there) refl
    column_index-eq (c ∷ before) after col o k n inside there =
        let absent : has w c.panes ≡ false =
          ground (arith, has-append w c.panes (all_panes before)) in
        let mine = All-left (λ v. has v panes ≡ true) c.panes (all_panes before) k in
        let root : root_has_id ids is_notebook (ids w) c.notebook ≡ false =
          ap (root_has_id ids is_notebook (ids w)) o.0.rooted ∙ root_other c.panes mine absent in
        rw
          (
            pane_index-position ids is_notebook panes named w h c mine,
            absent,
            root,
            column_index-eq before after col o.1
                (All-right (λ v. has v panes ≡ true) c.panes (all_panes before) k)
                (ground (arith, has-append w c.panes (all_panes before))) inside there,
          )
          refl

    pub column_index_by_id-eq :
        (before after : List (Column F)) (col : Column F)
        → All ColumnOk before
        → Within panes (all_panes before)
        → has w (all_panes before) ≡ false
        → Within panes col.panes
        → has w col.panes ≡ true
        → column_index_by_id ids is_notebook (ids w) (before ++ col ∷ after) ≡ some (length before)
    unfolding column_index_by_id
    column_index_by_id-eq before after col o k n inside there =
        rw (named.named w h) (column_index-eq before after col o k n inside there)
