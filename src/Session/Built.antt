-- ===== src/Session/Built.antt =====
-- Building the columns of a saved strip gives the columns with their panes.
use prettymux.Prelude.{
  ◌≡◌, refl, sym, ap, ◌∙◌, subst, Bool, true, false, ◌||◌, Option, some, List, [], ◌∷◌, ◌++◌, arith,
  ◌==◌, All, map, Bool-cases, inl, inr, length, All-get_elem?, lt→ltb,
}
use mathlib.Core.List.{append-nil}
use prettymux.Prelude.Int.{ℤ, pos, negsuc, ltb_ℤ}
use prettymux.Prelude.Text.{Text, codes}
use prettymux.Json.{Json, string, object, Items, item, Members, strings, int_member, bool_member}
use prettymux.Strip.Model.{Widget, Root, Double, Column}
use prettymux.Strip.Column.{rebuild_column_paned_chain}
use prettymux.Layout.Panes.{IsPanes, has, has-cons, has-append}
use prettymux.Session.Save.{session_col_width, column_members, save_column, save_columns}
use prettymux.Session.Lookup.{pane_by_id, in_range, positive_width, index_or_zero}
use prettymux.Session.Build.{
  element_text, first_with_id, unseen, take_panes, column_panes, built_focus, built_column,
  build_columns, lone_columns, rebuilt_columns,
}
use prettymux.Session.Restore.{all_panes}
use prettymux.Session.Ids.{
  All-has, IsNamed, Within, pane_by_id-ids, first_with_id-position, position-get_elem?,
}
use prettymux.Session.Seen.{push, has-push, Apart, All-left, All-right, IsPanes-split}
use prettymux.Session.Saved.{IsSavable, FocusedPane, FocusedPane-of, save_column-eq}

module _ {F : Type 0} ⦃num : Double F⦄ where
  -- A column as it comes back.
  abbrev pub restored : Column F → Column F
  restored col = record col { current_width = num.of_int col.target_width }

  pub record_eq :
      {n m : Option Root} {p q : List Widget} {i j w v : ℤ} {a b c d : Bool}
      → n ≡ m
      → p ≡ q
      → i ≡ j
      → w ≡ v
      → a ≡ b
      → c ≡ d
      → ◌≡◌ {A = Column F}
          (record {
            notebook = n;
            panes = p;
            focused_pane = i;
            target_width = w;
            current_width = num.of_int w;
            maximized = a;
            half_maximized = c;
          })
          (record {
            notebook = m;
            panes = q;
            focused_pane = j;
            target_width = v;
            current_width = num.of_int v;
            maximized = b;
            half_maximized = d;
          })
  record_eq e f g x y z = cc

pub positive_same : (w : ℤ) → ltb_ℤ (pos 0) w ≡ true → positive_width w ≡ w
positive_same (pos w) e = ground arith
positive_same (negsuc w) e = ground arith

take-step :
    (ids : Widget → Text) (panes : List Widget) (v : Json) (rest : Items)
    (seen l more : List Widget) (w : Widget)
    → unseen seen (pane_by_id ids (element_text v) panes) ≡ some w
    → take_panes ids panes rest (w ∷ seen) ≡ (l, more)
    → take_panes ids panes (item v rest) seen ≡ (w ∷ l, more)
take-step ids panes v rest seen l more w e r = ground arith

module _ (ids : Widget → Text) (is_notebook : Widget → Bool) (panes : List Widget)
    (named : IsNamed ids is_notebook panes) where
  take_panes-ids :
      (l seen : List Widget)
      → Within panes l
      → IsPanes is_notebook l
      → Apart l seen
      → take_panes ids panes (strings (map ids l)) seen ≡ (l, push l seen)
  take_panes-ids [] seen k h a = refl
  take_panes-ids (w ∷ l) seen k h a =
      take-step ids panes (string (ids w)) (strings (map ids l)) seen l (push l (w ∷ seen)) w
        (rw (pane_by_id-ids ids is_notebook panes named w k.0, a w (ground (arith, has-cons w w l)))
          refl)
        (take_panes-ids l (w ∷ seen) k.1 h.2 (λ v e. behind v e))
    where
      behind : (v : Widget) → has v l ≡ true → has v (w ∷ seen) ≡ false
      behind v e = elim (Bool-cases (w == v)) [
        | inl same ↦
            let there : has w l ≡ true =
              subst (λ x. has x l ≡ true) {x = v} {y = w} (ground arith) e in
            absurd (ground (arith, h.1))
        | inr other ↦ ground (arith, has-cons v w seen, a v, has-cons v w l)
      ]

  module _ {F : Type 0} ⦃num : Double F⦄ where
    module _ (col : Column F) (h : IsSavable col) (within : Within panes col.panes)
        (distinct : IsPanes is_notebook col.panes) (focus : FocusedPane col) where
      pub members :
          save_column ids is_notebook col
          ≡ column_members
              (ids focus.pane)
              (strings (map ids col.panes))
              (pos focus.index)
              (ids focus.pane)
              col.target_width
              col.maximized
              col.half_maximized
      members = save_column-eq ids is_notebook panes named col h within focus

      pub focus_found : first_with_id ids (ids focus.pane) col.panes ≡ some focus.index
      focus_found =
          first_with_id-position ids is_notebook panes named focus.pane
            (All-get_elem? (λ w. has w panes ≡ true) col.panes focus.index within focus.found)
            col.panes within
          ∙ position-get_elem? is_notebook col.panes focus.index focus.pane distinct focus.found

      pub in_range-focus : in_range (pos focus.index) (length col.panes) ≡ col.focused_pane
      in_range-focus = rw (lt→ltb focus.index (length col.panes) focus.inside) (sym focus.at)

      built_focus-eq :
          built_focus ids (save_column ids is_notebook col) col.panes ≡ col.focused_pane
      built_focus-eq =
          ap (λ o. built_focus ids o col.panes) members
          ∙ ap (λ i. in_range (index_or_zero i) (length col.panes)) focus_found
          ∙ in_range-focus

      built_column-eq :
          built_column ids true (save_column ids is_notebook col) focus.first focus.rest
          ≡ restored col
      built_column-eq =
          record_eq
            (unfold rebuild_column_paned_chain in
              sym (h.ok.rooted ∙ ap rebuild_column_paned_chain focus.shape))
            (sym focus.shape)
            (ap (built_focus ids (save_column ids is_notebook col)) (sym focus.shape)
              ∙ built_focus-eq)
            (ap (λ o. positive_width (int_member o (codes "width") session_col_width)) members
              ∙ positive_same col.target_width h.wide)
            (ap (λ o. bool_member o (codes "maximized") false) members)
            (ap (λ o. bool_member o (codes "halfMaximized") false) members)

      column_panes-eq :
          (seen : List Widget)
          → Apart col.panes seen
          → column_panes ids panes (save_column ids is_notebook col) seen
            ≡ (col.panes, push col.panes seen)
      column_panes-eq seen a =
          ap (λ o. column_panes ids panes o seen) members
          ∙ take_panes-ids col.panes seen within distinct a

    build-step :
        (o : Members) (rest : Items) (seen seen' more first_rest : List Widget) (first : Widget)
        (cols : List (Column F))
        → column_panes ids panes o seen ≡ (first ∷ first_rest, seen')
        → build_columns ids true panes rest seen' ≡ (cols, more)
        → build_columns ids true panes (item (object o) rest) seen
          ≡ (built_column ids true o first first_rest ∷ cols, more)
    build-step o rest seen seen' more first_rest first cols e r = ground arith

    -- The panes of the columns on top of those seen before.
    abbrev push_all : List (Column F) → List Widget → List Widget
    push_all [] seen = seen
    push_all (col ∷ cols) seen = push_all cols (push col.panes seen)

    has-push_all :
        (v : Widget) (cols : List (Column F)) (seen : List Widget)
        → has v (push_all cols seen) ≡ (has v (all_panes cols) || has v seen)
    has-push_all v [] seen = refl
    has-push_all v (col ∷ cols) seen = ground (
      arith,
      has-push_all v cols (push col.panes seen),
      has-push v col.panes seen,
      has-append v col.panes (all_panes cols),
    )

    build_columns-eq :
        (cols : List (Column F)) (seen : List Widget)
        → All IsSavable cols
        → Within panes (all_panes cols)
        → IsPanes is_notebook (all_panes cols)
        → Apart (all_panes cols) seen
        → build_columns ids true panes (save_columns ids is_notebook cols) seen
          ≡ (map restored cols, push_all cols seen)
    build_columns-eq [] seen h within distinct apart = refl
    build_columns-eq (col ∷ cols) seen h within distinct apart =
        let focus = FocusedPane-of col h.0.ok in
        let o = save_column ids is_notebook col in
        let mine = All-left (λ x. has x panes ≡ true) col.panes (all_panes cols) within in
        let others = All-right (λ x. has x panes ≡ true) col.panes (all_panes cols) within in
        let (d, e, apart_rest) = IsPanes-split is_notebook col.panes (all_panes cols) distinct in
        build-step o (save_columns ids is_notebook cols) seen (push col.panes seen)
          (push_all cols (push col.panes seen)) focus.rest focus.first (map restored cols)
          (column_panes-eq col h.0 mine d focus seen
              (λ v k. apart v (ground (arith, has-append v col.panes (all_panes cols))))
            ∙ ap (λ l. (l, push col.panes seen)) focus.shape)
          (build_columns-eq cols (push col.panes seen) h.1 others e (λ v k. ground (
            arith,
            has-push v col.panes seen,
            apart_rest v k,
            apart v (ground (arith, has-append v col.panes (all_panes cols))),
          )))
        ∙ ap (λ c. (c ∷ map restored cols, push_all cols (push col.panes seen)))
            (built_column-eq col h.0 mine d focus)

    lone_columns-none :
        (l seen : List Widget)
        → All (λ w. has w seen ≡ true) l
        → lone_columns {F = F} ids true l seen ≡ []
    lone_columns-none [] seen h = refl
    lone_columns-none (w ∷ l) seen h = ground (arith, lone_columns-none l seen h.1)

    -- The columns of a strip that has just the panes of the array come back, each with its panes.
    pub rebuilt_columns-eq :
        (cols : List (Column F))
        → All IsSavable cols
        → IsPanes is_notebook (all_panes cols)
        → ((w : Widget) → has w panes ≡ has w (all_panes cols))
        → rebuilt_columns ids true panes (save_columns ids is_notebook cols) ≡ map restored cols
    rebuilt_columns-eq cols h distinct same =
        ap (λ (r : List (Column F) × List Widget). r.0 ++ lone_columns ids true panes r.1)
          (build_columns-eq cols [] h (All-has (all_panes cols) (λ w k. same w ∙ k)) distinct
            (λ v k. refl))
        ∙ ap (λ l. map restored cols ++ l)
            (lone_columns-none panes (push_all cols [])
              (All-has panes (λ w k. ground (arith, has-push_all w cols [], same w))))
        ∙ append-nil (map restored cols)
