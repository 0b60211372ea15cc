-- ===== src/Session/Reread.antt =====
-- Reading the members of a saved strip into the columns that were built from it.
use prettymux.Prelude.{
  ℕ, suc, ◌≡◌, refl, sym, ap, ap₂, ◌∙◌, subst, Bool, true, false, ◌||◌, some, List, [], ◌∷◌, ◌++◌,
  arith, All, map, length, get_elem?, set, All-get_elem?, lt→ltb, All-append,
}
use mathlib.Core.List.{append-nil, append_assoc}
use prettymux.Prelude.Text.{Text, codes}
use prettymux.Json.{object, Items, item, Members, string_member, bool_member}
use prettymux.Strip.Model.{Widget, Double, Column}
use prettymux.Strip.Invariant.Kept.{ColumnOk}
use prettymux.Layout.Panes.{IsPanes, has, has-append}
use prettymux.Session.Save.{save_column, save_columns}
use prettymux.Session.Lookup.{column_index_by_id, pane_index_by_id}
use prettymux.Session.Read.{reset_column, wanted_column, read_column, read_columns}
use prettymux.Session.Restore.{all_panes}
use prettymux.Session.Seen.{Apart, All-left, All-right, IsPanes-split}
use prettymux.Session.Ids.{IsNamed, Within, pane_index-position, position-get_elem?, has-get_elem?}
use prettymux.Session.Saved.{IsSavable, FocusedPane, FocusedPane-of}
use prettymux.Session.Built.{restored, record_eq, members, in_range-focus, positive_same}
use prettymux.Session.Index.{get_elem?-length_append, set-length_append, column_index_by_id-eq}

abbrev pub any_maximized : {F : Type 0} → List (Column F) → Bool
any_maximized [] = false
any_maximized (col ∷ cols) = col.maximized || any_maximized cols

-- A column that was built and then reset.
abbrev blank : {F : Type 0} ⦃num : Double F⦄ → Column F → Column F
blank col = reset_column (restored col)

pub ok_restored :
    {F : Type 0} ⦃num : Double F⦄ (col : Column F) → ColumnOk col → ColumnOk (restored col)
ok_restored col ok = record { focused = ok.focused; exclusive = ok.exclusive; rooted = ok.rooted }

pub all_panes-append :
    {F : Type 0} (a b : List (Column F)) → all_panes (a ++ b) ≡ all_panes a ++ all_panes b
all_panes-append [] b = refl
all_panes-append (c ∷ a) b =
    ap (λ l. c.panes ++ l) (all_panes-append a b)
    ∙ sym (append_assoc c.panes (all_panes a) (all_panes b))

or_assoc : (a b c : Bool) → ((a || b) || c) ≡ (a || (b || c))
or_assoc true b c = refl
or_assoc false b c = refl

module _ (ids : Widget → Text) (is_notebook : Widget → Bool) (panes : List Widget)
    (named : IsNamed ids is_notebook panes) {F : Type 0} ⦃num : Double F⦄ where
  module _ (col : Column F) (h : IsSavable col) (within : Within panes col.panes)
      (distinct : IsPanes is_notebook col.panes) (focus : FocusedPane col) where
    pub pane_there : has focus.pane panes ≡ true
    pane_there = All-get_elem? (λ w. has w panes ≡ true) col.panes focus.index within focus.found

    blank_focus : pane_index_by_id ids is_notebook (ids focus.pane) (blank col) ≡ some focus.index
    blank_focus =
        pane_index-position ids is_notebook panes named focus.pane pane_there (blank col) within
        ∙ position-get_elem? is_notebook col.panes focus.index focus.pane distinct focus.found

    read_column-eq :
        read_column ids is_notebook (save_column ids is_notebook col) (blank col) ≡ restored col
    read_column-eq =
        ap (λ o. read_column ids is_notebook o (blank col))
          (members ids is_notebook panes named col h within distinct focus)
        ∙ record_eq refl refl
            (rw (lt→ltb 0 (length col.panes) (omega (arith, focus.inside)), blank_focus)
              (in_range-focus ids is_notebook panes named col h within distinct focus))
            (positive_same col.target_width h.wide) refl refl

  read-step :
      (o : Members) (rest : Items) (i : ℕ) (cols : List (Column F)) (any : Bool) (k : ℕ)
      (col : Column F)
      → wanted_column ids is_notebook o i cols ≡ some k
      → get_elem? cols k ≡ some col
      → read_columns ids is_notebook (item (object o) rest) i cols any
        ≡ read_columns ids is_notebook rest
            (suc i)
            (set cols k (read_column ids is_notebook o col))
            (any || bool_member o (codes "maximized") false)
  read-step o rest i cols any k col e f = ground arith

  wanted-found :
      (o : Members) (i k : ℕ) (cols : List (Column F))
      → column_index_by_id ids is_notebook (string_member o (codes "paneId") []) cols ≡ some k
      → wanted_column ids is_notebook o i cols ≡ some k
  wanted-found o i k cols e = ground arith

  -- The loop over the saved columns finds the column of each and makes it what it was.
  pub read_columns-eq :
      (before rest : List (Column F)) (i : ℕ) (any : Bool)
      → All ColumnOk before
      → Within panes (all_panes before)
      → All IsSavable rest
      → Within panes (all_panes rest)
      → IsPanes is_notebook (all_panes rest)
      → Apart (all_panes rest) (all_panes before)
      → read_columns ids is_notebook
          (save_columns ids is_notebook rest)
          i
          (before ++ map (blank) rest)
          any
        ≡ (before ++ map restored rest, any || any_maximized rest)
  read_columns-eq before [] i any o k h within distinct apart = ground arith
  read_columns-eq before (col ∷ rest) i any o k h within distinct apart =
      let focus = FocusedPane-of col h.0.ok in
      let mine = All-left (λ w. has w panes ≡ true) col.panes (all_panes rest) within in
      let others = All-right (λ w. has w panes ≡ true) col.panes (all_panes rest) within in
      let (d, e, apart_rest) = IsPanes-split is_notebook col.panes (all_panes rest) distinct in
      let there = has-get_elem? col.panes focus.index focus.pane focus.found in
      let after = map (blank) rest in
      let same = members ids is_notebook panes named col h.0 mine d focus in
      read-step (save_column ids is_notebook col) (save_columns ids is_notebook rest) i
        (before ++ blank col ∷ after) any (length before) (blank col)
        (wanted-found (save_column ids is_notebook col) i (length before)
          (before ++ blank col ∷ after)
          (ap
              (λ o.
                column_index_by_id ids is_notebook (string_member o (codes "paneId") [])
                  (before ++ blank col ∷ after))
              same
            ∙ column_index_by_id-eq ids is_notebook panes named focus.pane
                (pane_there col h.0 mine d focus) before after (blank col) o k
                (apart focus.pane
                  (ground (arith, has-append focus.pane col.panes (all_panes rest), there)))
                mine there))
        (get_elem?-length_append before after (blank col))
      ∙ ap₂
          (λ l b.
            read_columns ids is_notebook (save_columns ids is_notebook rest) (suc i) l (any || b))
          (set-length_append before after (blank col) _
            ∙ ap (λ c. before ++ c ∷ after) (read_column-eq col h.0 mine d focus)
            ∙ sym (append_assoc before (restored col ∷ []) after))
          (ap (λ o. bool_member o (codes "maximized") false) same)
      ∙ read_columns-eq (before ++ restored col ∷ []) rest (suc i) (any || col.maximized)
          (All-append ColumnOk before (restored col ∷ []) o (ok_restored col h.0.ok, tt))
          (subst (Within panes) (sym (all_panes-append before (restored col ∷ []))) (
            All-append (λ w. has w panes ≡ true) (all_panes before) (all_panes (restored col ∷ []))
              k (subst (Within panes) (sym (append-nil col.panes)) mine)))
          h.1 others e
          (λ v j.
            rw
              (
                all_panes-append before (restored col ∷ []),
                has-append v (all_panes before) (all_panes (restored col ∷ [])),
                append-nil col.panes,
                apart_rest v j,
                apart v (ground (arith, has-append v col.panes (all_panes rest), j)),
              )
              refl)
      ∙ ap₂ (λ l b. (l, b)) (append_assoc before (restored col ∷ []) (map restored rest))
          (or_assoc any col.maximized (any_maximized rest))
