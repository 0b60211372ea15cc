-- ===== src/Session/Refocus.antt =====
-- The focus and the maximized column of a saved strip, in the columns that were built from it.
use prettymux.Prelude.{
  ℕ, zero, suc, ◌≡◌, refl, sym, ap, ap₂, ◌∙◌, subst, Bool, true, false, none, some, List, [], ◌∷◌,
  ◌++◌, arith, All, map, if◌then◌else◌, length, get_elem?, set, lt→ltb, length-map, ◌<◌,
  lt_of_get_elem?,
}
use prettymux.Prelude.Int.{ℤ, pos, negsuc}
use prettymux.Prelude.Text.{Text, codes}
use prettymux.Json.{Members, string_member, int_member}
use prettymux.Strip.Model.{Widget, Double, Column, Strip}
use prettymux.Strip.Invariant.Kept.{ColumnOk}
use prettymux.Layout.Panes.{IsPanes, has, has-append}
use prettymux.Session.Lookup.{in_range, column_index_by_id, pane_index_by_id}
use prettymux.Session.Restore.{all_panes}
use prettymux.Session.Seen.{Apart, All-left, All-right, IsPanes-split}
use prettymux.Session.Ids.{IsNamed, Within, pane_index-position, position-get_elem?, has-get_elem?}
use prettymux.Session.Saved.{IsSavable, FocusedPane, FocusedPane-of, column_pane_id-eq}
use prettymux.Session.Built.{restored}
use prettymux.Session.Index.{get_elem?-length_append, set-length_append, column_index_by_id-eq}
use prettymux.Session.Reread.{
  read_columns-eq, any_maximized, pane_there, ok_restored, all_panes-append,
}
use prettymux.Session.Read.{
  reset_column, read_columns, focus_saved_pane, read_strip_focus, legacy_maximized, maximize_at,
  read_strip,
}
use prettymux.Session.Save.{
  saved_state, has_any, save_columns, save_panes, saved_focus, first_maximized, not_negative,
  column_pane_id,
}

not_negative-pos : (j : ℕ) → not_negative (pos j) ≡ pos j
not_negative-pos j = ground arith

in_range-lt : (j n : ℕ) → j < n → in_range (pos j) n ≡ pos j
in_range-lt j n h = rw (lt→ltb j n h) refl

-- The columns before and behind the one at an index.
split_at :
    {C : Type 0} (l : List C) (j : ℕ) (c : C)
    → get_elem? l j ≡ some c
    → (before : List C) × (after : List C) × (l ≡ before ++ c ∷ after) × (length before ≡ j)
split_at [] j c e = cc
split_at (x ∷ l) zero c e = ([], l, cc, refl)
split_at (x ∷ l) (suc j) c e =
    let (before, after, shape, at) = split_at l j c e in
    (x ∷ before, after, ap (λ k. x ∷ k) shape, ap suc at)

map-append_fn : {C D : Type 0} (f : C → D) (l m : List C) → map f (l ++ m) ≡ map f l ++ map f m
map-append_fn f [] m = refl
map-append_fn f (x ∷ l) m = ap (λ k. f x ∷ k) (map-append_fn f l m)

module _ {F : Type 0} ⦃num : Double F⦄ where
  pub all_panes-restored : (cols : List (Column F)) → all_panes (map restored cols) ≡ all_panes cols
  all_panes-restored [] = refl
  all_panes-restored (c ∷ cols) = ap (λ l. c.panes ++ l) (all_panes-restored cols)

  restored-All : (cols : List (Column F)) → All IsSavable cols → All ColumnOk (map restored cols)
  restored-All [] h = tt
  restored-All (c ∷ cols) h = (ok_restored c h.0.ok, restored-All cols h.1)

module _ (ids : Widget → Text) (is_notebook : Widget → Bool) {F : Type 0} where
  saved_focus-eq :
      (cols : List (Column F)) (focused : ℤ) (j : ℕ) (col : Column F)
      → focused ≡ pos j
      → get_elem? cols j ≡ some col
      → saved_focus ids is_notebook cols (not_negative focused)
        ≡ (pos j, column_pane_id ids is_notebook col)
  saved_focus-eq cols focused j col e f =
      ap (saved_focus ids is_notebook cols) (ap not_negative e ∙ not_negative-pos j)
      ∙ (ground arith)

  -- No column is maximized.
  first_maximized-none :
      (i : ℕ) (cols : List (Column F))
      → any_maximized cols ≡ false
      → first_maximized ids is_notebook i cols ≡ (negsuc 0, [])
  first_maximized-none i [] h = refl
  first_maximized-none i (c ∷ cols) h = ground (arith, first_maximized-none (suc i) cols)

module _ (ids : Widget → Text) (is_notebook : Widget → Bool) (panes : List Widget)
    (named : IsNamed ids is_notebook panes) {F : Type 0} ⦃num : Double F⦄ where
  focus-step :
      (id : Text) (cols : List (Column F)) (k i : ℕ) (col : Column F)
      → column_index_by_id ids is_notebook id cols ≡ some k
      → get_elem? cols k ≡ some col
      → pane_index_by_id ids is_notebook id col ≡ some i
      → focus_saved_pane ids is_notebook id cols
        ≡ some (k, set cols k (record col { focused_pane = pos i }))
  focus-step id cols k i col e f g = ground arith

  -- The focus on the saved pane is the focus on the saved column.
  module _ (before after : List (Column F)) (col : Column F) (h : IsSavable col)
      (o : All ColumnOk before) (within : Within panes (all_panes before))
      (mine : Within panes col.panes) (distinct : IsPanes is_notebook col.panes)
      (apart : Apart col.panes (all_panes before)) (focus : FocusedPane col) where
    focus_saved_pane-eq :
        focus_saved_pane ids is_notebook (ids focus.pane) (before ++ restored col ∷ after)
        ≡ some (length before, before ++ restored col ∷ after)
    focus_saved_pane-eq =
        let there = has-get_elem? col.panes focus.index focus.pane focus.found in
        let known = pane_there ids is_notebook panes named col h mine distinct focus in
        focus-step (ids focus.pane) (before ++ restored col ∷ after) (length before) focus.index
          (restored col)
          (column_index_by_id-eq ids is_notebook panes named focus.pane known before after
            (restored col) o within (apart focus.pane there) mine there)
          (get_elem?-length_append before after (restored col))
          (pane_index-position ids is_notebook panes named focus.pane known (restored col) mine
            ∙ position-get_elem? is_notebook col.panes focus.index focus.pane distinct focus.found)
        ∙ ap (λ l. some (length before, l))
            (set-length_append before after (restored col) _
              ∙ ap (λ f. before ++ record (restored col) { focused_pane = f } ∷ after)
                  (sym focus.at))

  focus_between :
      (before after : List (Column F)) (col : Column F)
      → All IsSavable (before ++ col ∷ after)
      → Within panes (all_panes (before ++ col ∷ after))
      → IsPanes is_notebook (all_panes (before ++ col ∷ after))
      → focus_saved_pane ids is_notebook
          (column_pane_id ids is_notebook col)
          (map restored (before ++ col ∷ after))
        ≡ some (length before, map restored (before ++ col ∷ after))
  focus_between before after col h within distinct =
      let savable = (All-right IsSavable before (col ∷ after) h).0 in
      let focus = FocusedPane-of col savable.ok in
      let there : Widget → Type 0 = λ w. has w panes ≡ true in
      let inside = subst (Within panes) (all_panes-append before (col ∷ after)) within in
      let mine =
        All-left there col.panes (all_panes after)
          (All-right there (all_panes before) (all_panes (col ∷ after)) inside) in
      let (d, e, apart) =
        IsPanes-split is_notebook (all_panes before) (all_panes (col ∷ after))
          (subst (IsPanes is_notebook) (all_panes-append before (col ∷ after)) distinct) in
      let own = (IsPanes-split is_notebook col.panes (all_panes after) e).0 in
      ap (λ l. focus_saved_pane ids is_notebook (column_pane_id ids is_notebook col) l)
        (map-append_fn restored before (col ∷ after))
      ∙ ap
          (λ id.
            focus_saved_pane ids is_notebook id
              (map restored before ++ restored col ∷ map restored after))
          (column_pane_id-eq ids is_notebook panes named col savable mine focus)
      ∙ focus_saved_pane-eq (map restored before) (map restored after) col savable
          (restored-All before (All-left IsSavable before (col ∷ after) h))
          (subst (Within panes) (sym (all_panes-restored before))
            (All-left there (all_panes before) (all_panes (col ∷ after)) inside))
          mine own
          (λ v k.
            rw (all_panes-restored before)
              (apart v (ground (arith, has-append v col.panes (all_panes after), k))))
          focus
      ∙ ap₂ (λ k l. some (k, l)) (length-map restored before)
          (sym (map-append_fn restored before (col ∷ after)))

  -- In all the columns, where `j` is the focused one.
  focus_saved-eq :
      (cols : List (Column F)) (j : ℕ) (col : Column F)
      → All IsSavable cols
      → Within panes (all_panes cols)
      → IsPanes is_notebook (all_panes cols)
      → get_elem? cols j ≡ some col
      → focus_saved_pane ids is_notebook (column_pane_id ids is_notebook col) (map restored cols)
        ≡ some (j, map restored cols)
  focus_saved-eq cols j col h within distinct found =
      let (before, after, shape, at) = split_at cols j col found in
      subst
        (λ i.
          focus_saved_pane ids is_notebook (column_pane_id ids is_notebook col) (map restored cols)
          ≡ some (i, map restored cols))
        at
        (subst
          (λ c.
            focus_saved_pane ids is_notebook (column_pane_id ids is_notebook col) (map restored c)
            ≡ some (length before, map restored c))
          (sym shape)
          (focus_between before after col (subst (All IsSavable) shape h)
            (subst (λ c. Within panes (all_panes c)) shape within)
            (subst (λ c. IsPanes is_notebook (all_panes c)) shape distinct)))

  legacy-none :
      (o : Members) (cols : List (Column F))
      → string_member o (codes "maximizedPaneId") [] ≡ []
      → int_member o (codes "maximizedColumn") (negsuc 0) ≡ negsuc 0
      → legacy_maximized ids is_notebook o cols ≡ none
  legacy-none o cols e f = unfold column_index_by_id in ground arith

  read_strip_focus-found :
      (o : Members) (i : ℤ) (cols : List (Column F)) (j : ℕ)
      → focus_saved_pane ids is_notebook (string_member o (codes "focusedPaneId") []) cols
        ≡ some (j, cols)
      → read_strip_focus ids is_notebook o i cols ≡ (in_range (pos j) (length cols), cols)
  read_strip_focus-found o i cols j e = ground arith

  -- `read_strip` behind the loop over the saved columns.
  abbrev read_rest : Members → ℤ → List (Column F) × Bool → ℤ × List (Column F)
  read_rest o old (read, any) =
      let (focus, focused) = read_strip_focus ids is_notebook o old read in
      (
        focus,
        if any then focused else maximize_at (legacy_maximized ids is_notebook o focused) focused,
      )

  read_rest-eq :
      (o : Members) (old : ℤ) (cols : List (Column F)) (any : Bool) (focus : ℤ)
      → read_strip_focus ids is_notebook o old cols ≡ (focus, cols)
      → (any ≡ false → legacy_maximized ids is_notebook o cols ≡ none)
      → read_rest o old (cols, any) ≡ (focus, cols)
  read_rest-eq o old cols true focus e none_left = ground arith
  read_rest-eq o old cols false focus e none_left = ground (arith, none_left refl)

  -- The members of a saved strip make of the reset columns what the strip was.
  pub read_strip-eq :
      {B : Type 0} (others : List Widget) (state : Strip F B) (old : ℤ) (c : Column F)
      (rest : List (Column F)) (j : ℕ) (col : Column F)
      → state.columns ≡ c ∷ rest
      → state.focused_col ≡ pos j
      → get_elem? state.columns j ≡ some col
      → All IsSavable state.columns
      → Within panes (all_panes state.columns)
      → IsPanes is_notebook (all_panes state.columns)
      → read_strip ids is_notebook
          (saved_state ids is_notebook others (some state))
          old
          (map (λ c. reset_column (restored c)) state.columns)
        ≡ (pos j, map restored state.columns)
  read_strip-eq others state old c rest j col shape at found h within distinct =
      let o = saved_state ids is_notebook others (some state) in
      let cols = map restored state.columns in
      ap (λ r. read_rest o old r)
        (ap
            (λ b.
              read_columns ids is_notebook
                (if b
                  then save_columns ids is_notebook state.columns
                  else save_panes ids is_notebook others)
                0 (map (λ c. reset_column (restored c)) state.columns) false)
            (ap has_any shape)
          ∙ read_columns-eq ids is_notebook panes named [] state.columns 0 false tt tt h within
              distinct (λ v k. refl))
      ∙ read_rest-eq o old cols (any_maximized state.columns) (pos j)
          (read_strip_focus-found o old cols j (
              ap (λ (f : ℤ × Text). focus_saved_pane ids is_notebook f.1 cols)
                (saved_focus-eq ids is_notebook state.columns state.focused_col j col at found)
              ∙ focus_saved-eq state.columns j col h within distinct found)
            ∙ ap (λ i. (i, cols))
                (in_range-lt j (length cols) (
                  omega (
                    arith,
                    lt_of_get_elem? state.columns j found,
                    length-map restored state.columns,
                  ))))
          (λ e.
            legacy-none o cols
              (ap (λ (f : ℤ × Text). f.1) (first_maximized-none ids is_notebook 0 state.columns e))
              (ap (λ (f : ℤ × Text). f.0) (first_maximized-none ids is_notebook 0 state.columns e)))
