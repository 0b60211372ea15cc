-- ===== src/Routing/Located.antt =====
-- What the search for a terminal finds (terminal_routing_find_for_id and terminal_routing_find_for_surface).
use prettymux.Prelude.{
  ℕ, suc, ◌+◌, ◌≡◌, refl, sym, ap, ◌⊎◌, inl, inr, subst, Bool, true, false, not, ◌&&◌, Option, none,
  some, List, [], ◌∷◌, ◌++◌, ◌==◌, arith, All, length, Bool-cases,
}
use prettymux.Prelude.Int.{pos}
use prettymux.Prelude.Text.{Text, is_empty}
use prettymux.Strip.Model.{Widget, null}
use prettymux.Routing.{
  SurfaceLookup, no_result, Place, Terminals, find_page, find_terminal, find_from, find_for_id,
  has_id,
}
use prettymux.Routing.Pages.{Paged, find_page-Paged}

module _ (matches : Widget → Bool) where
  abbrev pub Unmatched : Place → Type 0
  Unmatched ws = All (λ term. matches term ≡ false) ws.terminals

  -- The first one that matches.
  abbrev pub FirstMatch : List Widget → Option Widget → Type 0
  FirstMatch l none = All (λ term. matches term ≡ false) l
  FirstMatch l (some term) =
      (matches term ≡ true)
      × (before : List Widget) × (after : List Widget) × (l ≡ before ++ term ∷ after)
      × All (λ other. matches other ≡ false) before

  FirstMatch-later :
      (term : Widget) (l : List Widget) (o : Option Widget)
      → matches term ≡ false
      → FirstMatch l o
      → FirstMatch (term ∷ l) o
  FirstMatch-later term l none h all = (h, all)
  FirstMatch-later term l (some found) h (ok, before, after, same, all) =
      (ok, term ∷ before, after, ap (λ r. term ∷ r) same, (h, all))

  find_terminal-FirstMatch : (l : List Widget) → FirstMatch l (find_terminal matches l)
  find_terminal-FirstMatch [] = tt
  find_terminal-FirstMatch (term ∷ l) = elim (Bool-cases (matches term)) [
    | inl ok ↦
        let here : find_terminal matches (term ∷ l) ≡ some term = ground (arith) in
        subst (FirstMatch (term ∷ l)) (sym here) (ok, [], l, refl, tt)
    | inr bad ↦
        let next : find_terminal matches (term ∷ l) ≡ find_terminal matches l = ground (arith) in
        subst (FirstMatch (term ∷ l)) (sym next)
          (FirstMatch-later term l (find_terminal matches l) bad (find_terminal-FirstMatch l))
  ]

  abbrev pub found_at : Place → Widget → ℕ → SurfaceLookup
  found_at ws term i = record no_result {
    terminal = term;
    workspace = ws.address;
    workspace_idx = pos i;
  }

  -- No terminal of a workspace matches and there is no result; or the result is the first terminal that
  -- matches of the first workspace that has one, with the page on which it stands, if it stands on one.
  abbrev pub Located : Terminals → List Place → ℕ → SurfaceLookup → Type 0
  Located t workspaces i result =
      ((result ≡ no_result) × All Unmatched workspaces)
      ⊎ ((before : List Place) × (ws : Place) × (after : List Place) × (term : Widget) × (workspaces
            ≡ before ++ ws ∷ after)
          × All Unmatched before
          × FirstMatch ws.terminals (some term)
          × Paged t.pages ws.pane_notebooks 0 (found_at ws term (i + length before)) result)

  find_from-Located :
      (t : Terminals) (workspaces : List Place) (i : ℕ)
      → Located t workspaces i (find_from t matches workspaces i)
  find_from-Located t [] i = inl (refl, tt)
  find_from-Located t (ws ∷ rest) i =
      go (find_terminal matches ws.terminals) refl (find_terminal-FirstMatch ws.terminals)
        (find_from-Located t rest (suc i))
    where
      stepped :
          (o : Option Widget)
          → find_terminal matches ws.terminals ≡ o
          → find_from t matches (ws ∷ rest) i ≡ elim o [
            | none ↦ find_from t matches rest (suc i)
            | some term ↦ find_page t.pages ws.pane_notebooks 0 (found_at ws term i)
          ]
      stepped o e = rw (e, find_from) refl

      later :
          (r : SurfaceLookup) → Unmatched ws → Located t rest (suc i) r → Located t (ws ∷ rest) i r
      later r bad (inl (same, all)) = inl (same, (bad, all))
      later r bad (inr (before, ws', after, term, same, all, first, paged)) =
          let at : suc i + length before ≡ i + length (ws ∷ before) = omega arith in
          inr (
            ws ∷ before,
            ws',
            after,
            term,
            ap (λ l. ws ∷ l) same,
            (bad, all),
            first,
            subst (λ n. Paged t.pages ws'.pane_notebooks 0 (found_at ws' term n) r) at paged,
          )

      go :
          (o : Option Widget)
          → find_terminal matches ws.terminals ≡ o
          → FirstMatch ws.terminals o
          → Located t rest (suc i) (find_from t matches rest (suc i))
          → Located t (ws ∷ rest) i (find_from t matches (ws ∷ rest) i)
      go none e bad others =
          subst (Located t (ws ∷ rest) i) (sym (stepped none e))
            (later (find_from t matches rest (suc i)) bad others)
      go (some term) e first others =
          let at : i ≡ i + 0 = omega arith in
          subst (Located t (ws ∷ rest) i) (sym (stepped (some term) e)) (
            inr (
              [],
              ws,
              rest,
              term,
              refl,
              tt,
              first,
              subst
                  (λ n.
                    Paged t.pages ws.pane_notebooks 0 (found_at ws term n)
                      (find_page t.pages ws.pane_notebooks 0 (found_at ws term i)))
                  at (find_page-Paged t.pages ws.pane_notebooks 0 (found_at ws term i)),
            ))

-- The search for an id that is not empty finds nothing when no terminal of a workspace has it. Else it
-- finds the first terminal that has it, of the first workspace that has such a terminal, with the index of
-- that workspace; and a notebook and a page of it on which the terminal stands, or neither when it stands
-- on no page of its notebooks.
pub find_for_id-Located :
    (t : Terminals) (workspaces : List Place) (terminal_id : Text)
    → is_empty terminal_id ≡ false
    → Located
        (λ term. not (term == null) && has_id (t.id term) terminal_id)
        t
        workspaces
        0
        (find_for_id t workspaces terminal_id)
unfolding find_for_id
find_for_id-Located t workspaces terminal_id h = rw h (
    find_from-Located (λ term. not (term == null) && has_id (t.id term) terminal_id) t workspaces 0)
