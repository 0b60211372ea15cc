-- ===== src/Routing/Pages.antt =====
-- On which page of which notebook a terminal stands (the inner loops of gtk/terminal_routing.c).
use prettymux.Prelude.{
  ℕ, suc, ◌+◌, ◌≡◌, refl, ap, ◌∙◌, ◌⊎◌, inl, inr, subst, none, some, List, [], ◌∷◌, ◌==◌, arith,
  All, get_elem?, Bool-cases, Option-cases,
}
use prettymux.Prelude.Int.{pos}
use prettymux.Strip.Model.{Widget}
use prettymux.Strip.Column.{position}
use prettymux.Routing.{SurfaceLookup, find_page}

position_sound :
    (w : Widget) (l : List Widget) (i : ℕ) → position w l ≡ some i → get_elem? l i ≡ some w
position_sound w [] i h = cc
position_sound w (x ∷ l) i h = elim (Bool-cases (x == w)) [
  | inl same ↦
      let at : 0 ≡ i = ground arith in subst (λ k. get_elem? (x ∷ l) k ≡ some w) at (ground arith)
  | inr other ↦ elim (Option-cases (position w l)) [
    | inl out ↦ absurd (ground arith)
    | inr (k, found) ↦
        let at : suc k ≡ i = ground arith in
        subst (λ k. get_elem? (x ∷ l) k ≡ some w) at (position_sound w l k found)
  ]
]

-- No page of the notebooks has the terminal, or the page at the index of the notebook at the index has it.
abbrev pub Paged : (Widget → List Widget) → List Widget → ℕ → SurfaceLookup → SurfaceLookup → Type 0
Paged pages notebooks i before after =
    ((after ≡ before) × All (λ nb. position before.terminal (pages nb) ≡ none) notebooks)
    ⊎ ((k : ℕ) × (pg : ℕ) × (nb : Widget) × (get_elem? notebooks k ≡ some nb)
        × (get_elem? (pages nb) pg ≡ some before.terminal)
        × (after ≡ record before { pane_notebook = nb; pane_idx = pos (i + k); tab_idx = pos pg }))

find_page-next :
    (pages : Widget → List Widget) (nb : Widget) (rest : List Widget) (i : ℕ)
    (before : SurfaceLookup)
    → position before.terminal (pages nb) ≡ none
    → find_page pages (nb ∷ rest) i before ≡ find_page pages rest (suc i) before
find_page-next pages nb rest i before out = rw (out, find_page) refl

find_page-here :
    (pages : Widget → List Widget) (nb : Widget) (rest : List Widget) (i : ℕ)
    (before : SurfaceLookup) (pg : ℕ)
    → position before.terminal (pages nb) ≡ some pg
    → find_page pages (nb ∷ rest) i before
      ≡ record before { pane_notebook = nb; pane_idx = pos i; tab_idx = pos pg }
find_page-here pages nb rest i before pg found = rw (found, find_page) refl

pub find_page-Paged :
    (pages : Widget → List Widget) (notebooks : List Widget) (i : ℕ) (before : SurfaceLookup)
    → Paged pages notebooks i before (find_page pages notebooks i before)
find_page-Paged pages [] i before = inl (refl, tt)
find_page-Paged pages (nb ∷ rest) i before =
    elim (Option-cases (position before.terminal (pages nb))) [
      | inl out ↦ elim (find_page-Paged pages rest (suc i) before) [
        | inl (same, all) ↦ inl (find_page-next pages nb rest i before out ∙ same, (out, all))
        | inr (k, pg, nb', notebook, page, same) ↦
            let at : suc i + k ≡ i + suc k = omega arith in
            inr (
              suc k,
              pg,
              nb',
              notebook,
              page,
              find_page-next pages nb rest i before out
                  ∙ same
                  ∙ ap
                      (λ n. record before {
                        pane_notebook = nb';
                        pane_idx = pos n;
                        tab_idx = pos pg;
                      })
                      at,
            )
      ]
      | inr (pg, found) ↦
          let at : i ≡ i + 0 = omega arith in
          inr (
            0,
            pg,
            nb,
            refl,
            position_sound before.terminal (pages nb) pg found,
            find_page-here pages nb rest i before pg found
                ∙ ap (λ n. record before { pane_notebook = nb; pane_idx = pos n; tab_idx = pos pg })
                    at,
          )
    ]
