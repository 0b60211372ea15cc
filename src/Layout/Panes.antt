-- ===== src/Layout/Panes.antt =====
-- Lists of notebooks without repetition: what `workspace_rebuild_add_saved_notebook` builds up, and what the
-- swap of the primary notebook to the front keeps.
use prettymux.Prelude.{
  ℕ, suc, ◌≡◌, refl, sym, ap, ◌∙◌, subst, Bool, true, false, not, ◌&&◌, ◌||◌, some, List, [], ◌∷◌,
  ◌++◌, arith, ◌==◌, set, Bool-cases, Option-cases, inl, inr,
}
use mathlib.Core.List.{append-nil, append_assoc}
use prettymux.Strip.Model.{Widget}
use prettymux.Strip.Column.{position, is_found}
use prettymux.Layout.{is_pane, add_saved_notebook, add_saved_notebooks, primary_first}

-- Is the pointer in the array?
abbrev pub has : Widget → List Widget → Bool
has w l = is_found (position w l)

pub has-cons : (w x : Widget) (l : List Widget) → has w (x ∷ l) ≡ (x == w || has w l)
has-cons w x l = elim (Option-cases (position w l)) [
  | inl e ↦ ground arith
  | inr (i, e) ↦ ground arith
]

pub has-append : (w : Widget) (l m : List Widget) → has w (l ++ m) ≡ (has w l || has w m)
has-append w [] m = refl
has-append w (x ∷ l) m = ground (arith, has-cons w x (l ++ m), has-cons w x l, has-append w l m)

module _ (is_notebook : Widget → Bool) where
  -- Notebooks, pairwise distinct.
  abbrev pub IsPanes : List Widget → Type 0
  IsPanes [] = Unit
  IsPanes (w ∷ l) = (is_pane is_notebook w ≡ true) × (has w l ≡ false) × IsPanes l

  append-IsPanes :
      (l : List Widget) (w : Widget)
      → IsPanes l
      → is_pane is_notebook w ≡ true
      → has w l ≡ false
      → IsPanes (l ++ w ∷ [])
  append-IsPanes [] w h p n = (p, refl, tt)
  append-IsPanes (x ∷ l) w h p n = (
    h.0,
    ground (arith, has-append x l (w ∷ []), has-cons w x l, has-cons x w [], h.1),
    append-IsPanes l w h.2 p (ground (arith, has-cons w x l)),
  )

  module _ (l : List Widget) (w : Widget) where
    pub add-IsPanes : IsPanes l → IsPanes (add_saved_notebook is_notebook l w)
    unfolding add_saved_notebook
    add-IsPanes h = elim (Bool-cases (is_pane is_notebook w)) [
      | inr n ↦ subst IsPanes {x = l} {y = add_saved_notebook is_notebook l w} (ground arith) h
      | inl p ↦ elim (Bool-cases (has w l)) [
        | inl n ↦ subst IsPanes {x = l} {y = add_saved_notebook is_notebook l w} (ground arith) h
        | inr n ↦
            subst IsPanes {x = l ++ w ∷ []} {y = add_saved_notebook is_notebook l w} (ground arith)
              (append-IsPanes l w h p n)
      ]
    ]

    -- What is added is there, when it is a notebook, and nothing else comes in.
    pub has-add :
        (v : Widget)
        → has v (add_saved_notebook is_notebook l w) ≡ (has v l || is_pane is_notebook w && w == v)
    unfolding add_saved_notebook
    has-add v = ground (arith, has-append v l (w ∷ []), has-cons v w [])

    pub add-same : has w l ≡ true → add_saved_notebook is_notebook l w ≡ l
    unfolding add_saved_notebook
    add-same h = ground arith

    pub add-new :
        is_pane is_notebook w ≡ true
        → has w l ≡ false
        → add_saved_notebook is_notebook l w ≡ l ++ w ∷ []
    unfolding add_saved_notebook
    add-new p h = ground arith

  pub adds-IsPanes : (l m : List Widget) → IsPanes l → IsPanes (add_saved_notebooks is_notebook l m)
  adds-IsPanes l [] h = h
  adds-IsPanes l (w ∷ m) h = adds-IsPanes (add_saved_notebook is_notebook l w) m (add-IsPanes l w h)

  -- What the swap does behind the front.
  swap_has :
      (rest : List Widget) (i : ℕ) (p f w : Widget)
      → position p rest ≡ some i
      → IsPanes rest
      → has w (set rest i f) ≡ (f == w || has w rest && not (p == w))
  swap_has [] i p f w e h = cc
  swap_has (x ∷ l) i p f w e h = elim (Bool-cases (x == p)) [
    | inl same ↦
        let at : i ≡ 0 = ground arith in
        rw (at, has-cons w f l, has-cons w x l) (ground (arith, h.1))
    | inr other ↦ elim (Option-cases (position p l)) [
      | inl n ↦ absurd (ground arith)
      | inr (j, found) ↦
          let at : i ≡ suc j = ground arith in
          rw (at, has-cons w x (set l j f), has-cons w x l, swap_has l j p f w found h.2)
            (ground arith)
    ]
  ]

  swap-IsPanes :
      (rest : List Widget) (i : ℕ) (p f : Widget)
      → position p rest ≡ some i
      → IsPanes rest
      → is_pane is_notebook f ≡ true
      → has f rest ≡ false
      → IsPanes (set rest i f)
  swap-IsPanes [] i p f e h k n = tt
  swap-IsPanes (x ∷ l) i p f e h k n = elim (Bool-cases (x == p)) [
    | inl same ↦
        subst (λ j. IsPanes (set (x ∷ l) j f)) {x = 0} {y = i} (ground arith)
          (k, ground (arith, has-cons f x l), h.2)
    | inr other ↦ elim (Option-cases (position p l)) [
      | inl none_found ↦ absurd (ground arith)
      | inr (j, found) ↦
          subst (λ j. IsPanes (set (x ∷ l) j f)) {x = suc j} {y = i} (ground arith)
            (
              h.0,
              ground (arith, swap_has l j p f x found h.2, h.1, has-cons f x l),
              swap-IsPanes l j p f found h.2 k (ground (arith, has-cons f x l)),
            )
    ]
  ]

  -- The primary notebook comes to the front, and the notebooks stay the same ones.
  pub primary_first-Panes :
      (p : Widget) (l : List Widget)
      → IsPanes l
      → has p l ≡ true
      → (rest : List Widget) × (primary_first p l ≡ p ∷ rest)
        × IsPanes (p ∷ rest)
        × ((w : Widget) → has w (p ∷ rest) ≡ has w l)
  primary_first-Panes p [] h i = cc
  primary_first-Panes p (x ∷ l) h i = elim (Bool-cases (x == p)) [
    | inl same ↦
        let at : x ≡ p = ground arith in
        (l, ground arith, subst (λ q. IsPanes (q ∷ l)) at h, λ w. ap (λ q. has w (q ∷ l)) (sym at))
    | inr other ↦ elim (Option-cases (position p l)) [
      | inl n ↦ absurd (ground arith)
      | inr (j, found) ↦ (
        set l j x,
        ground arith,
        (
          is_pane_at l p (ground arith) h.2,
          ground (arith, swap_has l j p x p found h.2),
          swap-IsPanes l j p x found h.2 h.0 h.1,
        ),
        λ w.
            rw (has-cons w p (set l j x), has-cons w x l, swap_has l j p x w found h.2)
              (member w l (ground arith)),
      )
    ]
  ]
    where
      is_pane_at :
          (l : List Widget) (p : Widget) → has p l ≡ true → IsPanes l → is_pane is_notebook p ≡ true
      is_pane_at [] p h k = cc
      is_pane_at (y ∷ m) p h k = elim (Bool-cases (y == p)) [
        | inl same ↦ subst (λ q. is_pane is_notebook q ≡ true) {x = y} {y = p} (ground arith) k.0
        | inr other ↦ is_pane_at m p (ground (arith, has-cons p y m)) k.2
      ]

      member :
          (w : Widget) (l : List Widget)
          → has p l ≡ true
          → (p == w || (x == w || has w l && not (p == w))) ≡ (x == w || has w l)
      member w l k = ground arith

  pub IsPanes-at :
      (l m : List Widget) (w : Widget)
      → IsPanes (l ++ w ∷ m)
      → (is_pane is_notebook w ≡ true) × (has w l ≡ false)
  IsPanes-at [] m w h = (h.0, refl)
  IsPanes-at (x ∷ l) m w h = (
    (IsPanes-at l m w h.2).0,
    ground (
      arith,
      (IsPanes-at l m w h.2).1,
      has-cons w x l,
      h.1,
      has-append x l (w ∷ m),
      has-cons x w m,
    ),
  )

  -- Adding distinct notebooks one by one appends them.
  pub adds-append :
      (l m : List Widget) → IsPanes (l ++ m) → add_saved_notebooks is_notebook l m ≡ l ++ m
  adds-append l [] h = sym (append-nil l)
  adds-append l (w ∷ m) h =
      ap (λ k. add_saved_notebooks is_notebook k m)
        (add-new l w (IsPanes-at l m w h).0 (IsPanes-at l m w h).1)
      ∙ adds-append (l ++ w ∷ []) m (subst IsPanes (sym (append_assoc l (w ∷ []) m)) h)
      ∙ append_assoc l (w ∷ []) m
