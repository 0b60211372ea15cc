-- ===== src/Session/Ids.antt =====
-- Panes that each have an id of their own are found by it.
use prettymux.Prelude.{
  ℕ, zero, suc, ◌≡◌, refl, sym, ap, ◌∙◌, Bool, true, false, none, some, List, [], ◌∷◌, arith, ◌==◌,
  All, Bool-cases, inl, inr, if◌then◌else◌, get_elem?,
}
use prettymux.Prelude.Text.{Text, text_eq, text_eq_refl, is_empty}
use prettymux.Strip.Model.{Widget, Column}
use prettymux.Strip.Column.{position}
use prettymux.Layout.{is_pane}
use prettymux.Layout.Panes.{IsPanes, has, has-cons}
use prettymux.Session.Lookup.{pane_by_id_in, pane_by_id, id_position, pane_index_by_id}
use prettymux.Session.Build.{first_with_id}

pub All-has :
    {P : Widget → Type 0} (l : List Widget) → ((w : Widget) → has w l ≡ true → P w) → All P l
All-has [] f = tt
All-has (x ∷ l) f =
    (f x (ground (arith, has-cons x x l)), All-has l (λ w h. f w (ground (arith, has-cons w x l))))

-- Panes of an array.
abbrev pub Within : List Widget → List Widget → Type 0
Within panes l = All (λ w. has w panes ≡ true) l

module _ (ids : Widget → Text) (is_notebook : Widget → Bool) where
  -- Each pane of the array is a notebook with an id, and no other pane has that id.
  pub record IsNamed (panes : List Widget) : Type 0 where
    pub notebooks : (w : Widget) → has w panes ≡ true → is_pane is_notebook w ≡ true
    pub named : (w : Widget) → has w panes ≡ true → is_empty (ids w) ≡ false
    pub apart :
        (v w : Widget)
        → has v panes ≡ true
        → has w panes ≡ true
        → text_eq (ids v) (ids w) ≡ true
        → v ≡ w

  module _ (panes : List Widget) (named : IsNamed panes) where
    pub text_eq-ids :
        (v w : Widget)
        → has v panes ≡ true
        → has w panes ≡ true
        → text_eq (ids v) (ids w) ≡ (v == w)
    text_eq-ids v w h k = elim (Bool-cases (v == w)) [
      | inl same ↦
          let e : v ≡ w = ground arith in
          ap (λ x. text_eq (ids x) (ids w)) e ∙ text_eq_refl (ids w) ∙ sym same
      | inr other ↦ elim (Bool-cases (text_eq (ids v) (ids w))) [
        | inl t ↦ absurd (ground (arith, named.apart v w h k t))
        | inr f ↦ f ∙ sym other
      ]
    ]

    module _ (w : Widget) (h : has w panes ≡ true) where
      pane_by_id_in-ids :
          (l : List Widget)
          → Within panes l
          → pane_by_id_in ids (ids w) l ≡ (if has w l then some w else none)
      pane_by_id_in-ids [] k = refl
      pane_by_id_in-ids (x ∷ l) k =
          rw (has-cons w x l, text_eq-ids x w k.0 h)
            (elim (Bool-cases (x == w)) [
              | inl same ↦ ground arith
              | inr other ↦ rw other (pane_by_id_in-ids l k.1)
            ])

      pub pane_by_id-ids : pane_by_id ids (ids w) panes ≡ some w
      unfolding pane_by_id
      pane_by_id-ids =
          rw (named.named w h, pane_by_id_in-ids panes (All-has panes (λ v e. e)), h) refl

      pub id_position-position :
          (l : List Widget) → Within panes l → id_position ids is_notebook (ids w) l ≡ position w l
      id_position-position [] k = refl
      id_position-position (x ∷ l) k =
          rw (text_eq-ids x w k.0 h, named.notebooks x k.0, id_position-position l k.1) refl

      pub first_with_id-position :
          (l : List Widget) → Within panes l → first_with_id ids (ids w) l ≡ position w l
      first_with_id-position [] k = refl
      first_with_id-position (x ∷ l) k =
          rw (text_eq-ids x w k.0 h, first_with_id-position l k.1) refl

      pub pane_index-position :
          {F : Type 0} (col : Column F)
          → Within panes col.panes
          → pane_index_by_id ids is_notebook (ids w) col ≡ position w col.panes
      unfolding pane_index_by_id
      pane_index-position col k = rw (named.named w h) (id_position-position col.panes k)

-- The position of the element at an index, where nothing repeats.
pub position-get_elem? :
    (is_notebook : Widget → Bool) (l : List Widget) (k : ℕ) (w : Widget)
    → IsPanes is_notebook l
    → get_elem? l k ≡ some w
    → position w l ≡ some k
position-get_elem? is_notebook [] k w h e = cc
position-get_elem? is_notebook (x ∷ l) zero w h e = ground arith
position-get_elem? is_notebook (x ∷ l) (suc k) w h e =
    ground (arith, position-get_elem? is_notebook l k w h.2 e, has-cons w x l, h.1)

pub has-get_elem? : (l : List Widget) (k : ℕ) (w : Widget) → get_elem? l k ≡ some w → has w l ≡ true
has-get_elem? [] k w e = cc
has-get_elem? (x ∷ l) zero w e = ground (arith, has-cons w x l)
has-get_elem? (x ∷ l) (suc k) w e = ground (arith, has-cons w x l, has-get_elem? l k w e)
