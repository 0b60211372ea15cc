-- ===== src/Session/Seen.antt =====
-- The panes seen so far, and lists of panes in two parts.
use prettymux.Prelude.{
  ◌≡◌, refl, subst, Bool, true, false, ◌||◌, List, [], ◌∷◌, ◌++◌, arith, ◌==◌, All, Bool-cases, inl,
  inr,
}
use prettymux.Strip.Model.{Widget}
use prettymux.Layout.Panes.{IsPanes, has, has-cons, has-append}

-- The panes of a column on top of those seen before.
abbrev pub push : List Widget → List Widget → List Widget
push [] seen = seen
push (w ∷ l) seen = push l (w ∷ seen)

pub has-push : (v : Widget) (l seen : List Widget) → has v (push l seen) ≡ (has v l || has v seen)
has-push v [] seen = refl
has-push v (w ∷ l) seen = ground (arith, has-push v l (w ∷ seen), has-cons v w l, has-cons v w seen)

-- No pane of the first list is in the second.
abbrev pub Apart : List Widget → List Widget → Type 0
Apart l seen = (v : Widget) → has v l ≡ true → has v seen ≡ false

-- A list in two parts.
pub All-left : {A : Type 0} (P : A → Type 0) (l m : List A) → All P (l ++ m) → All P l
All-left P [] m h = tt
All-left P (x ∷ l) m h = (h.0, All-left P l m h.1)

pub All-right : {A : Type 0} (P : A → Type 0) (l m : List A) → All P (l ++ m) → All P m
All-right P [] m h = h
All-right P (x ∷ l) m h = All-right P l m h.1

pub IsPanes-split :
    (is_notebook : Widget → Bool) (l m : List Widget)
    → IsPanes is_notebook (l ++ m)
    → IsPanes is_notebook l × IsPanes is_notebook m × Apart m l
IsPanes-split is_notebook [] m h = (tt, h, λ v k. refl)
IsPanes-split is_notebook (x ∷ l) m h =
    let (d, e, a) = IsPanes-split is_notebook l m h.2 in
    (
      (h.0, ground (arith, h.1, has-append x l m), d),
      e,
      λ v k. elim (Bool-cases (x == v)) [
        | inl same ↦
            let there : has x m ≡ true =
              subst (λ y. has y m ≡ true) {x = v} {y = x} (ground arith) k in
            absurd (ground (arith, h.1, has-append x l m))
        | inr other ↦ ground (arith, a v k, has-cons v x l)
      ],
    )
