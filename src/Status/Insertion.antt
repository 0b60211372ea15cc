-- ===== src/Status/Insertion.antt =====
-- Sorting by insertion does what GLib documents of its sorting, so that the list of status entries can be
-- computed in examples.
use prettymux.Prelude.{
  zero, suc, ◌≡◌, refl, sym, ap, ◌∙◌, true, false, List, [], ◌∷◌, arith, if◌then◌else◌, Bool-cases,
  inl, inr, ◌⊎◌, All,
}
use prettymux.Prelude.Int.{ℤ, pos, negsuc, ltb_ℤ}
use prettymux.Prelude.Text.{Text, text_eq, text_eq_sound, text_eq_refl}
use prettymux.Status.{StatusEntry, compare_entries, strcmp}
use prettymux.Status.Order.{compare-opposite, opposite}
use prettymux.Status.Preview.{Has}
use prettymux.Status.Sorted.{DistinctIds, Ordered, IsSort}

abbrev insert : StatusEntry → List StatusEntry → List StatusEntry
insert e [] = e ∷ []
insert e (x ∷ l) =
    let rest = insert e l in if ltb_ℤ (pos 0) (compare_entries e x) then x ∷ rest else e ∷ x ∷ l

abbrev pub insertion_sort : List StatusEntry → List StatusEntry
insertion_sort [] = []
insertion_sort (e ∷ l) = insert e (insertion_sort l)

All-insert :
    (P : StatusEntry → Type 0) (e : StatusEntry) (l : List StatusEntry)
    → P e
    → All P l
    → All P (insert e l)
All-insert P e [] h k = (h, tt)
All-insert P e (x ∷ l) h k = elim (Bool-cases (ltb_ℤ (pos 0) (compare_entries e x))) [
  | inl behind ↦ rw behind (k.0, All-insert P e l h k.1)
  | inr front ↦ rw front (h, k)
]

All-sort : (P : StatusEntry → Type 0) (l : List StatusEntry) → All P l → All P (insertion_sort l)
All-sort P [] h = tt
All-sort P (e ∷ l) h = All-insert P e (insertion_sort l) h.0 (All-sort P l h.1)

-- An entry behind the second one.
move_in : {A B C D : Type 0} → (A → D) → (C → D) → A ⊎ (B ⊎ C) → B ⊎ D
move_in f g (inl a) = inr (f a)
move_in f g (inr (inl b)) = inl b
move_in f g (inr (inr c)) = inr (g c)

move_out : {A B C D : Type 0} → (D → A ⊎ C) → B ⊎ D → A ⊎ (B ⊎ C)
move_out f (inl b) = inr (inl b)
move_out f (inr d) = elim (f d) [ inl a ↦ inl a | inr c ↦ inr (inr c) ]

Has-insert : (a e : StatusEntry) (l : List StatusEntry) → Has a (e ∷ l) → Has a (insert e l)
Has-insert a e [] h = h
Has-insert a e (x ∷ l) h = elim (Bool-cases (ltb_ℤ (pos 0) (compare_entries e x))) [
  | inl behind ↦ rw behind (
      move_in {A = e ≡ a} {B = x ≡ a} {C = Has a l} {D = Has a (insert e l)}
        (λ head. Has-insert a e l (inl head)) (λ later. Has-insert a e l (inr later)) h)
  | inr front ↦ rw front h
]

insert-Has : (a e : StatusEntry) (l : List StatusEntry) → Has a (insert e l) → Has a (e ∷ l)
insert-Has a e [] h = h
insert-Has a e (x ∷ l) h = elim (Bool-cases (ltb_ℤ (pos 0) (compare_entries e x))) [
  | inl behind ↦
      move_out {A = e ≡ a} {B = x ≡ a} {C = Has a l} {D = Has a (insert e l)} (insert-Has a e l)
        (rw behind at h)
  | inr front ↦ rw front at h
]

sort-stays : (l : List StatusEntry) (a : StatusEntry) → Has a l → Has a (insertion_sort l)
sort-stays [] a h = h
sort-stays (e ∷ l) a (inl head) = Has-insert a e (insertion_sort l) (inl head)
sort-stays (e ∷ l) a (inr later) = Has-insert a e (insertion_sort l) (inr (sort-stays l a later))

sort-comes : (l : List StatusEntry) (a : StatusEntry) → Has a (insertion_sort l) → Has a l
sort-comes [] a h = h
sort-comes (e ∷ l) a h = elim (insert-Has a e (insertion_sort l) h) [
  | inl head ↦ inl head
  | inr later ↦ inr (sort-comes l a later)
]

-- Ids that differ one way around differ the other.
text_eq_sym : (s t : Text) → text_eq s t ≡ false → text_eq t s ≡ false
text_eq_sym s t h = elim (Bool-cases (text_eq t s)) [
  | inl same ↦
      absurd (true_false (sym (text_eq_refl s) ∙ ap (text_eq s) (sym (text_eq_sound t s same)) ∙ h))
  | inr apart ↦ apart
]
  where
    true_false : true ≡ false → ⊥
    true_false e = cc

insert-DistinctIds :
    (e : StatusEntry) (l : List StatusEntry)
    → All (λ x. text_eq e.entry_id x.entry_id ≡ false) l
    → DistinctIds l
    → DistinctIds (insert e l)
insert-DistinctIds e [] h d = (tt, tt)
insert-DistinctIds e (x ∷ l) h d = elim (Bool-cases (ltb_ℤ (pos 0) (compare_entries e x))) [
  | inl behind ↦ rw behind (
    All-insert (λ z. text_eq x.entry_id z.entry_id ≡ false) e l
        (text_eq_sym e.entry_id x.entry_id h.0) d.0,
    insert-DistinctIds e l h.1 d.1,
  )
  | inr front ↦ rw front (h, d)
]

sort-DistinctIds : (l : List StatusEntry) → DistinctIds l → DistinctIds (insertion_sort l)
sort-DistinctIds [] d = tt
sort-DistinctIds (e ∷ l) d =
    insert-DistinctIds e (insertion_sort l)
      (All-sort (λ x. text_eq e.entry_id x.entry_id ≡ false) l d.0) (sort-DistinctIds l d.1)

strcmp_le_trans :
    (s t u : Text)
    → ltb_ℤ (pos 0) (strcmp s t) ≡ false
    → ltb_ℤ (pos 0) (strcmp t u) ≡ false
    → ltb_ℤ (pos 0) (strcmp s u) ≡ false
strcmp_le_trans [] [] [] h k = refl
strcmp_le_trans [] [] (x ∷ u) h k = refl
strcmp_le_trans [] (d ∷ t) [] h k = refl
strcmp_le_trans [] (d ∷ t) (x ∷ u) h k = refl
strcmp_le_trans (c ∷ s) [] u h k = cc
strcmp_le_trans (c ∷ s) (d ∷ t) [] h k = cc
strcmp_le_trans (c ∷ s) (d ∷ t) (x ∷ u) h k = ground (arith, strcmp_le_trans s t u)

compare_le_trans :
    (a b c : StatusEntry)
    → ltb_ℤ (pos 0) (compare_entries a b) ≡ false
    → ltb_ℤ (pos 0) (compare_entries b c) ≡ false
    → ltb_ℤ (pos 0) (compare_entries a c) ≡ false
unfolding compare_entries
compare_le_trans a b c h k = ground (arith, strcmp_le_trans a.entry_id b.entry_id c.entry_id)

behind_rest :
    (e x : StatusEntry) (l : List StatusEntry)
    → ltb_ℤ (pos 0) (compare_entries e x) ≡ false
    → All (λ z. ltb_ℤ (pos 0) (compare_entries x z) ≡ false) l
    → All (λ z. ltb_ℤ (pos 0) (compare_entries e z) ≡ false) l
behind_rest e x [] h k = tt
behind_rest e x (z ∷ l) h k = (compare_le_trans e x z h k.0, behind_rest e x l h k.1)

turned : (r : ℤ) → ltb_ℤ (pos 0) r ≡ true → ltb_ℤ (pos 0) (opposite r) ≡ false
turned (pos zero) h = cc
turned (pos (suc n)) h = ground arith
turned (negsuc n) h = ground arith

insert-Ordered : (e : StatusEntry) (l : List StatusEntry) → Ordered l → Ordered (insert e l)
insert-Ordered e [] o = (tt, tt)
insert-Ordered e (x ∷ l) o = elim (Bool-cases (ltb_ℤ (pos 0) (compare_entries e x))) [
  | inl behind ↦
      let front : ltb_ℤ (pos 0) (compare_entries x e) ≡ false =
        ap (ltb_ℤ (pos 0)) (compare-opposite e x) ∙ turned (compare_entries e x) behind in
      rw behind (
        All-insert (λ z. ltb_ℤ (pos 0) (compare_entries x z) ≡ false) e l front o.0,
        insert-Ordered e l o.1,
      )
  | inr front ↦ rw front ((front, behind_rest e x l front o.0), o)
]

sort-Ordered : (l : List StatusEntry) → Ordered (insertion_sort l)
sort-Ordered [] = tt
sort-Ordered (e ∷ l) = insert-Ordered e (insertion_sort l) (sort-Ordered l)

pub insertion_sort-IsSort : IsSort insertion_sort
insertion_sort-IsSort = record {
  stays = sort-stays;
  comes = sort-comes;
  distinct = sort-DistinctIds;
  ordered = sort-Ordered;
}
