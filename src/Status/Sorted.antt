-- ===== src/Status/Sorted.antt =====
-- The sidebar's list of status entries does not depend on the order of the hash table
-- (workspace_get_sorted_status_entries).
use prettymux.Prelude.{
  ◌≡◌, refl, sym, ap, ap₂, ◌∙◌, true, false, List, [], ◌∷◌, arith, length, ltb, Bool-cases, inl,
  inr, ◌⊎◌, All, subst,
}
use prettymux.Prelude.Int.{pos, negsuc, ltb_ℤ}
use prettymux.Prelude.Text.{Text, text_eq, text_eq_refl}
use prettymux.Status.{
  StatusEntry, Table, values, compare_entries, get_sorted_status_entries, strcmp,
}
use prettymux.Status.Order.{opposite, compare-opposite, strcmp-same}
use prettymux.Status.Preview.{Has}

-- The ids are pairwise distinct, as keys of a hash table are.
abbrev pub DistinctIds : List StatusEntry → Type 0
DistinctIds [] = Unit
DistinctIds (e ∷ rest) = All (λ x. text_eq e.entry_id x.entry_id ≡ false) rest × DistinctIds rest

-- No entry stands behind one that the comparison puts behind it.
abbrev pub Ordered : List StatusEntry → Type 0
Ordered [] = Unit
Ordered (e ∷ rest) = All (λ x. ltb_ℤ (pos 0) (compare_entries e x) ≡ false) rest × Ordered rest

-- What GLib documents of `g_ptr_array_sort`: the entries are rearranged in the order of the comparison.
pub record IsSort (sort : List StatusEntry → List StatusEntry) : Type 0 where
  pub stays : (l : List StatusEntry) (e : StatusEntry) → Has e l → Has e (sort l)
  pub comes : (l : List StatusEntry) (e : StatusEntry) → Has e (sort l) → Has e l
  pub distinct : (l : List StatusEntry) → DistinctIds l → DistinctIds (sort l)
  pub ordered : (l : List StatusEntry) → Ordered (sort l)

All-Has :
    (P : StatusEntry → Type 0) (l : List StatusEntry) (e : StatusEntry) → All P l → Has e l → P e
All-Has P [] e h k = elim k [ ]
All-Has P (x ∷ l) e h (inl same) = subst P same h.0
All-Has P (x ∷ l) e h (inr later) = All-Has P l e h.1 later

-- Each entry in front of all later ones.
abbrev Strict : List StatusEntry → Type 0
Strict [] = Unit
Strict (e ∷ rest) = All (λ x. compare_entries e x ≡ negsuc 0) rest × Strict rest

not_both : (a b : StatusEntry) → compare_entries a b ≡ negsuc 0 → compare_entries b a ≡ negsuc 0 → ⊥
not_both a b h k =
    let turned : opposite (compare_entries a b) ≡ pos 1 = ap opposite h in
    apart (sym k ∙ compare-opposite a b ∙ turned)
  where
    apart : negsuc 0 ≡ pos 1 → ⊥
    apart e = cc

not_itself : (a : StatusEntry) → compare_entries a a ≡ negsuc 0 → ⊥
not_itself a h = not_both a a h h

-- Lists in this order that have the same entries are equal.
unique :
    (l m : List StatusEntry)
    → Strict l
    → Strict m
    → ((e : StatusEntry) → Has e l → Has e m)
    → ((e : StatusEntry) → Has e m → Has e l)
    → l ≡ m
unique [] [] h k to_m to_l = refl
unique [] (y ∷ m) h k to_m to_l = absurd (to_l y (inl refl))
unique (x ∷ l) [] h k to_m to_l = absurd (to_m x (inl refl))
unique (x ∷ l) (y ∷ m) h k to_m to_l =
    ap₂ (λ a b. a ∷ b) same
      (unique l m h.1 k.1
        (λ e there. elim (to_m e (inr there)) [
          | inl head ↦ absurd (
              not_itself x (
                All-Has (λ z. compare_entries x z ≡ negsuc 0) l x h.0
                  (subst (λ z. Has z l) (sym (same ∙ head)) there)))
          | inr later ↦ later
        ])
        (λ e there. elim (to_l e (inr there)) [
          | inl head ↦ absurd (
              not_itself y (
                All-Has (λ z. compare_entries y z ≡ negsuc 0) m y k.0
                  (subst (λ z. Has z m) (sym head ∙ same) there)))
          | inr later ↦ later
        ]))
  where
    same : x ≡ y
    same = elim (to_m x (inl refl)) [
      | inl head ↦ sym head
      | inr in_m ↦ elim (to_l y (inl refl)) [
        | inl head ↦ head
        | inr in_l ↦ absurd (
            not_both x y (All-Has (λ z. compare_entries x z ≡ negsuc 0) l y h.0 in_l)
              (All-Has (λ z. compare_entries y z ≡ negsuc 0) m x k.0 in_m))
      ]
    ]

strcmp_sign :
    (s t : Text)
    → ltb_ℤ (pos 0) (strcmp s t) ≡ false
    → (strcmp s t ≡ negsuc 0) ⊎ (strcmp s t ≡ pos 0)
strcmp_sign [] [] h = inr refl
strcmp_sign [] (d ∷ t) h = inl refl
strcmp_sign (c ∷ s) [] h = cc
strcmp_sign (c ∷ s) (d ∷ t) h = elim (Bool-cases (ltb c d)) [
  | inl below ↦ inl (rw below refl)
  | inr not_below ↦ elim (Bool-cases (ltb d c)) [
    | inl above ↦ absurd (ground arith)
    | inr same ↦ elim (strcmp_sign s t (ground arith)) [
      | inl l ↦ inl (ground arith)
      | inr r ↦ inr (ground arith)
    ]
  ]
]

strcmp_strict :
    (s t : Text) → text_eq s t ≡ false → ltb_ℤ (pos 0) (strcmp s t) ≡ false → strcmp s t ≡ negsuc 0
strcmp_strict s t apart h = elim (strcmp_sign s t h) [
  | inl below ↦ below
  | inr equal ↦
      absurd (true_false (sym (text_eq_refl s) ∙ ap (text_eq s) (strcmp-same s t equal) ∙ apart))
]
  where
    true_false : true ≡ false → ⊥
    true_false e = cc

-- In front of an entry with another id, or behind it.
compare_strict :
    (a b : StatusEntry)
    → text_eq a.entry_id b.entry_id ≡ false
    → ltb_ℤ (pos 0) (compare_entries a b) ≡ false
    → compare_entries a b ≡ negsuc 0
unfolding compare_entries
compare_strict a b apart h = ground (arith, strcmp_strict a.entry_id b.entry_id apart)

strict_of_ordered :
    (e : StatusEntry) (l : List StatusEntry)
    → All (λ x. text_eq e.entry_id x.entry_id ≡ false) l
    → All (λ x. ltb_ℤ (pos 0) (compare_entries e x) ≡ false) l
    → All (λ x. compare_entries e x ≡ negsuc 0) l
strict_of_ordered e [] h k = tt
strict_of_ordered e (x ∷ l) h k = (compare_strict e x h.0 k.0, strict_of_ordered e l h.1 k.1)

Strict-of : (l : List StatusEntry) → DistinctIds l → Ordered l → Strict l
Strict-of [] h k = tt
Strict-of (e ∷ l) h k = (strict_of_ordered e l h.0 k.0, Strict-of l h.1 k.1)

single-Ordered : (l : List StatusEntry) → ltb 1 (length l) ≡ false → Ordered l
single-Ordered [] h = tt
single-Ordered (e ∷ []) h = (tt, tt)
single-Ordered (e ∷ x ∷ l) h = absurd (ground arith)

-- What the list that is shown has in common with the table, for any sorting that does what it should.
module _ (sort : List StatusEntry → List StatusEntry) (sorting : IsSort sort) (table : Table) where
  sorted-cases :
      (P : List StatusEntry → Type 0)
      → P (sort (values table))
      → (ltb 1 (length (values table)) ≡ false → P (values table))
      → P (get_sorted_status_entries sort table)
  unfolding get_sorted_status_entries
  sorted-cases P h k = elim (Bool-cases (ltb 1 (length (values table)))) [
    | inl more ↦
        subst P {x = sort (values table)} {y = get_sorted_status_entries sort table} (ground arith)
          h
    | inr single ↦
        subst P {x = values table} {y = get_sorted_status_entries sort table} (ground arith)
          (k single)
  ]

  sorted-Strict : DistinctIds (values table) → Strict (get_sorted_status_entries sort table)
  sorted-Strict d =
      sorted-cases Strict
        (Strict-of (sort (values table)) (sorting.distinct (values table) d)
          (sorting.ordered (values table)))
        (λ single. Strict-of (values table) d (single-Ordered (values table) single))

  sorted-Has :
      (e : StatusEntry) → Has e (values table) → Has e (get_sorted_status_entries sort table)
  sorted-Has e h = sorted-cases (Has e) (sorting.stays (values table) e h) (λ single. h)

  Has-sorted :
      (e : StatusEntry) → Has e (get_sorted_status_entries sort table) → Has e (values table)
  Has-sorted e =
      sorted-cases (λ l. Has e l → Has e (values table)) (sorting.comes (values table) e)
        (λ single h. h)

-- For any sorting that does what GLib documents: when two hash tables have the same entries, with pairwise distinct ids, the
-- sorted lists of their entries are equal, in whatever orders the tables give their entries.
pub get_sorted_status_entries_unique :
    (sort : List StatusEntry → List StatusEntry) (t u : Table)
    → IsSort sort
    → DistinctIds (values t)
    → DistinctIds (values u)
    → ((e : StatusEntry) → Has e (values t) → Has e (values u))
    → ((e : StatusEntry) → Has e (values u) → Has e (values t))
    → get_sorted_status_entries sort t ≡ get_sorted_status_entries sort u
get_sorted_status_entries_unique sort t u sorting d e to_u to_t =
    unique (get_sorted_status_entries sort t) (get_sorted_status_entries sort u)
      (sorted-Strict sort sorting t d) (sorted-Strict sort sorting u e)
      (λ x h. sorted-Has sort sorting u x (to_u x (Has-sorted sort sorting t x h)))
      (λ x h. sorted-Has sort sorting t x (to_t x (Has-sorted sort sorting u x h)))
