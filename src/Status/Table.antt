-- ===== src/Status/Table.antt =====
-- What the table of status entries holds after a write (workspace_set_status_entry,
-- workspace_clear_status_entry).
use prettymux.Prelude.{
  ℕ, ◌≡◌, refl, sym, ap, ◌∙◌, true, false, ◌||◌, none, some, [], ◌∷◌, ◌++◌, arith, if◌then◌else◌,
  Bool-cases, inl, inr,
}
use prettymux.Prelude.Int.{ℤ}
use prettymux.Prelude.Text.{Text, text_eq, text_eq_sound, text_eq_refl, is_empty, codes, strlcpy}
use prettymux.Status.{
  StatusEntry, Table, lookup, remove_key, normalize, or_text, set_status_entry, clear_status_entry,
}

-- Two keys of which one is equal to a text and the other is not.
text_eq_apart :
    (j key k : Text) → text_eq j key ≡ false → text_eq j k ≡ true → text_eq key k ≡ false
text_eq_apart j key k h e = elim (Bool-cases (text_eq key k)) [
  | inl same ↦
      let equal : j ≡ key = text_eq_sound j k e ∙ sym (text_eq_sound key k same) in
      absurd (true_false (sym (text_eq_refl j) ∙ ap (text_eq j) equal ∙ h))
  | inr apart ↦ apart
]
  where
    true_false : true ≡ false → ⊥
    true_false p = cc

filled-append : (s t : Text) (c : ℕ) → is_empty (strlcpy 96 (s ++ c ∷ t)) ≡ false
filled-append [] t c = refl
filled-append (d ∷ s) t c = refl

filled-or_text : (t s u : Text) (c : ℕ) → is_empty (strlcpy 96 (or_text t (s ++ c ∷ u))) ≡ false
filled-or_text [] s u c = filled-append s u c
filled-or_text (d ∷ t) s u c = refl

lookup-remove_key :
    (key k : Text) (table : Table)
    → lookup k (remove_key key table) ≡ (if text_eq key k then none else lookup k table)
lookup-remove_key key k [] = ground arith
lookup-remove_key key k ((j, e) ∷ rest) = elim (Bool-cases (text_eq j key)) [
  | inl gone ↦
      let same : text_eq j k ≡ text_eq key k = ap (λ t. text_eq t k) (text_eq_sound j key gone) in
      ground (arith, lookup-remove_key key k rest)
  | inr other ↦ elim (Bool-cases (text_eq j k)) [
    | inl here ↦
        let apart : text_eq key k ≡ false = text_eq_apart j key k other here in ground arith
    | inr there ↦ ground (arith, lookup-remove_key key k rest)
  ]
]

-- The id of a normalized entry is not empty.
id-normalize : (now : ℤ) (e : StatusEntry) → is_empty (normalize now e).entry_id ≡ false
unfolding normalize
id-normalize now e =
    filled-or_text e.entry_id (or_text e.provider (codes "agent")) (or_text e.kind (codes "status"))
      58

-- After an entry was set, its id has the normalized entry, and every other id what it had before.
pub lookup-set_status_entry :
    (now : ℤ) (e : StatusEntry) (table : Table) (k : Text)
    → lookup k (set_status_entry now e table)
      ≡ (if text_eq (normalize now e).entry_id k then some (normalize now e) else lookup k table)
unfolding set_status_entry
lookup-set_status_entry now e table k =
    ground (arith, id-normalize now e, lookup-remove_key (normalize now e).entry_id k table)

-- After a clearing, the id has no entry, or no id has one where the cleared id is empty; every other id
-- has what it had before.
lookup-clear_status_entry :
    (id : Text) (table : Table) (k : Text)
    → lookup k (clear_status_entry id table)
      ≡ (if is_empty id || text_eq id k then none else lookup k table)
unfolding clear_status_entry
lookup-clear_status_entry id table k = ground (arith, lookup-remove_key id k table)
