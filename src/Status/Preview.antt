-- ===== src/Status/Preview.antt =====
-- The notification that the sidebar shows (workspace_pick_notification_preview_entry).
use prettymux.Prelude.{
  ◌≡◌, refl, sym, ap, ◌∙◌, true, false, Option, none, some, List, [], ◌∷◌, arith, if◌then◌else◌,
  Bool-cases, inl, inr, subst, All, ◌⊎◌,
}
use prettymux.Prelude.Int.{ℤ, ltb_ℤ}
use prettymux.Status.{StatusEntry, is_notification, pick_loop, pick_notification_preview}

-- Not newer than an entry, if it is a notification at all.
abbrev pub NotNewer : StatusEntry → StatusEntry → Type 0
NotNewer best e = is_notification e ≡ true → ltb_ℤ best.updated_at_usec e.updated_at_usec ≡ false

-- The list has the entry.
abbrev pub Has : StatusEntry → List StatusEntry → Type 0
Has e [] = ⊥
Has e (x ∷ rest) = (x ≡ e) ⊎ Has e rest

-- The best entry so far after one more.
abbrev better : StatusEntry → StatusEntry → StatusEntry
better b e =
    if is_notification e then (if ltb_ℤ b.updated_at_usec e.updated_at_usec then e else b) else b

pick-empty : (best : Option StatusEntry) → pick_loop best [] ≡ best
unfolding pick_loop
pick-empty best = refl

pick-some :
    (b e : StatusEntry) (rest : List StatusEntry)
    → pick_loop (some b) (e ∷ rest) ≡ pick_loop (some (better b e)) rest
unfolding pick_loop
pick-some b e rest = ap (λ o. pick_loop o rest) (ground arith)

pick-none :
    (e : StatusEntry) (rest : List StatusEntry)
    → pick_loop none (e ∷ rest) ≡ pick_loop (if is_notification e then some e else none) rest
unfolding pick_loop
pick-none e rest = ap (λ o. pick_loop o rest) (ground arith)

ltb_trans : (x y z : ℤ) → ltb_ℤ x y ≡ false → ltb_ℤ y z ≡ false → ltb_ℤ x z ≡ false
ltb_trans x y z h k = ground arith

-- What the loop over the rest makes of an entry.
abbrev Best : StatusEntry → List StatusEntry → StatusEntry → Type 0
Best b rest r =
    ((b ≡ r) ⊎ Has r rest)
    × (ltb_ℤ r.updated_at_usec b.updated_at_usec ≡ false)
    × All (NotNewer r) rest
    × (is_notification r ≡ true)

better-either : (b e : StatusEntry) → (b ≡ better b e) ⊎ (e ≡ better b e)
better-either b e = elim (Bool-cases (is_notification e)) [
  | inl note ↦ elim (Bool-cases (ltb_ℤ b.updated_at_usec e.updated_at_usec)) [
    | inl newer ↦ inr (rw (note, newer) refl)
    | inr older ↦ inl (rw (note, older) refl)
  ]
  | inr other ↦ inl (rw other refl)
]

better-is_notification :
    (b e : StatusEntry) → is_notification b ≡ true → is_notification (better b e) ≡ true
better-is_notification b e h = elim (Bool-cases (is_notification e)) [
  | inl note ↦ elim (better-either b e) [
    | inl old ↦ subst (λ x. is_notification x ≡ true) old h
    | inr new ↦ subst (λ x. is_notification x ≡ true) new note
  ]
  | inr other ↦ rw other h
]

better-old : (b e : StatusEntry) → ltb_ℤ (better b e).updated_at_usec b.updated_at_usec ≡ false
better-old b e = elim (Bool-cases (is_notification e)) [
  | inl note ↦ elim (Bool-cases (ltb_ℤ b.updated_at_usec e.updated_at_usec)) [
    | inl newer ↦ rw (note, newer) (ground arith)
    | inr older ↦ rw (note, older) (ground arith)
  ]
  | inr other ↦ rw other (ground arith)
]

better-new : (b e : StatusEntry) → NotNewer (better b e) e
better-new b e note = elim (Bool-cases (ltb_ℤ b.updated_at_usec e.updated_at_usec)) [
  | inl newer ↦ rw (note, newer) (ground arith)
  | inr older ↦ rw (note, older) older
]

pick-Best :
    (b : StatusEntry) (rest : List StatusEntry)
    → is_notification b ≡ true
    → (r : StatusEntry) × (pick_loop (some b) rest ≡ some r) × Best b rest r
pick-Best b [] h = (b, pick-empty (some b), (inl refl, ground arith, tt, h))
pick-Best b (e ∷ rest) h =
    let (r, picked, (place, newer, all, note)) =
      pick-Best (better b e) rest (better-is_notification b e h) in
    (
      r,
      pick-some b e rest ∙ picked,
      (
        elim place [
          | inl same ↦ elim (better-either b e) [
            | inl old ↦ inl (old ∙ same)
            | inr new ↦ inr (inl (new ∙ same))
          ]
          | inr later ↦ inr (inr later)
        ],
        ltb_trans r.updated_at_usec (better b e).updated_at_usec b.updated_at_usec newer
            (better-old b e),
        (
          (λ n.
              ltb_trans r.updated_at_usec (better b e).updated_at_usec e.updated_at_usec newer
                (better-new b e n)),
          all,
        ),
        note,
      ),
    )

-- What the list shows of its notifications: none, when it has none, and else one of them, such that none is newer.
abbrev pub Newest : List StatusEntry → Option StatusEntry → Type 0
Newest entries none = All (λ e. is_notification e ≡ false) entries
Newest entries (some r) = Has r entries × (is_notification r ≡ true) × All (NotNewer r) entries

-- An entry in front that is no notification.
with_other :
    (e : StatusEntry) (rest : List StatusEntry)
    → is_notification e ≡ false
    → (best : Option StatusEntry) → Newest rest best
    → Newest (e ∷ rest) best
with_other e rest h none n = (h, n)
with_other e rest h (some r) n = (inr n.0, n.1, ((λ note. absurd (true_false (sym note ∙ h))), n.2))
  where
    true_false : true ≡ false → ⊥
    true_false p = cc

pick_loop-Newest : (entries : List StatusEntry) → Newest entries (pick_loop none entries)
pick_loop-Newest [] = subst (Newest []) (sym (pick-empty none)) tt
pick_loop-Newest (e ∷ rest) = elim (Bool-cases (is_notification e)) [
  | inl note ↦
      let (r, picked, (place, newer, all, kind)) = pick-Best e rest note in
      let start : pick_loop (if is_notification e then some e else none) rest ≡ some r =
        rw note picked in
      subst (Newest (e ∷ rest)) (sym (pick-none e rest ∙ start)) (place, kind, ((λ n. newer), all))
  | inr other ↦
      let start : pick_loop (if is_notification e then some e else none) rest
          ≡ pick_loop none rest =
        rw other refl in
      subst (Newest (e ∷ rest)) (sym (pick-none e rest ∙ start))
        (with_other e rest other (pick_loop none rest) (pick_loop-Newest rest))
]

-- The preview of the notifications is none of the entries when no entry is a notification, and else an
-- entry of the list that is a notification, such that no notification of the list is newer.
pub pick_notification_preview-Newest :
    (entries : List StatusEntry) → Newest entries (pick_notification_preview entries)
unfolding pick_notification_preview
pick_notification_preview-Newest entries = pick_loop-Newest entries
