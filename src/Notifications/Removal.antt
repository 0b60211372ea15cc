-- ===== src/Notifications/Removal.antt =====
-- After a workspace was removed, the notifications name the workspaces that they named
-- (notifications_on_workspace_removed).
use prettymux.Prelude.{
  ℕ, zero, suc, ◌≡◌, refl, sym, ap, ap₂, ◌∙◌, false, Option, none, some, List, [], ◌∷◌, ◌++◌, map,
  arith, if◌then◌else◌, length, get_elem?, set, erase_at, take, drop, Option-cases, Bool-cases, inl,
  inr,
}
use prettymux.Prelude.Int.{ℤ, pos, negsuc, eqb_ℤ, ltb_ℤ, index?, ◌-ℤ◌, suc-ℤ_one}
use prettymux.Prelude.Slices.{
  take-erase_at, drop-erase_at, take-set, drop-set, take-suc, drop-get_elem?, take-past, drop-past,
  get_elem?-suc, get_elem?-length, get_elem?-erase_at_lt, get_elem?-erase_at_le,
}
use mathlib.Core.List.{append-nil, append_assoc}
use prettymux.Prelude.Text.{Text}
use prettymux.Notifications.{
  Entry, Notifications, removal_loop, on_workspace_removed, removal_toast, toast_hide,
  bell_button_update,
}

-- The entries that do not name the workspace, and their indices as they are after its removal: what the
-- loop is to compute.
abbrev pub kept : ℤ → List Entry → List Entry
kept removed [] = []
kept removed (e ∷ rest) =
    if eqb_ℤ e.workspace_idx removed then kept removed rest else e ∷ kept removed rest

abbrev pub renumber : ℤ → Entry → Entry
renumber removed e =
    if ltb_ℤ removed e.workspace_idx
    then record e { workspace_idx = e.workspace_idx -ℤ pos 1 }
    else e

abbrev pub removed_spec : ℤ → List Entry → List Entry
removed_spec removed entries = map (renumber removed) (kept removed entries)

spec-append :
    (removed : ℤ) (xs ys : List Entry)
    → removed_spec removed (xs ++ ys) ≡ removed_spec removed xs ++ removed_spec removed ys
spec-append removed [] ys = refl
spec-append removed (x ∷ xs) ys = ground (arith, spec-append removed xs ys)

-- One round of the loop, at an entry that is there.
abbrev round_result : ℤ → ℕ → Entry → List Entry → List Entry
round_result removed i e entries =
    if eqb_ℤ e.workspace_idx removed
    then erase_at entries i
    else if ltb_ℤ removed e.workspace_idx
    then set entries i (record e { workspace_idx = e.workspace_idx -ℤ pos 1 })
    else entries

take-round :
    (removed : ℤ) (i : ℕ) (e : Entry) (l : List Entry)
    → take i (round_result removed i e l) ≡ take i l
take-round removed i e l =
    ground (
      arith,
      take-erase_at l i,
      take-set l i (record e { workspace_idx = e.workspace_idx -ℤ pos 1 }),
    )

drop-round :
    (removed : ℤ) (i : ℕ) (e : Entry) (l : List Entry)
    → get_elem? l i ≡ some e
    → drop i (round_result removed i e l) ≡ removed_spec removed (e ∷ []) ++ drop (suc i) l
drop-round removed i e l found = ground (
  arith,
  drop-erase_at l i,
  drop-set l i e (record e { workspace_idx = e.workspace_idx -ℤ pos 1 }) found,
  drop-get_elem? l i e found,
)

loop-past :
    (removed : ℤ) (i : ℕ) (l : List Entry)
    → get_elem? l i ≡ none
    → removal_loop removed (suc i) l ≡ removal_loop removed i l
unfolding removal_loop
loop-past removed i l past = rw (past, removal_loop)

loop-round :
    (removed : ℤ) (i : ℕ) (e : Entry) (l : List Entry)
    → get_elem? l i ≡ some e
    → removal_loop removed (suc i) l ≡ removal_loop removed i (round_result removed i e l)
unfolding removal_loop
loop-round removed i e l found = rw (found, removal_loop)

abbrev split_at : ℤ → List Entry → List Entry → List Entry
split_at removed a b = removed_spec removed a ++ b

-- The loop from index `i` down leaves the entries from `i` on alone.
loop-split :
    (removed : ℤ) (i : ℕ) (l : List Entry)
    → removal_loop removed i l ≡ removed_spec removed (take i l) ++ drop i l
loop-split removed zero l = unfold removal_loop in refl
loop-split removed (suc i) l = elim (Option-cases (get_elem? l i)) [
  | inl past ↦
      loop-past removed i l past
      ∙ loop-split removed i l
      ∙ ap₂ (split_at removed)
          (take-past l i past ∙ sym (take-past l (suc i) (get_elem?-suc l i past)))
          (drop-past l i past ∙ sym (drop-past l (suc i) (get_elem?-suc l i past)))
  | inr (e, found) ↦
      loop-round removed i e l found
      ∙ loop-split removed i (round_result removed i e l)
      ∙ ap₂ (split_at removed) (take-round removed i e l) (drop-round removed i e l found)
      ∙ sym (
          append_assoc (removed_spec removed (take i l)) (removed_spec removed (e ∷ []))
            (drop (suc i) l))
      ∙ ap (λ m. m ++ drop (suc i) l)
          (sym (spec-append removed (take i l) (e ∷ []))
            ∙ ap (removed_spec removed) (sym (take-suc l i e found)))
]

-- The loop computes the entries that are kept, renumbered.
pub removal_loop-eq-spec :
    (removed : ℤ) (l : List Entry) → removal_loop removed (length l) l ≡ removed_spec removed l
removal_loop-eq-spec removed l =
    loop-split removed (length l) l
    ∙ ap₂ (split_at removed) (take-past l (length l) (get_elem?-length l))
        (drop-past l (length l) (get_elem?-length l))
    ∙ append-nil (removed_spec removed l)

-- What an entry names: itself but for its index, and the workspace at its index.
abbrev pub target : {W : Type 0} → List W → Entry → Text × ℕ × ℤ × Option W
target workspaces e = (e.text, e.pane_notebook, e.tab_idx, index? workspaces e.workspace_idx)

-- The index of a workspace behind the removed one.
abbrev shifted : ℤ → ℤ → ℤ
shifted removed idx = if ltb_ℤ removed idx then idx -ℤ pos 1 else idx

index?-shifted :
    {W : Type 0} (workspaces : List W) (i : ℕ) (idx : ℤ)
    → eqb_ℤ idx (pos i) ≡ false
    → index? (erase_at workspaces i) (shifted (pos i) idx) ≡ index? workspaces idx
index?-shifted workspaces i (pos zero) other = ground (arith, get_elem?-erase_at_lt workspaces i 0)
index?-shifted workspaces i (pos (suc n)) other = elim (Bool-cases (ltb_ℤ (pos i) (pos (suc n)))) [
  | inl after ↦ rw (after, suc-ℤ_one n) (get_elem?-erase_at_le workspaces i n (ground arith))
  | inr before ↦ rw before (get_elem?-erase_at_lt workspaces i (suc n) (ground arith))
]
index?-shifted workspaces i (negsuc n) other = ground arith

target-renumber :
    {W : Type 0} (workspaces : List W) (i : ℕ) (e : Entry)
    → eqb_ℤ e.workspace_idx (pos i) ≡ false
    → target (erase_at workspaces i) (renumber (pos i) e) ≡ target workspaces e
target-renumber workspaces i e other =
    (elim (Bool-cases (ltb_ℤ (pos i) e.workspace_idx)) [
      | inl after ↦ rw after refl
      | inr before ↦ rw before refl
    ])
    ∙ ap (λ w. (e.text, e.pane_notebook, e.tab_idx, w))
        (index?-shifted workspaces i e.workspace_idx other)

targets-kept :
    {W : Type 0} (workspaces : List W) (i : ℕ) (entries : List Entry)
    → map (target (erase_at workspaces i)) (removed_spec (pos i) entries)
      ≡ map (target workspaces) (kept (pos i) entries)
targets-kept workspaces i [] = refl
targets-kept workspaces i (e ∷ rest) = elim (Bool-cases (eqb_ℤ e.workspace_idx (pos i))) [
  | inl gone ↦ rw gone (targets-kept workspaces i rest)
  | inr other ↦
      rw other (
        ap₂ (λ x xs. x ∷ xs) (target-renumber workspaces i e other)
          (targets-kept workspaces i rest))
]

-- The bell and the toast are shown anew, the entries stay.
entries-removal_toast :
    (removed : ℤ) (n : Notifications) → (removal_toast removed n).entries ≡ n.entries
unfolding toast_hide
entries-removal_toast removed n = ground arith

-- When the workspace at an index is removed, the notifications that name it go, and each of the others
-- keeps its text, its pane, its tab and its place in the list, and names the workspace that it named
-- before, found at its index among the workspaces that are left.
pub on_workspace_removed-targets :
    {W : Type 0} (workspaces : List W) (i : ℕ) (n : Notifications)
    → map (target (erase_at workspaces i)) (on_workspace_removed (pos i) n).entries
      ≡ map (target workspaces) (kept (pos i) n.entries)
unfolding on_workspace_removed bell_button_update
on_workspace_removed-targets workspaces i n =
    ap (map (target (erase_at workspaces i))) (
      entries-removal_toast (pos i)
        (record n { entries = removal_loop (pos i) (length n.entries) n.entries })
      ∙ removal_loop-eq-spec (pos i) n.entries)
    ∙ targets-kept workspaces i n.entries
