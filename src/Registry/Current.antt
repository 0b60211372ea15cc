-- ===== src/Registry/Current.antt =====
-- Which workspace is the current one after one came into the array or left it
-- (workspace_attach_to_instance, workspace_detach_from_instance, workspace_remove).
use prettymux.Prelude.{
  ℕ, zero, suc, ◌≤◌, ◌<◌, ◌≡◌, refl, sym, ap, ap₂, ◌∙◌, true, false, none, some, List, [], ◌∷◌,
  arith, ◌==◌, length, get_elem?, insert_at, erase_at, Bool-cases, inl, inr, lt_of_get_elem?,
  length-erase_at, get_elem?-insert_at, erase_at-insert_at, ltb, leb,
}
use prettymux.Prelude.Int.{ℤ, pos, negsuc, eqb_ℤ, index?, suc-ℤ_one, +ℤ_one}
use prettymux.Prelude.Slices.{
  get_elem?-erase_at_lt, get_elem?-erase_at_le, get_elem?-insert_at_lt, get_elem?-insert_at_le,
}
use prettymux.Registry.{Registry, Workspace, get_current}
use prettymux.Registry.Members.{
  Ui, remove, detach, attach_with, attach_index, detached_current, attached_current, pulled_back,
}
use prettymux.Registry.Effect.{
  attach_index_le, get_current-index?, workspaces-detach, current-detach, workspaces-remove,
  current-remove, workspaces-attach, current-attach,
}

get_elem?_ge : {W : Type 0} (xs : List W) (i : ℕ) → length xs ≤ i → get_elem? xs i ≡ none
get_elem?_ge [] i h = refl
get_elem?_ge (x ∷ xs) zero h = elim h [ ]
get_elem?_ge (x ∷ xs) (suc i) h = get_elem?_ge xs i (omega arith)

-- The element at the current index, where another one goes.
module _ {W : Type 0} (xs : List W) (index : ℕ) (inside : index < length xs) where
  shorter : suc (length (erase_at xs index)) ≡ length xs
  shorter = length-erase_at xs index inside

  at_index :
      (v : ℤ) (k : ℕ) → v ≡ pos k → index? (erase_at xs index) v ≡ get_elem? (erase_at xs index) k
  at_index v k e = ap (index? (erase_at xs index)) e

  detached_before :
      (c : ℕ)
      → c < index
      → index? (erase_at xs index) (detached_current index (length (erase_at xs index)) (pos c))
        ≡ get_elem? xs c
  detached_before c h =
      at_index (detached_current index (length (erase_at xs index)) (pos c)) c
        (ground (arith, shorter))
      ∙ get_elem?-erase_at_lt xs index c h

  detached_after :
      (c : ℕ)
      → index ≤ c
      → index?
          (erase_at xs index)
          (detached_current index (length (erase_at xs index)) (pos (suc c)))
        ≡ get_elem? xs (suc c)
  detached_after c h = elim (Bool-cases (length (erase_at xs index) == 0)) [
    | inl last ↦
        at_index (detached_current index (length (erase_at xs index)) (pos (suc c))) 0
          (ground arith)
        ∙ get_elem?_ge (erase_at xs index) 0 (ground arith)
        ∙ sym (get_elem?_ge xs (suc c) (ground (arith, shorter)))
    | inr more ↦
        at_index (detached_current index (length (erase_at xs index)) (pos (suc c))) c
          (ground (arith, suc-ℤ_one c))
        ∙ get_elem?-erase_at_le xs index c h
  ]

  index?-detached :
      (current : ℤ)
      → eqb_ℤ current (pos index) ≡ false
      → index? (erase_at xs index) (detached_current index (length (erase_at xs index)) current)
        ≡ index? xs current
  index?-detached (negsuc n) other = elim (Bool-cases (length (erase_at xs index) == 0)) [
    | inl last ↦
        at_index (detached_current index (length (erase_at xs index)) (negsuc n)) 0 (ground arith)
        ∙ get_elem?_ge (erase_at xs index) 0 (ground arith)
    | inr more ↦
        let negative : detached_current index (length (erase_at xs index)) (negsuc n) ≡ negsuc n =
          ground arith in
        ap (index? (erase_at xs index)) negative
  ]
  index?-detached (pos zero) other = detached_before 0 (ground arith)
  index?-detached (pos (suc c)) other = elim (Bool-cases (ltb index (suc c))) [
    | inl after ↦ detached_after c (ground arith)
    | inr before ↦ detached_before (suc c) (ground arith)
  ]

-- Detaching a workspace other than the current one takes just that workspace out of the array, and the
-- current one stays the current one.
pub detach-get_current :
    (ui : Ui) (index : ℕ) (r : Registry) (ws : Workspace)
    → get_elem? r.workspaces index ≡ some ws
    → eqb_ℤ r.current_workspace (pos index) ≡ false
    → (get_current (detach ui (pos index) r).0 ≡ get_current r)
      × ((detach ui (pos index) r).0.workspaces ≡ erase_at r.workspaces index)
detach-get_current ui index r ws found other = (
  get_current-index? (detach ui (pos index) r).0
      ∙ ap₂ index? (workspaces-detach ui index r ws found) (current-detach ui index r ws found)
      ∙ index?-detached r.workspaces index (lt_of_get_elem? r.workspaces index found)
          r.current_workspace other
      ∙ sym (get_current-index? r),
  workspaces-detach ui index r ws found,
)

-- Removing a workspace from an array of more than one takes just that one out of the array. When it
-- stands behind the current one, the current one stays. When it is the current one or stands in front
-- of it, and the current one is not the last, the workspace that stood right behind the current one is
-- the current one afterwards.
pub remove-get_current :
    (ui : Ui) (index c : ℕ) (r : Registry) (ws : Workspace)
    → get_elem? r.workspaces index ≡ some ws
    → r.current_workspace ≡ pos c
    → 1 < length r.workspaces
    → ((remove ui index r).workspaces ≡ erase_at r.workspaces index)
      × (c < index → get_current (remove ui index r) ≡ get_current r)
      × (index ≤ c
          → suc c < length r.workspaces
          → get_current (remove ui index r) ≡ get_elem? r.workspaces (suc c))
remove-get_current ui index c r ws found current more = (
  array,
  (λ before.
      shown_at c (ground (arith, shorter r.workspaces index inside, inside))
      ∙ get_elem?-erase_at_lt r.workspaces index c before
      ∙ sym (get_current-index? r ∙ ap (index? r.workspaces) current)),
  λ after rest.
      shown_at c (ground (arith, shorter r.workspaces index inside))
      ∙ get_elem?-erase_at_le r.workspaces index c after,
)
  where
    inside : index < length r.workspaces
    inside = lt_of_get_elem? r.workspaces index found

    array : (remove ui index r).workspaces ≡ erase_at r.workspaces index
    array = workspaces-remove ui index r ws found (ground arith)

    shown_at :
        (k : ℕ)
        → pulled_back (length (erase_at r.workspaces index)) (pos c) ≡ pos k
        → get_current (remove ui index r) ≡ get_elem? (erase_at r.workspaces index) k
    shown_at k e =
        get_current-index? (remove ui index r)
        ∙ ap₂ index? array (
            current-remove ui index r ws found (ground arith)
            ∙ ap (pulled_back (length (erase_at r.workspaces index))) current
            ∙ e)

index?-attached :
    {W : Type 0} (xs : List W) (i c : ℕ) (v : W)
    → i ≤ length xs
    → c < length xs
    → index? (insert_at xs i v) (attached_current i (suc (length xs)) (pos c)) ≡ get_elem? xs c
index?-attached xs i c v room inside = elim (Bool-cases (leb i c)) [
  | inl before ↦
      ap (index? (insert_at xs i v)) (up before)
      ∙ get_elem?-insert_at_le xs i c v room (ground arith)
  | inr behind ↦
      ap (index? (insert_at xs i v)) (same behind)
      ∙ get_elem?-insert_at_lt xs i c v room (ground arith)
]
  where
    up : leb i c ≡ true → attached_current i (suc (length xs)) (pos c) ≡ pos (suc c)
    up before = ground (arith, +ℤ_one c)

    same : leb i c ≡ false → attached_current i (suc (length xs)) (pos c) ≡ pos c
    same behind = ground arith

-- Attaching a workspace to an array that has a current one puts it in at the wanted index, or behind all
-- others when that index is out of range, the others keep their order, and the current one stays the current one.
pub attach-get_current :
    (ui : Ui) (ws : Workspace) (target_index : ℤ) (c : ℕ) (r : Registry)
    → r.current_workspace ≡ pos c
    → c < length r.workspaces
    → (get_current (attach_with ui ws target_index r) ≡ get_current r)
      × (get_elem?
            (attach_with ui ws target_index r).workspaces
            (attach_index target_index (length r.workspaces))
          ≡ some (record ws { detached_container_ref = false }))
      × (erase_at
            (attach_with ui ws target_index r).workspaces
            (attach_index target_index (length r.workspaces))
          ≡ r.workspaces)
attach-get_current ui ws target_index c r current inside = (
  get_current-index? (attach_with ui ws target_index r)
      ∙ ap₂ index? array (
          current-attach ui ws target_index r
          ∙ ap (attached_current index (suc (length r.workspaces))) current)
      ∙ index?-attached r.workspaces index c held room inside
      ∙ sym (get_current-index? r ∙ ap (index? r.workspaces) current),
  ap (λ l. get_elem? l index) array ∙ get_elem?-insert_at r.workspaces index held room,
  ap (λ l. erase_at l index) array ∙ erase_at-insert_at r.workspaces index held room,
)
  where
    index : ℕ
    index = attach_index target_index (length r.workspaces)

    held : Workspace
    held = record ws { detached_container_ref = false }

    room : index ≤ length r.workspaces
    room = attach_index_le target_index (length r.workspaces)

    array : (attach_with ui ws target_index r).workspaces ≡ insert_at r.workspaces index held
    array = workspaces-attach ui ws target_index r
