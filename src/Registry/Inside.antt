-- ===== src/Registry/Inside.antt =====
-- The current workspace is one of the array, however the array got to its state.
use prettymux.Prelude.{
  ℕ, suc, ◌+◌, ◌-◌, ◌≤◌, ◌<◌, ◌≡◌, refl, sym, true, false, none, some, List, arith, ◌==◌,
  if◌then◌else◌, length, get_elem?, insert_at, erase_at, Option-cases, Bool-cases, inl, inr,
  lt_of_get_elem?, length-erase_at, length-insert_at, subst, leb,
}
use prettymux.Prelude.Int.{ℤ, pos, negsuc, pos_part, neg_part, index?, ◌-ℤ◌, +ℤ_one}
use prettymux.Registry.{Registry, Workspace, tracked, find_serial, allocate_serial_avoiding}
use prettymux.Registry.Members.{
  Ui, switch, remove, detach, attach, attach_with, attach_index, detached_current, attached_current,
  pulled_back,
}
use prettymux.Registry.Effect.{
  attach_index_le, workspaces-detach, current-detach, workspaces-remove, current-remove,
  workspaces-attach, current-attach,
}

-- An index of the array; 0 while there is no workspace.
abbrev pub InsideAt : ℕ → ℤ → Type 0
InsideAt len current = (neg_part current ≡ 0) × (pos_part current < (if len == 0 then 1 else len))

abbrev pub IsInside : Registry → Type 0
IsInside r = InsideAt (length r.workspaces) r.current_workspace

before : (c : ℕ) → pos c -ℤ pos 1 ≡ (if c == 0 then negsuc 0 else pos (c - 1))
unfolding ◌-ℤ◌
before c = ground arith

pub InsideAt-index? :
    {W : Type 0} (xs : List W) (index : ℤ) {w : W}
    → index? xs index ≡ some w
    → InsideAt (length xs) index
InsideAt-index? xs (pos i) found = ground (arith, lt_of_get_elem? xs i found)
InsideAt-index? xs (negsuc i) found = cc

pub to_inside :
    (r : Registry) (l : List Workspace) (current : ℤ)
    → r.workspaces ≡ l
    → r.current_workspace ≡ current
    → InsideAt (length l) current
    → IsInside r
to_inside r l current e f h =
    subst (λ v. InsideAt (length r.workspaces) v) (sym f)
      (subst (λ m. InsideAt (length m) current) (sym e) h)

module _ (ui : Ui) (index : ℤ) (r : Registry) where
  switch-out : index? r.workspaces index ≡ none → switch ui index r ≡ r
  unfolding switch
  switch-out out = ground arith

  workspaces-switch :
      (ws : Workspace)
      → index? r.workspaces index ≡ some ws
      → (switch ui index r).workspaces ≡ r.workspaces
  unfolding switch
  workspaces-switch ws found = ground arith

  current-switch :
      (ws : Workspace)
      → index? r.workspaces index ≡ some ws
      → (switch ui index r).current_workspace ≡ index
  unfolding switch
  current-switch ws found = ground arith

pub switch-IsInside :
    (ui : Ui) (index : ℤ) (r : Registry) → IsInside r → IsInside (switch ui index r)
switch-IsInside ui index r h = elim (Option-cases (index? r.workspaces index)) [
  | inl out ↦ subst IsInside (sym (switch-out ui index r out)) h
  | inr (ws, found) ↦
      to_inside (switch ui index r) r.workspaces index (workspaces-switch ui index r ws found)
        (current-switch ui index r ws found) (InsideAt-index? r.workspaces index found)
]

detached-InsideAt :
    (index len : ℕ) (current : ℤ)
    → index ≤ len
    → InsideAt (suc len) current
    → InsideAt len (detached_current index len current)
detached-InsideAt index len (pos c) k h = ground (arith, before c, before len)
detached-InsideAt index len (negsuc c) k h = absurd (omega arith)

pulled_back-InsideAt :
    (len : ℕ) (current : ℤ)
    → 0 < len
    → InsideAt (suc len) current
    → InsideAt len (pulled_back len current)
pulled_back-InsideAt len (pos c) k h = ground (arith, before len)
pulled_back-InsideAt len (negsuc c) k h = absurd (omega arith)

attached-InsideAt :
    (index len : ℕ) (current : ℤ)
    → index ≤ len
    → InsideAt len current
    → InsideAt (suc len) (attached_current index (suc len) current)
attached-InsideAt index len (pos c) k h = ground (arith, +ℤ_one c)
attached-InsideAt index len (negsuc c) k h = absurd (omega arith)

pub tracked-InsideAt :
    (from_idx to_idx len : ℕ) (current : ℤ)
    → from_idx < len
    → to_idx < len
    → InsideAt len current
    → InsideAt len (tracked from_idx to_idx current)
tracked-InsideAt from_idx to_idx len (pos c) i j h = ground (arith, before c, +ℤ_one c)
tracked-InsideAt from_idx to_idx len (negsuc c) i j h = absurd (omega arith)

-- An operation that finds no workspace changes nothing.
module _ (ui : Ui) (index : ℕ) (r : Registry) (out : get_elem? r.workspaces index ≡ none) where
  detach-out : (detach ui (pos index) r).0 ≡ r
  unfolding detach
  detach-out = ground arith

  remove-out : remove ui index r ≡ r
  unfolding remove
  remove-out = ground arith

remove-single :
    (ui : Ui) (index : ℕ) (r : Registry)
    → leb (length r.workspaces) 1 ≡ true
    → remove ui index r ≡ r
unfolding remove
remove-single ui index r single = ground arith

detach-negsuc : (ui : Ui) (n : ℕ) (r : Registry) → (detach ui (negsuc n) r).0 ≡ r
unfolding detach
detach-negsuc ui n r = refl

pub detach-IsInside :
    (ui : Ui) (index : ℤ) (r : Registry) → IsInside r → IsInside (detach ui index r).0
detach-IsInside ui (negsuc n) r h = subst IsInside (sym (detach-negsuc ui n r)) h
detach-IsInside ui (pos index) r h = elim (Option-cases (get_elem? r.workspaces index)) [
  | inl out ↦ subst IsInside (sym (detach-out ui index r out)) h
  | inr (ws, found) ↦
      let inside : index < length r.workspaces = lt_of_get_elem? r.workspaces index found in
      let len : suc (length (erase_at r.workspaces index)) ≡ length r.workspaces =
        length-erase_at r.workspaces index inside in
      to_inside (detach ui (pos index) r).0 (erase_at r.workspaces index)
        (detached_current index (length (erase_at r.workspaces index)) r.current_workspace)
        (workspaces-detach ui index r ws found) (current-detach ui index r ws found)
        (detached-InsideAt index (length (erase_at r.workspaces index)) r.current_workspace
          (omega arith) (subst (λ n. InsideAt n r.current_workspace) (sym len) h))
]

pub remove-IsInside :
    (ui : Ui) (index : ℕ) (r : Registry) → IsInside r → IsInside (remove ui index r)
remove-IsInside ui index r h = elim (Option-cases (get_elem? r.workspaces index)) [
  | inl out ↦ subst IsInside (sym (remove-out ui index r out)) h
  | inr (ws, found) ↦ elim (Bool-cases (leb (length r.workspaces) 1)) [
    | inl single ↦ subst IsInside (sym (remove-single ui index r single)) h
    | inr more ↦
        let inside : index < length r.workspaces = lt_of_get_elem? r.workspaces index found in
        let len : suc (length (erase_at r.workspaces index)) ≡ length r.workspaces =
          length-erase_at r.workspaces index inside in
        to_inside (remove ui index r) (erase_at r.workspaces index)
          (pulled_back (length (erase_at r.workspaces index)) r.current_workspace)
          (workspaces-remove ui index r ws found more) (current-remove ui index r ws found more)
          (pulled_back-InsideAt (length (erase_at r.workspaces index)) r.current_workspace
            (ground arith) (subst (λ n. InsideAt n r.current_workspace) (sym len) h))
  ]
]

attach_with-IsInside :
    (ui : Ui) (ws : Workspace) (target_index : ℤ) (r : Registry)
    → IsInside r
    → IsInside (attach_with ui ws target_index r)
attach_with-IsInside ui ws target_index r h =
    to_inside (attach_with ui ws target_index r) (insert_at r.workspaces index held)
      (attached_current index (suc (length r.workspaces)) r.current_workspace)
      (workspaces-attach ui ws target_index r) (current-attach ui ws target_index r)
      (subst
        (λ n. InsideAt n (attached_current index (suc (length r.workspaces)) r.current_workspace))
        (sym (length-insert_at r.workspaces index held))
        (attached-InsideAt index (length r.workspaces) r.current_workspace
          (attach_index_le target_index (length r.workspaces)) h))
  where
    index : ℕ
    index = attach_index target_index (length r.workspaces)

    held : Workspace
    held = record ws { detached_container_ref = false }

pub allocate-kept :
    (r : Registry) (a b : ℕ) (allocated : Registry × ℕ)
    → allocate_serial_avoiding r a b ≡ some allocated
    → (allocated.0.workspaces ≡ r.workspaces)
      × (allocated.0.current_workspace ≡ r.current_workspace)
unfolding allocate_serial_avoiding
allocate-kept r a b allocated e =
    elim (Option-cases (
      find_serial (length r.workspaces + 3) r a b
        (if r.next_workspace_serial == 0 then 1 else r.next_workspace_serial))) [
          | inl out ↦ absurd (ground arith)
          | inr (s, found) ↦ (ground arith, ground arith)
        ]

-- A new number changes neither the array nor the current workspace.
pub allocate-IsInside :
    (r : Registry) (a b : ℕ) (allocated : Registry × ℕ)
    → IsInside r
    → allocate_serial_avoiding r a b ≡ some allocated
    → IsInside allocated.0
allocate-IsInside r a b allocated h e =
    let (array, current) = allocate-kept r a b allocated e in
    to_inside allocated.0 r.workspaces r.current_workspace array current h

attach-allocated :
    (ui : Ui) (ws : Workspace) (target_index : ℤ) (r r' : Registry)
    → attach ui ws target_index r ≡ some r'
    → (ws.serial == 0) ≡ true
    → (allocated : Registry × ℕ) → allocate_serial_avoiding r 0 0 ≡ some allocated
    → attach_with ui (record ws { serial = allocated.1 }) target_index allocated.0 ≡ r'
unfolding attach
attach-allocated ui ws target_index r r' e zero_serial allocated found = ground arith

pub attach-IsInside :
    (ui : Ui) (ws : Workspace) (target_index : ℤ) (r r' : Registry)
    → IsInside r
    → attach ui ws target_index r ≡ some r'
    → IsInside r'
attach-IsInside ui ws target_index r r' h e = elim (Bool-cases (ws.serial == 0)) [
  | inl new ↦ elim (Option-cases (allocate_serial_avoiding r 0 0)) [
    | inl out ↦ absurd (unfold attach in ground arith)
    | inr (allocated, found) ↦
        subst IsInside (attach-allocated ui ws target_index r r' e new allocated found) (
          attach_with-IsInside ui (record ws { serial = allocated.1 }) target_index allocated.0
            (allocate-IsInside r 0 0 allocated h found))
  ]
  | inr has ↦
      let same : attach_with ui ws target_index r ≡ r' = unfold attach in ground arith in
      subst IsInside same (attach_with-IsInside ui ws target_index r h)
]
