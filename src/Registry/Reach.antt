-- ===== src/Registry/Reach.antt =====
-- The current workspace is one of the array after any operations.
use prettymux.Prelude.{
  ℕ, ◌<◌, ◌≡◌, sym, ◌∙◌, Bool, false, some, [], ◌∷◌, arith, ◌==◌, length, get_elem?, insert_at,
  erase_at, Option-cases, Bool-cases, inl, inr, lt_of_get_elem?, length-erase_at, length-insert_at,
  length-append, subst,
}
use prettymux.Prelude.Int.{ℤ, pos, negsuc}
use prettymux.Registry.{Registry, Workspace, move_in_array, tracked, allocate_serial_avoiding}
use prettymux.Registry.Members.{Ui, switch, remove, detach, attach, add, with_added}
use prettymux.Registry.Move.{
  move-negative_from, move-negative_to, move-out, move-missing, move-stays, move-workspaces,
  move-current,
}
use prettymux.Registry.Inside.{
  IsInside, InsideAt, switch-IsInside, detach-IsInside, remove-IsInside, attach-IsInside,
  allocate-IsInside, tracked-InsideAt, to_inside,
}

-- One operation on the array.
pub data Step (has_row : ℤ → Bool) (ui : Ui) : Registry → Registry → Type 0 where
  switched : (index : ℤ) (r : Registry) → Step has_row ui r (switch ui index r)
  moved :
      (from_idx to_idx : ℤ) (r : Registry)
      → Step has_row ui r (move_in_array has_row r from_idx to_idx)
  removed : (index : ℕ) (r : Registry) → Step has_row ui r (remove ui index r)
  detached : (index : ℤ) (r : Registry) → Step has_row ui r (detach ui index r).0
  attached :
      (ws : Workspace) (target_index : ℤ) (r r' : Registry)
      → attach ui ws target_index r ≡ some r'
      → Step has_row ui r r'
  added :
      (address notebook : ℕ) (r r' : Registry)
      → add ui address notebook r ≡ some r'
      → Step has_row ui r r'

-- Any number of operations after one another.
pub data Reach (has_row : ℤ → Bool) (ui : Ui) (start : Registry) : Registry → Type 0 where
  begin : Reach has_row ui start start
  after :
      (r r' : Registry)
      → Reach has_row ui start r
      → Step has_row ui r r'
      → Reach has_row ui start r'

moved-IsInside :
    (has_row : ℤ → Bool) (r : Registry) (i j : ℕ) (ws other : Workspace)
    → get_elem? r.workspaces i ≡ some ws
    → get_elem? r.workspaces j ≡ some other
    → (i == j) ≡ false
    → IsInside r
    → IsInside (move_in_array has_row r (pos i) (pos j))
moved-IsInside has_row r i j ws other found there apart h =
    let inside : i < length r.workspaces = lt_of_get_elem? r.workspaces i found in
    let less : j < length r.workspaces = lt_of_get_elem? r.workspaces j there in
    let len : length (insert_at (erase_at r.workspaces i) j ws) ≡ length r.workspaces =
      length-insert_at (erase_at r.workspaces i) j ws ∙ length-erase_at r.workspaces i inside in
    to_inside (move_in_array has_row r (pos i) (pos j)) (insert_at (erase_at r.workspaces i) j ws)
      (tracked i j r.current_workspace) (move-workspaces has_row r i j ws other found there apart)
      (move-current has_row r i j ws other found there apart)
      (subst (λ n. InsideAt n (tracked i j r.current_workspace)) (sym len)
        (tracked-InsideAt i j (length r.workspaces) r.current_workspace inside less h))

move-IsInside :
    (has_row : ℤ → Bool) (from_idx to_idx : ℤ) (r : Registry)
    → IsInside r
    → IsInside (move_in_array has_row r from_idx to_idx)
move-IsInside has_row (negsuc n) to_idx r h =
    subst IsInside (sym (move-negative_from has_row r n to_idx)) h
move-IsInside has_row (pos i) (negsuc n) r h =
    subst IsInside (sym (move-negative_to has_row r i n)) h
move-IsInside has_row (pos i) (pos j) r h = elim (Option-cases (get_elem? r.workspaces i)) [
  | inl out ↦ subst IsInside (sym (move-out has_row r i j out)) h
  | inr (ws, found) ↦ elim (Option-cases (get_elem? r.workspaces j)) [
    | inl missing ↦ subst IsInside (sym (move-missing has_row r i j missing)) h
    | inr (other, there) ↦ elim (Bool-cases (i == j)) [
      | inl same ↦ subst IsInside (sym (move-stays has_row r i j ws other found there same)) h
      | inr apart ↦ moved-IsInside has_row r i j ws other found there apart h
    ]
  ]
]

added-IsInside :
    (address notebook : ℕ) (allocated : Registry × ℕ)
    → IsInside allocated.0
    → IsInside (with_added address notebook allocated)
added-IsInside address notebook allocated h =
    let ws : Workspace = record {
      address = address;
      serial = allocated.1;
      pane_notebooks = notebook ∷ [];
      active_pane = notebook;
      detached_container_ref = false;
    } in
    (h.0, ground (arith, h.1, length-append allocated.0.workspaces (ws ∷ [])))

add-found :
    (ui : Ui) (address notebook : ℕ) (r r' : Registry)
    → add ui address notebook r ≡ some r'
    → (allocated : Registry × ℕ) → allocate_serial_avoiding r 0 0 ≡ some allocated
    → switch ui (pos (length r.workspaces)) (with_added address notebook allocated) ≡ r'
unfolding add
add-found ui address notebook r r' e allocated found = ground arith

add-IsInside :
    (ui : Ui) (address notebook : ℕ) (r r' : Registry)
    → IsInside r
    → add ui address notebook r ≡ some r'
    → IsInside r'
add-IsInside ui address notebook r r' h e = elim (Option-cases (allocate_serial_avoiding r 0 0)) [
  | inl out ↦ absurd (unfold add in ground arith)
  | inr (allocated, found) ↦ subst IsInside (add-found ui address notebook r r' e allocated found) (
      switch-IsInside ui (pos (length r.workspaces)) (with_added address notebook allocated)
        (added-IsInside address notebook allocated (allocate-IsInside r 0 0 allocated h found)))
]

Step-IsInside :
    (has_row : ℤ → Bool) (ui : Ui) (r r' : Registry)
    → Step has_row ui r r'
    → IsInside r
    → IsInside r'
Step-IsInside has_row ui r r' (switched index _) h = switch-IsInside ui index r h
Step-IsInside has_row ui r r' (moved from_idx to_idx _) h =
    move-IsInside has_row from_idx to_idx r h
Step-IsInside has_row ui r r' (removed index _) h = remove-IsInside ui index r h
Step-IsInside has_row ui r r' (detached index _) h = detach-IsInside ui index r h
Step-IsInside has_row ui r r' (attached ws target_index _ _ e) h =
    attach-IsInside ui ws target_index r r' h e
Step-IsInside has_row ui r r' (added address notebook _ _ e) h =
    add-IsInside ui address notebook r r' h e

-- If the current index is that of a workspace, or 0 while there is none, then it is so after any
-- operations: switching, moving, removing, detaching, attaching and adding, with any arguments, but no negative
-- index for removing.
pub Reach-IsInside :
    (has_row : ℤ → Bool) (ui : Ui) (start r : Registry)
    → IsInside start
    → Reach has_row ui start r
    → IsInside r
Reach-IsInside has_row ui start r h begin = h
Reach-IsInside has_row ui start r h (after previous _ reach step) =
    Step-IsInside has_row ui previous r step (Reach-IsInside has_row ui start previous h reach)
