-- ===== src/Registry/Move.antt =====
-- When a workspace moves in the array, the current one stays the current one (workspace_move_in_array).
use prettymux.Prelude.{
  ℕ, zero, suc, ◌≤◌, ◌<◌, ◌≡◌, refl, sym, ap, ap₂, ◌∙◌, Bool, true, false, none, some, List, arith,
  ◌==◌, length, get_elem?, insert_at, erase_at, Bool-cases, inl, inr, lt_of_get_elem?,
  length-erase_at, ltb, leb, get_elem?-insert_at, get_elem?_lt, erase_at-insert_at,
}
use prettymux.Prelude.Int.{ℤ, pos, negsuc, index?, suc-ℤ_one, +ℤ_one}
use prettymux.Prelude.Slices.{
  get_elem?-erase_at_lt, get_elem?-erase_at_le, get_elem?-insert_at_lt, get_elem?-insert_at_le,
}
use prettymux.Registry.{Registry, Workspace, tracked, move_in_array, get_current}

-- The array after the move, at the index that `tracked` gives.
module _ {W : Type 0} (xs : List W) (from_idx to_idx : ℕ) (w : W)
    (found : get_elem? xs from_idx ≡ some w) (inside : to_idx < length xs) where
  room : to_idx ≤ length (erase_at xs from_idx)
  room =
      let h : suc (length (erase_at xs from_idx)) ≡ length xs =
        length-erase_at xs from_idx (lt_of_get_elem? xs from_idx found) in
      omega arith

  moved_self : get_elem? (insert_at (erase_at xs from_idx) to_idx w) to_idx ≡ get_elem? xs from_idx
  moved_self = get_elem?-insert_at (erase_at xs from_idx) to_idx w room ∙ sym found

  moved_left :
      (c : ℕ)
      → from_idx ≤ c
      → c < to_idx
      → get_elem? (insert_at (erase_at xs from_idx) to_idx w) c ≡ get_elem? xs (suc c)
  moved_left c h k =
      get_elem?-insert_at_lt (erase_at xs from_idx) to_idx c w room k
      ∙ get_elem?-erase_at_le xs from_idx c h

  moved_right :
      (c : ℕ)
      → to_idx ≤ c
      → c < from_idx
      → get_elem? (insert_at (erase_at xs from_idx) to_idx w) (suc c) ≡ get_elem? xs c
  moved_right c h k =
      get_elem?-insert_at_le (erase_at xs from_idx) to_idx c w room h
      ∙ get_elem?-erase_at_lt xs from_idx c k

  unmoved_low :
      (c : ℕ)
      → c < from_idx
      → c < to_idx
      → get_elem? (insert_at (erase_at xs from_idx) to_idx w) c ≡ get_elem? xs c
  unmoved_low c h k =
      get_elem?-insert_at_lt (erase_at xs from_idx) to_idx c w room k
      ∙ get_elem?-erase_at_lt xs from_idx c h

  unmoved_high :
      (c : ℕ)
      → from_idx ≤ c
      → to_idx ≤ c
      → get_elem? (insert_at (erase_at xs from_idx) to_idx w) (suc c) ≡ get_elem? xs (suc c)
  unmoved_high c h k =
      get_elem?-insert_at_le (erase_at xs from_idx) to_idx c w room k
      ∙ get_elem?-erase_at_le xs from_idx c h

  at_index :
      (v : ℤ) (k : ℕ)
      → v ≡ pos k
      → index? (insert_at (erase_at xs from_idx) to_idx w) v
        ≡ get_elem? (insert_at (erase_at xs from_idx) to_idx w) k
  at_index v k e = ap (index? (insert_at (erase_at xs from_idx) to_idx w)) e

  tracked_low :
      (c : ℕ)
      → c < from_idx
      → index? (insert_at (erase_at xs from_idx) to_idx w) (tracked from_idx to_idx (pos c))
        ≡ get_elem? xs c
  tracked_low c h = elim (Bool-cases (leb to_idx c)) [
    | inl right ↦
        at_index (tracked from_idx to_idx (pos c)) (suc c) (ground (arith, +ℤ_one c))
        ∙ moved_right c (ground arith) h
    | inr low ↦
        at_index (tracked from_idx to_idx (pos c)) c (ground arith) ∙ unmoved_low c h (ground arith)
  ]

  tracked_high :
      (c : ℕ)
      → from_idx ≤ c
      → index? (insert_at (erase_at xs from_idx) to_idx w) (tracked from_idx to_idx (pos (suc c)))
        ≡ get_elem? xs (suc c)
  tracked_high c h = elim (Bool-cases (leb (suc c) to_idx)) [
    | inl left ↦
        at_index (tracked from_idx to_idx (pos (suc c))) c (ground (arith, suc-ℤ_one c))
        ∙ moved_left c h (ground arith)
    | inr high ↦
        at_index (tracked from_idx to_idx (pos (suc c))) (suc c) (ground arith)
        ∙ unmoved_high c h (ground arith)
  ]

  tracked_same :
      (c : ℕ)
      → c ≡ from_idx
      → index? (insert_at (erase_at xs from_idx) to_idx w) (tracked from_idx to_idx (pos c))
        ≡ get_elem? xs c
  tracked_same c h =
      at_index (tracked from_idx to_idx (pos c)) to_idx (ground arith)
      ∙ moved_self
      ∙ ap (get_elem? xs) (sym h)

  -- Whatever workspace is the current one, it is at its new index.
  index?-tracked :
      (current : ℤ)
      → index? (insert_at (erase_at xs from_idx) to_idx w) (tracked from_idx to_idx current)
        ≡ index? xs current
  index?-tracked (negsuc n) = at_negsuc (ground arith)
    where
      at_negsuc :
          tracked from_idx to_idx (negsuc n) ≡ negsuc n
          → index? (insert_at (erase_at xs from_idx) to_idx w) (tracked from_idx to_idx (negsuc n))
            ≡ none
      at_negsuc e = ap (index? (insert_at (erase_at xs from_idx) to_idx w)) e
  index?-tracked (pos zero) = elim (Bool-cases (0 == from_idx)) [
    | inl self ↦ tracked_same 0 (ground arith)
    | inr other ↦ tracked_low 0 (ground arith)
  ]
  index?-tracked (pos (suc c)) = elim (Bool-cases (suc c == from_idx)) [
    | inl self ↦ tracked_same (suc c) (ground arith)
    | inr other ↦ elim (Bool-cases (ltb from_idx (suc c))) [
      | inl after ↦ tracked_high c (ground arith)
      | inr before ↦ tracked_low (suc c) (ground arith)
    ]
  ]

get_current-index? : (r : Registry) → get_current r ≡ index? r.workspaces r.current_workspace
unfolding get_current
get_current-index? r = refl

-- What is out of range changes nothing.
pub move-out :
    (has_row : ℤ → Bool) (r : Registry) (i j : ℕ)
    → get_elem? r.workspaces i ≡ none
    → move_in_array has_row r (pos i) (pos j) ≡ r
unfolding move_in_array
move-out has_row r i j out = ground arith

pub move-missing :
    (has_row : ℤ → Bool) (r : Registry) (i j : ℕ)
    → get_elem? r.workspaces j ≡ none
    → move_in_array has_row r (pos i) (pos j) ≡ r
unfolding move_in_array
move-missing has_row r i j out = ground arith

pub move-negative_from :
    (has_row : ℤ → Bool) (r : Registry) (n : ℕ) (to_idx : ℤ)
    → move_in_array has_row r (negsuc n) to_idx ≡ r
unfolding move_in_array
move-negative_from has_row r n to_idx = refl

pub move-negative_to :
    (has_row : ℤ → Bool) (r : Registry) (i n : ℕ) → move_in_array has_row r (pos i) (negsuc n) ≡ r
unfolding move_in_array
move-negative_to has_row r i n = refl

-- What the move does to the state.
module _ (has_row : ℤ → Bool) (r : Registry) (from_idx to_idx : ℕ) (ws other : Workspace)
    (found : get_elem? r.workspaces from_idx ≡ some ws)
    (there : get_elem? r.workspaces to_idx ≡ some other) where
  pub move-stays :
      (from_idx == to_idx) ≡ true → move_in_array has_row r (pos from_idx) (pos to_idx) ≡ r
  unfolding move_in_array
  move-stays same = ground arith

  pub move-workspaces :
      (from_idx == to_idx) ≡ false
      → (move_in_array has_row r (pos from_idx) (pos to_idx)).workspaces
        ≡ insert_at (erase_at r.workspaces from_idx) to_idx ws
  unfolding move_in_array
  move-workspaces moved = ground arith

  pub move-current :
      (from_idx == to_idx) ≡ false
      → (move_in_array has_row r (pos from_idx) (pos to_idx)).current_workspace
        ≡ tracked from_idx to_idx r.current_workspace
  unfolding move_in_array
  move-current moved = ground arith

-- Moving a workspace of the array to another index of it that is not negative puts it at that index, keeps the others in their order, and
-- the current workspace, which is any, stays the current one.
pub move-get_current :
    (has_row : ℤ → Bool) (r : Registry) (from_idx to_idx : ℕ) (ws : Workspace)
    → get_elem? r.workspaces from_idx ≡ some ws
    → to_idx < length r.workspaces
    → (get_current (move_in_array has_row r (pos from_idx) (pos to_idx)) ≡ get_current r)
      × (get_elem? (move_in_array has_row r (pos from_idx) (pos to_idx)).workspaces to_idx
          ≡ some ws)
      × (erase_at (move_in_array has_row r (pos from_idx) (pos to_idx)).workspaces to_idx
          ≡ erase_at r.workspaces from_idx)
move-get_current has_row r from_idx to_idx ws found inside =
    elim (Bool-cases (from_idx == to_idx)) [
      | inl same ↦
          let stays : move_in_array has_row r (pos from_idx) (pos to_idx) ≡ r =
            move-stays has_row r from_idx to_idx ws other.0 found other.1 same in
          (
            ap get_current stays,
            ap (λ s. get_elem? s.workspaces to_idx) stays
                ∙ ap (get_elem? r.workspaces) (ground arith)
                ∙ found,
            ap (λ s. erase_at s.workspaces to_idx) stays
                ∙ ap (erase_at r.workspaces) (ground arith),
          )
      | inr moved ↦
          let array : (move_in_array has_row r (pos from_idx) (pos to_idx)).workspaces
              ≡ insert_at (erase_at r.workspaces from_idx) to_idx ws =
            move-workspaces has_row r from_idx to_idx ws other.0 found other.1 moved in
          let len : to_idx ≤ length (erase_at r.workspaces from_idx) =
            room r.workspaces from_idx to_idx ws found inside in
          (
            get_current-index? (move_in_array has_row r (pos from_idx) (pos to_idx))
                ∙ ap₂ index? array
                    (move-current has_row r from_idx to_idx ws other.0 found other.1 moved)
                ∙ index?-tracked r.workspaces from_idx to_idx ws found inside r.current_workspace
                ∙ sym (get_current-index? r),
            ap (λ l. get_elem? l to_idx) array
                ∙ get_elem?-insert_at (erase_at r.workspaces from_idx) to_idx ws len,
            ap (λ l. erase_at l to_idx) array
                ∙ erase_at-insert_at (erase_at r.workspaces from_idx) to_idx ws len,
          )
    ]
  where
    other : (v : Workspace) × (get_elem? r.workspaces to_idx ≡ some v)
    other = get_elem?_lt r.workspaces to_idx inside
