-- ===== src/Registry/Distinct.antt =====
-- No two workspaces have the same serial number (workspace_allocate_serial_avoiding and what uses it).
use prettymux.Prelude.{
  ℕ, zero, suc, ◌+◌, ◌<◌, ◌≡◌, refl, sym, ap, true, false, none, some, List, [], ◌∷◌, arith, ◌==◌,
  Bool-cases, Option-cases, inl, inr, ◌⊎◌, subst,
}
use prettymux.Registry.{Registry, Workspace, has_serial, is_taken, allocate_serial_avoiding}
use prettymux.Registry.Members.{
  find_by_serial, set_serial, remap_collision, with_serial, restore_serial,
}
use prettymux.Registry.Serial.{allocate_serial_avoiding-IsNew, is_blocked, HasRoom}

-- The serial numbers are pairwise distinct.
abbrev pub Distinct : List Workspace → Type 0
Distinct [] = Unit
Distinct (ws ∷ rest) = (has_serial ws.serial rest ≡ false) × Distinct rest

-- A number that the list has not, and that no write brings in.
has_serial-set_serial :
    (t serial i : ℕ) (l : List Workspace)
    → has_serial t l ≡ false
    → (serial == t) ≡ false
    → has_serial t (set_serial serial i l) ≡ false
has_serial-set_serial t serial i [] h k = refl
has_serial-set_serial t serial zero (ws ∷ rest) h k = ground arith
has_serial-set_serial t serial (suc i) (ws ∷ rest) h k =
    ground (arith, has_serial-set_serial t serial i rest (ground arith) k)

set_serial-Distinct :
    (serial i : ℕ) (l : List Workspace)
    → has_serial serial l ≡ false
    → Distinct l
    → Distinct (set_serial serial i l)
set_serial-Distinct serial i [] h d = d
set_serial-Distinct serial zero (ws ∷ rest) h d = (ground arith, d.1)
set_serial-Distinct serial (suc i) (ws ∷ rest) h d = (
  has_serial-set_serial ws.serial serial i rest d.0 (ground arith),
  set_serial-Distinct serial i rest (ground arith) d.1,
)

-- The first workspace with a number, as the only one, gets another number.
find-gone :
    (serial other i : ℕ) (l : List Workspace)
    → Distinct l
    → find_by_serial serial l ≡ some i
    → (other == serial) ≡ false
    → has_serial serial (set_serial other i l) ≡ false
find-gone serial other i [] d f k = cc
find-gone serial other i (ws ∷ rest) d f k = elim (Bool-cases (ws.serial == serial)) [
  | inl here ↦
      let first : i ≡ 0 = ground arith in
      let away : has_serial serial rest ≡ false = ground (arith, d.0) in
      subst (λ n. has_serial serial (set_serial other n (ws ∷ rest)) ≡ false) (sym first)
        (ground arith)
  | inr later ↦ elim (Option-cases (find_by_serial serial rest)) [
    | inl out ↦ absurd (ground arith)
    | inr (n, found) ↦
        let next : i ≡ suc n = ground arith in
        subst (λ m. has_serial serial (set_serial other m (ws ∷ rest)) ≡ false) (sym next)
          (ground (arith, find-gone serial other n rest d.1 found k))
  ]
]

find-none :
    (serial : ℕ) (l : List Workspace) → find_by_serial serial l ≡ none → has_serial serial l ≡ false
find-none serial [] f = refl
find-none serial (ws ∷ rest) f = elim (Option-cases (find_by_serial serial rest)) [
  | inl out ↦ ground (arith, find-none serial rest out)
  | inr (n, found) ↦ absurd (ground arith)
]

-- A workspace that has the number already.
find-same :
    (serial i : ℕ) (l : List Workspace)
    → find_by_serial serial l ≡ some i
    → set_serial serial i l ≡ l
find-same serial i [] f = refl
find-same serial i (ws ∷ rest) f = elim (Bool-cases (ws.serial == serial)) [
  | inl here ↦
      let first : i ≡ 0 = ground arith in
      let own : serial ≡ ws.serial = ground arith in
      subst (λ n. set_serial serial n (ws ∷ rest) ≡ ws ∷ rest) (sym first)
        (ap (λ v. record ws { serial = v } ∷ rest) own)
  | inr later ↦ elim (Option-cases (find_by_serial serial rest)) [
    | inl out ↦ absurd (ground arith)
    | inr (n, found) ↦
        let next : i ≡ suc n = ground arith in
        subst (λ m. set_serial serial m (ws ∷ rest) ≡ ws ∷ rest) (sym next)
          (ap (λ l. ws ∷ l) (find-same serial n rest found))
  ]
]

-- What the steps give, one lemma for each way through the code.
module _ (index own serial : ℕ) (r : Registry) where
  pub remap-absent :
      find_by_serial serial r.workspaces ≡ none → remap_collision index own serial r ≡ some r
  unfolding remap_collision
  remap-absent out = ground arith

  pub remap-own :
      (i : ℕ)
      → find_by_serial serial r.workspaces ≡ some i
      → (i == index) ≡ true
      → remap_collision index own serial r ≡ some r
  unfolding remap_collision
  remap-own i found same = ground arith

  pub remap-other :
      (i : ℕ) (s : Registry) (fresh : ℕ)
      → find_by_serial serial r.workspaces ≡ some i
      → (i == index) ≡ false
      → allocate_serial_avoiding r serial own ≡ some (s, fresh)
      → remap_collision index own serial r
        ≡ some (record s { workspaces = set_serial fresh i s.workspaces })
  unfolding remap_collision
  remap-other i s fresh found other new = ground arith

pub not_blocked :
    (r : Registry) (a b s : ℕ)
    → 0 < s
    → is_blocked r a b s ≡ false
    → (has_serial s r.workspaces ≡ false) × ((s == a) ≡ false)
unfolding is_taken
not_blocked r a b s h free = (ground arith, ground arith)

pub restore-eq :
    (index own serial : ℕ) (r s : Registry)
    → remap_collision index own serial r ≡ some s
    → restore_serial index own serial r ≡ some (with_serial index serial s)
unfolding restore_serial
restore-eq index own serial r s e = rw (e, restore_serial) refl

-- The number is free, or the workspace itself has it.
remap-free :
    (index own serial : ℕ) (r : Registry)
    → HasRoom r
    → Distinct r.workspaces
    → (s : Registry) × (remap_collision index own serial r ≡ some s)
      × Distinct s.workspaces
      × ((has_serial serial s.workspaces ≡ false)
          ⊎ (set_serial serial index s.workspaces ≡ s.workspaces))
remap-free index own serial r room d = elim (Option-cases (find_by_serial serial r.workspaces)) [
  | inl out ↦ (r, remap-absent index own serial r out, d, inl (find-none serial r.workspaces out))
  | inr (i, found) ↦ elim (Bool-cases (i == index)) [
    | inl same ↦
        let at : i ≡ index = ground arith in
        (
          r,
          remap-own index own serial r i found same,
          d,
          inr (
              subst (λ n. set_serial serial n r.workspaces ≡ r.workspaces) at
                (find-same serial i r.workspaces found)),
        )
    | inr other ↦
        let (fresh, allocated, positive, high, free) =
          allocate_serial_avoiding-IsNew r serial own room in
        let (absent, apart) = not_blocked r serial own fresh positive free in
        (
          record r {
            workspaces = set_serial fresh i r.workspaces;
            next_workspace_serial = fresh + 1;
          },
          remap-other index own serial r i (record r { next_workspace_serial = fresh + 1 }) fresh
              found other allocated,
          set_serial-Distinct fresh i r.workspaces absent d,
          inl (find-gone serial fresh i r.workspaces d found apart),
        )
  ]
]

-- While the numbers do not run out, restoring a workspace with a serial number of a payload succeeds, and
-- if the workspaces had pairwise distinct serial numbers before, they have them afterwards.
pub restore_serial-Distinct :
    (index own serial : ℕ) (r : Registry)
    → HasRoom r
    → Distinct r.workspaces
    → (s : Registry) × (restore_serial index own serial r ≡ some s) × Distinct s.workspaces
restore_serial-Distinct index own serial r room d =
    let (s, remapped, distinct, free) = remap-free index own serial r room d in
    (
      with_serial index serial s,
      restore-eq index own serial r s remapped,
      elim free [
        | inl absent ↦ set_serial-Distinct serial index s.workspaces absent distinct
        | inr same ↦ subst Distinct (sym same) distinct
      ],
    )
