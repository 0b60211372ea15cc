-- ===== src/Registry/Serial.antt =====
-- New serial numbers: the search of workspace_allocate_serial_avoiding ends.
use prettymux.Prelude.{
  ℕ, zero, suc, ◌+◌, ◌%◌, ◌^◌, ◌≤◌, ◌<◌, ◌≡◌, refl, ap, ◌∙◌, Bool, true, false, ◌||◌, some, List,
  [], ◌∷◌, arith, ◌==◌, if◌then◌else◌, length, leb, Bool-cases, inl, inr,
}
use prettymux.Registry.{
  Registry, Workspace, has_serial, is_taken, find_serial, allocate_serial_avoiding,
}

-- How many of the workspaces and of the avoided numbers block a number that is not below `candidate`.
abbrev one_if : Bool → ℕ
one_if b = if b then 1 else 0

abbrev above : ℕ → List Workspace → ℕ
above candidate [] = 0
above candidate (ws ∷ rest) = one_if (leb candidate ws.serial) + above candidate rest

abbrev blocked_above : ℕ → ℕ → ℕ → List Workspace → ℕ
blocked_above candidate a b l =
    one_if (leb candidate a) + one_if (leb candidate b) + above candidate l

above-suc : (candidate : ℕ) (l : List Workspace) → above (suc candidate) l ≤ above candidate l
above-suc candidate [] = omega arith
above-suc candidate (ws ∷ rest) = ground (arith, above-suc candidate rest)

above_taken :
    (candidate : ℕ) (l : List Workspace)
    → has_serial candidate l ≡ true
    → suc (above (suc candidate) l) ≤ above candidate l
above_taken candidate [] h = cc
above_taken candidate (ws ∷ rest) h = elim (Bool-cases (ws.serial == candidate)) [
  | inl here ↦ ground (arith, above-suc candidate rest)
  | inr later ↦ ground (arith, above_taken candidate rest (ground arith))
]

above-length : (candidate : ℕ) (l : List Workspace) → above candidate l ≤ length l
above-length candidate [] = omega arith
above-length candidate (ws ∷ rest) = ground (arith, above-length candidate rest)

abbrev pub is_blocked : Registry → ℕ → ℕ → ℕ → Bool
is_blocked r a b candidate = candidate == a || candidate == b || is_taken r candidate

blocked_above-suc :
    (r : Registry) (a b candidate : ℕ)
    → is_blocked r a b candidate ≡ true
    → suc (blocked_above (suc candidate) a b r.workspaces)
      ≤ blocked_above candidate a b r.workspaces
unfolding is_taken
blocked_above-suc r a b candidate h = elim (Bool-cases (has_serial candidate r.workspaces)) [
  | inl taken ↦ ground (arith, above_taken candidate r.workspaces taken)
  | inr other ↦ ground (arith, above-suc candidate r.workspaces)
]

find_serial-suc :
    (fuel : ℕ) (r : Registry) (a b candidate : ℕ)
    → find_serial (suc fuel) r a b candidate ≡ (
        if is_blocked r a b candidate
        then find_serial fuel r a b ((candidate + 1) % 2 ^ 64)
        else some candidate)
unfolding find_serial
find_serial-suc fuel r a b candidate = refl

find_serial-here :
    (fuel : ℕ) (r : Registry) (a b candidate : ℕ)
    → is_blocked r a b candidate ≡ false
    → find_serial (suc fuel) r a b candidate ≡ some candidate
find_serial-here fuel r a b candidate free = find_serial-suc fuel r a b candidate ∙ rw free refl

find_serial-next :
    (fuel : ℕ) (r : Registry) (a b candidate : ℕ)
    → is_blocked r a b candidate ≡ true
    → candidate + 1 < 2 ^ 64
    → find_serial (suc fuel) r a b candidate ≡ find_serial fuel r a b (suc candidate)
find_serial-next fuel r a b candidate blocked room =
    let next : (candidate + 1) % 2 ^ 64 ≡ suc candidate = omega arith in
    find_serial-suc fuel r a b candidate ∙ rw blocked (ap (find_serial fuel r a b) next)

-- The number that the search finds.
abbrev Found : Registry → ℕ → ℕ → ℕ → ℕ → Type 0
Found r a b candidate fuel =
    (s : ℕ) × (find_serial fuel r a b candidate ≡ some s)
    × (candidate ≤ s)
    × (s < candidate + fuel)
    × (is_blocked r a b s ≡ false)

find_serial-Found :
    (fuel : ℕ) (r : Registry) (a b candidate : ℕ)
    → candidate + fuel ≤ 2 ^ 64
    → blocked_above candidate a b r.workspaces < fuel
    → Found r a b candidate fuel
find_serial-Found zero r a b candidate room h = absurd (omega arith)
find_serial-Found (suc fuel) r a b candidate room h =
    elim (Bool-cases (is_blocked r a b candidate)) [
      | inl blocked ↦
          let found : Found r a b (suc candidate) fuel =
            find_serial-Found fuel r a b (suc candidate) (omega arith)
              (omega (arith, blocked_above-suc r a b candidate blocked)) in
          (
            found.0,
            find_serial-next fuel r a b candidate blocked (ground (arith, found.2, found.3))
                ∙ found.1,
            omega (arith, found.2),
            omega (arith, found.3),
            found.4,
          )
      | inr free ↦
          (candidate, find_serial-here fuel r a b candidate free, omega arith, omega arith, free)
    ]

-- What stops the search in an array with room for new numbers.
abbrev pub HasRoom : Registry → Type 0
HasRoom r = r.next_workspace_serial + length r.workspaces + 5 ≤ 2 ^ 64

allocate-eq :
    (r : Registry) (a b first s : ℕ)
    → first ≡ (if r.next_workspace_serial == 0 then 1 else r.next_workspace_serial)
    → find_serial (length r.workspaces + 3) r a b first ≡ some s
    → (s + 1) % 2 ^ 64 ≡ s + 1
    → allocate_serial_avoiding r a b ≡ some (record r { next_workspace_serial = s + 1 }, s)
unfolding allocate_serial_avoiding
allocate-eq r a b first s start found small = ground arith

-- While the numbers do not run out, `workspace_allocate_serial_avoiding` ends with a number that is not
-- 0, not below the next one, neither of the avoided ones and not that of a workspace, and the next
-- number is the one right behind it; nothing else changes.
pub allocate_serial_avoiding-IsNew :
    (r : Registry) (a b : ℕ)
    → HasRoom r
    → (s : ℕ) × (allocate_serial_avoiding r a b
        ≡ some (record r { next_workspace_serial = s + 1 }, s))
      × (0 < s)
      × (r.next_workspace_serial ≤ s)
      × (is_blocked r a b s ≡ false)
allocate_serial_avoiding-IsNew r a b room =
    let first : ℕ = if r.next_workspace_serial == 0 then 1 else r.next_workspace_serial in
    let low : 0 < first = ground arith in
    let start : r.next_workspace_serial ≤ first = ground arith in
    let high : first ≤ r.next_workspace_serial + 1 = ground arith in
    let few : blocked_above first a b r.workspaces < length r.workspaces + 3 =
      ground (arith, above-length first r.workspaces) in
    let found : Found r a b first (length r.workspaces + 3) =
      find_serial-Found (length r.workspaces + 3) r a b first (omega arith) few in
    (
      found.0,
      allocate-eq r a b first found.0 refl found.1 (omega (arith, found.3)),
      omega (arith, found.2),
      omega (arith, found.2),
      found.4,
    )
