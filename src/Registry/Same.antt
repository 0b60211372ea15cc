-- ===== src/Registry/Same.antt =====
-- What keeps the workspaces of the array and the current one: numbering a workspace, restoring one, and going
-- back to the current one (workspace_restore_from_payload_object, workspace_import_from_payload).
use prettymux.Prelude.{
  ℕ, suc, ◌+◌, ◌<◌, ◌≡◌, refl, sym, subst, ap, ap₂, ◌∙◌, ◌⊎◌, Bool, true, Option, none, some, List,
  [], ◌∷◌, ◌++◌, arith, ◌==◌, length, get_elem?, get_elem?_lt, set, Bool-cases, Option-cases, inl,
  inr,
}
use prettymux.Prelude.Int.{pos}
use prettymux.Json.{Members}
use prettymux.Registry.{Registry, Workspace}
use prettymux.Registry.Members.{
  Ui, switch, set_serial, remap_collision, with_serial, find_by_serial,
}
use prettymux.Registry.Serial.{HasRoom, allocate_serial_avoiding-IsNew}
use prettymux.Registry.Distinct.{remap-absent, remap-own, remap-other, restore-eq}
use prettymux.Registry.Fresh.{workspaces-switch}
use prettymux.Registry.Import.{Import, with_panes, with_payload_serial, restore_at, back_to}

-- The same workspace, or one that has the number of the payload and gets another one, and nothing else.
abbrev pub KeptOne : Option ℕ → Workspace → Workspace → Type 0
KeptOne payload x y = (y ≡ x) ⊎ ((payload ≡ some x.serial) × (y ≡ record x { serial = y.serial }))

-- The same workspaces in the same order, but for the number of one that has that of the payload.
abbrev pub Kept : Option ℕ → List Workspace → List Workspace → Type 0
Kept payload [] [] = Unit
Kept payload [] (y ∷ m) = ⊥
Kept payload (x ∷ l) [] = ⊥
Kept payload (x ∷ l) (y ∷ m) = KeptOne payload x y × Kept payload l m

pub Kept-same : (payload : Option ℕ) (l : List Workspace) → Kept payload l l
Kept-same payload [] = tt
Kept-same payload (x ∷ l) = (inl refl, Kept-same payload l)

pub length-Kept :
    (payload : Option ℕ) (l m : List Workspace) → Kept payload l m → length m ≡ length l
length-Kept payload [] [] h = refl
length-Kept payload [] (y ∷ m) h = absurd h
length-Kept payload (x ∷ l) [] h = absurd h
length-Kept payload (x ∷ l) (y ∷ m) h = ground (arith, length-Kept payload l m h.1)

-- The first workspace with the number of the payload gets another one.
set_serial-Kept :
    (serial fresh i : ℕ) (l : List Workspace)
    → find_by_serial serial l ≡ some i
    → Kept (some serial) l (set_serial fresh i l)
set_serial-Kept serial fresh i [] f = tt
set_serial-Kept serial fresh i (ws ∷ rest) f = elim (Bool-cases (ws.serial == serial)) [
  | inl here ↦
      let first : i ≡ 0 = ground arith in
      let own : serial ≡ ws.serial = ground arith in
      subst (λ n. Kept (some serial) (ws ∷ rest) (set_serial fresh n (ws ∷ rest))) (sym first)
        (inr (ap (λ n. some n) own, refl), Kept-same (some serial) rest)
  | inr later ↦ elim (Option-cases (find_by_serial serial rest)) [
    | inl out ↦ absurd (ground arith)
    | inr (n, found) ↦
        let next : i ≡ suc n = ground arith in
        subst (λ k. Kept (some serial) (ws ∷ rest) (set_serial fresh k (ws ∷ rest))) (sym next)
          (inl refl, set_serial-Kept serial fresh n rest found)
  ]
]

remap-Kept :
    (index own serial : ℕ) (r : Registry)
    → HasRoom r
    → (s : Registry) × (remap_collision index own serial r ≡ some s)
      × Kept (some serial) r.workspaces s.workspaces
remap-Kept index own serial r room = elim (Option-cases (find_by_serial serial r.workspaces)) [
  | inl out ↦ (r, remap-absent index own serial r out, Kept-same (some serial) r.workspaces)
  | inr (i, found) ↦ elim (Bool-cases (i == index)) [
    | inl same ↦
        (r, remap-own index own serial r i found same, Kept-same (some serial) r.workspaces)
    | inr other ↦
        let (fresh, allocated, positive, high, free) =
          allocate_serial_avoiding-IsNew r serial own room in
        (
          record r {
            workspaces = set_serial fresh i r.workspaces;
            next_workspace_serial = fresh + 1;
          },
          remap-other index own serial r i (record r { next_workspace_serial = fresh + 1 }) fresh
              found other allocated,
          set_serial-Kept serial fresh i r.workspaces found,
        )
  ]
]

address-KeptOne :
    (payload : Option ℕ) (x y : Workspace) → KeptOne payload x y → y.address ≡ x.address
address-KeptOne payload x y (inl e) = ap (λ (w : Workspace). w.address) e
address-KeptOne payload x y (inr (p, e)) = ap (λ (w : Workspace). w.address) e

-- What is kept of a list with one at its end.
Kept-last :
    (payload : Option ℕ) (l : List Workspace) (x : Workspace) (n : List Workspace)
    → Kept payload (l ++ x ∷ []) n
    → (m : List Workspace) × (y : Workspace) × (n ≡ m ++ y ∷ [])
      × Kept payload l m
      × (y.address ≡ x.address)
Kept-last payload [] x [] h = absurd h
Kept-last payload [] x (y ∷ []) h = ([], y, refl, tt, address-KeptOne payload x y h.0)
Kept-last payload [] x (y ∷ z ∷ n) h = absurd h.1
Kept-last payload (w ∷ l) x [] h = absurd h
Kept-last payload (w ∷ l) x (v ∷ n) h =
    let (m, y, e, kept, address) = Kept-last payload l x n h.1 in
    (v ∷ m, y, ap (λ k. v ∷ k) e, (h.0, kept), address)

set_serial-last :
    (serial : ℕ) (m : List Workspace) (y : Workspace)
    → set_serial serial (length m) (m ++ y ∷ []) ≡ m ++ record y { serial = serial } ∷ []
set_serial-last serial [] y = refl
set_serial-last serial (x ∷ m) y = ap (λ k. x ∷ k) (set_serial-last serial m y)

set-last : (m : List Workspace) (y z : Workspace) → set (m ++ y ∷ []) (length m) z ≡ m ++ z ∷ []
set-last [] y z = refl
set-last (x ∷ m) y z = ap (λ k. x ∷ k) (set-last m y z)

get_elem?-last : (m : List Workspace) (y : Workspace) → get_elem? (m ++ y ∷ []) (length m) ≡ some y
get_elem?-last [] y = refl
get_elem?-last (x ∷ m) y = get_elem?-last m y

-- The workspaces of before are kept, and the new one stands behind them.
abbrev pub Grown : Option ℕ → Import → Registry → Registry → Type 0
Grown payload i before r =
    (m : List Workspace) × (y : Workspace) × (r.workspaces ≡ m ++ y ∷ [])
    × Kept payload before.workspaces m
    × (y.address ≡ i.address)

pub numbered-Grown :
    (payload : Option ℕ) (own : ℕ) (i : Import) (before added : Registry) (y : Workspace)
    → added.workspaces ≡ before.workspaces ++ y ∷ []
    → y.address ≡ i.address
    → HasRoom added
    → (s : Registry) × (with_payload_serial payload (length before.workspaces) own added ≡ some s)
      × Grown payload i before s
numbered-Grown none own i before added y e a room =
    (added, refl, (before.workspaces, y, e, Kept-same none before.workspaces, a))
numbered-Grown (some serial) own i before added y e a room =
    let index = length before.workspaces in
    let (s, remapped, all) = remap-Kept index own serial added room in
    let (m, z, same, kept, address) =
      Kept-last (some serial) before.workspaces y s.workspaces
        (subst (λ l. Kept (some serial) l s.workspaces) e all) in
    let size : index ≡ length m = sym (length-Kept (some serial) before.workspaces m kept) in
    (
      with_serial index serial s,
      restore-eq index own serial added s remapped,
      (
        m,
        record z { serial = serial },
        ap₂ (λ k l. set_serial serial k l) size same ∙ set_serial-last serial m z,
        kept,
        address ∙ a,
      ),
    )

restored-eq :
    (i : Import) (o : Members) (index : ℕ) (r : Registry) (ws : Workspace) (panes : List ℕ × ℕ)
    → get_elem? r.workspaces index ≡ some ws
    → i.restore_panes o ws ≡ some panes
    → restore_at i o index r
      ≡ (record r { workspaces = set r.workspaces index (with_panes panes ws) }, true)
restored-eq i o index r ws panes found e = ground arith

pub restore_at-Grown :
    (payload : Option ℕ) (i : Import) (o : Members) (before r : Registry)
    → Grown payload i before r
    → Grown payload i before (restore_at i o (length before.workspaces) r).0
restore_at-Grown payload i o before r (m, y, same, kept, address) =
    let size : length before.workspaces ≡ length m =
      sym (length-Kept payload before.workspaces m kept) in
    let found : get_elem? r.workspaces (length before.workspaces) ≡ some y =
      ap₂ (λ l k. get_elem? l k) same size ∙ get_elem?-last m y in
    elim (Option-cases (i.restore_panes o y)) [
      | inl e ↦
          let still : (restore_at i o (length before.workspaces) r).0.workspaces ≡ r.workspaces =
            ground arith in
          (m, y, still ∙ same, kept, address)
      | inr (panes, e) ↦ (
        m,
        with_panes panes y,
        ap (λ (p : Registry × Bool). p.0.workspaces)
              (restored-eq i o (length before.workspaces) r y panes found e)
            ∙ ap₂ (λ l k. set l k (with_panes panes y)) same size
            ∙ set-last m y (with_panes panes y),
        kept,
        address,
      )
    ]

current-switch :
    (ui : Ui) (c : ℕ) (r : Registry)
    → c < length r.workspaces
    → (switch ui (pos c) r).current_workspace ≡ pos c
unfolding switch
current-switch ui c r h = let (ws, found) = get_elem?_lt r.workspaces c h in ground arith

back_to-eq :
    (ui : Ui) (c bound : ℕ) (r : Registry)
    → c < bound
    → back_to ui (pos c) bound r ≡ switch ui (pos c) r
back_to-eq ui c bound r h = ground arith

-- Back to the workspace that was the current one.
pub back_to-Same :
    (ui : Ui) (c bound : ℕ) (r : Registry)
    → c < bound
    → c < length r.workspaces
    → ((back_to ui (pos c) bound r).workspaces ≡ r.workspaces)
      × ((back_to ui (pos c) bound r).current_workspace ≡ pos c)
back_to-Same ui c bound r h k =
    let back = back_to-eq ui c bound r h in
    (
      ap (λ (s : Registry). s.workspaces) back ∙ workspaces-switch ui (pos c) r,
      ap (λ (s : Registry). s.current_workspace) back ∙ current-switch ui c r k,
    )
