-- ===== src/Registry/Fresh.antt =====
-- A new workspace has a serial number of its own (workspace_add).
use prettymux.Prelude.{
  ℕ, ◌+◌, ◌≡◌, refl, sym, false, some, List, [], ◌∷◌, ◌++◌, arith, ◌==◌, length, subst,
}
use prettymux.Prelude.Int.{ℤ, pos}
use prettymux.Registry.{Registry, Workspace, has_serial, allocate_serial_avoiding}
use prettymux.Registry.Members.{Ui, switch, add, with_added}
use prettymux.Registry.Serial.{allocate_serial_avoiding-IsNew, HasRoom}
use prettymux.Registry.Distinct.{Distinct, not_blocked}

pub workspaces-switch :
    (ui : Ui) (index : ℤ) (r : Registry) → (switch ui index r).workspaces ≡ r.workspaces
unfolding switch
workspaces-switch ui index r = ground arith

has_serial-append :
    (serial : ℕ) (l : List Workspace) (ws : Workspace)
    → has_serial serial l ≡ false
    → (ws.serial == serial) ≡ false
    → has_serial serial (l ++ ws ∷ []) ≡ false
has_serial-append serial [] ws h k = ground arith
has_serial-append serial (x ∷ l) ws h k =
    ground (arith, has_serial-append serial l ws (ground arith) k)

append-Distinct :
    (l : List Workspace) (ws : Workspace)
    → Distinct l
    → has_serial ws.serial l ≡ false
    → Distinct (l ++ ws ∷ [])
append-Distinct [] ws d h = (refl, tt)
append-Distinct (x ∷ l) ws d h =
    (has_serial-append x.serial l ws d.0 (ground arith), append-Distinct l ws d.1 (ground arith))

pub add-eq :
    (ui : Ui) (address notebook : ℕ) (r : Registry) (allocated : Registry × ℕ)
    → allocate_serial_avoiding r 0 0 ≡ some allocated
    → add ui address notebook r
      ≡ some (switch ui (pos (length r.workspaces)) (with_added address notebook allocated))
unfolding add
add-eq ui address notebook r allocated found = ground arith

-- While the numbers do not run out, adding a workspace succeeds, the new one stands behind the others, and if
-- the workspaces had pairwise distinct serial numbers before, they have them with the new one.
pub add-Distinct :
    (ui : Ui) (address notebook : ℕ) (r : Registry)
    → HasRoom r
    → Distinct r.workspaces
    → (s : Registry) × (ws : Workspace) × (add ui address notebook r ≡ some s)
      × (s.workspaces ≡ r.workspaces ++ ws ∷ [])
      × (ws.address ≡ address)
      × Distinct s.workspaces
add-Distinct ui address notebook r room d =
    let (fresh, allocated, positive, high, free) = allocate_serial_avoiding-IsNew r 0 0 room in
    let (absent, apart) = not_blocked r 0 0 fresh positive free in
    let numbered : Registry × ℕ = (record r { next_workspace_serial = fresh + 1 }, fresh) in
    let ws : Workspace = record {
      address = address;
      serial = fresh;
      pane_notebooks = notebook ∷ [];
      active_pane = notebook;
      detached_container_ref = false;
    } in
    let s : Registry =
      switch ui (pos (length r.workspaces)) (with_added address notebook numbered) in
    let array : s.workspaces ≡ r.workspaces ++ ws ∷ [] =
      workspaces-switch ui (pos (length r.workspaces)) (with_added address notebook numbered) in
    (
      s,
      ws,
      add-eq ui address notebook r numbered allocated,
      array,
      refl,
      subst Distinct (sym array) (append-Distinct r.workspaces ws d absent),
    )
