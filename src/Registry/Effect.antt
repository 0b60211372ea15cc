-- ===== src/Registry/Effect.antt =====
-- What detaching, removing and attaching a workspace do to the array and to the index of the current one.
use prettymux.Prelude.{
  ℕ, suc, ◌≤◌, ◌≡◌, refl, false, some, arith, length, get_elem?, insert_at, erase_at,
  length-insert_at, leb,
}
use prettymux.Prelude.Int.{ℤ, pos, negsuc, index?}
use prettymux.Registry.{Registry, Workspace, get_current}
use prettymux.Registry.Members.{
  Ui, switch, remove, detach, attach_with, attach_index, detached_current, attached_current,
  pulled_back,
}

pub get_current-index? : (r : Registry) → get_current r ≡ index? r.workspaces r.current_workspace
unfolding get_current
get_current-index? r = refl

module _ (ui : Ui) (index : ℕ) (r : Registry) (ws : Workspace)
    (found : get_elem? r.workspaces index ≡ some ws) where
  pub workspaces-detach : (detach ui (pos index) r).0.workspaces ≡ erase_at r.workspaces index
  unfolding detach switch
  workspaces-detach = ground arith

  pub current-detach :
      (detach ui (pos index) r).0.current_workspace
      ≡ detached_current index (length (erase_at r.workspaces index)) r.current_workspace
  unfolding detach switch
  current-detach = ground arith

  pub workspaces-remove :
      leb (length r.workspaces) 1 ≡ false
      → (remove ui index r).workspaces ≡ erase_at r.workspaces index
  unfolding remove switch
  workspaces-remove more = ground arith

  pub current-remove :
      leb (length r.workspaces) 1 ≡ false
      → (remove ui index r).current_workspace
        ≡ pulled_back (length (erase_at r.workspaces index)) r.current_workspace
  unfolding remove switch
  current-remove more = ground arith

module _ (ui : Ui) (ws : Workspace) (target_index : ℤ) (r : Registry) where
  pub workspaces-attach :
      (attach_with ui ws target_index r).workspaces
      ≡ insert_at r.workspaces
          (attach_index target_index (length r.workspaces))
          (record ws { detached_container_ref = false })
  unfolding attach_with switch
  workspaces-attach = ground arith

  pub current-attach :
      (attach_with ui ws target_index r).current_workspace
      ≡ attached_current
          (attach_index target_index (length r.workspaces))
          (suc (length r.workspaces))
          r.current_workspace
  unfolding attach_with switch
  current-attach = ground (
    arith,
    length-insert_at r.workspaces (attach_index target_index (length r.workspaces))
        (record ws { detached_container_ref = false }),
  )

-- The wanted index, or the end.
pub attach_index_le : (target_index : ℤ) (len : ℕ) → attach_index target_index len ≤ len
attach_index_le (pos i) len = ground arith
attach_index_le (negsuc i) len = ground arith
