-- ===== src/Notifications/Examples.antt =====
-- The theorems on notifications at concrete states.
use prettymux.Prelude.{ℕ, ◌+◌, ◌≡◌, refl, List, [], ◌∷◌, ◌++◌, min, map, erase_at}
use prettymux.Prelude.Int.{pos, negsuc}
use prettymux.Notifications.{
  Entry, Notifications, initial, add_full, count, on_workspace_removed, removal_loop,
  bell_button_update,
}
use prettymux.Notifications.Bounded.{new_entry, add_full-bounded}
use prettymux.Notifications.Removal.{kept, target, on_workspace_removed-targets}

-- One notification of the removed workspace, one of a later one and one of none.
abbrev three : Notifications
three =
    add_full (99 ∷ []) (negsuc 0) 0 (pos 0) 3
      (add_full (98 ∷ []) (pos 2) 7 (pos 1) 3 (add_full (97 ∷ []) (pos 1) 5 (pos 0) 3 initial))

abbrev three_workspaces : List ℕ
three_workspaces = 10 ∷ 20 ∷ 30 ∷ []

on_workspace_removed-targets_example :
    map (target (erase_at three_workspaces 1)) (on_workspace_removed (pos 1) three).entries
    ≡ map (target three_workspaces) (kept (pos 1) three.entries)
on_workspace_removed-targets_example = on_workspace_removed-targets three_workspaces 1 three

add_full-bounded_example :
    (count (add_full (100 ∷ []) (pos 0) 0 (pos 0) 3 three) ≡ min 50 (count three + 1))
    × ((gone : List Entry) × (gone ++ (add_full (100 ∷ []) (pos 0) 0 (pos 0) 3 three).entries
          ≡ three.entries ++ new_entry (100 ∷ []) (pos 0) 0 (pos 0) ∷ []))
add_full-bounded_example = add_full-bounded (100 ∷ []) (pos 0) 0 (pos 0) 3 three

-- The later one moves to the index before, the first one goes.
removed_two : count (on_workspace_removed (pos 1) three) ≡ 2
unfolding count on_workspace_removed add_full removal_loop bell_button_update
removed_two = refl
