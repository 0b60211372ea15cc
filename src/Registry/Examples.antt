-- ===== src/Registry/Examples.antt =====
-- The theorems on the array of workspaces at concrete states.
use prettymux.Prelude.{
  ◌++◌, ℕ, ◌+◌, ◌≡◌, Option, List, map, refl, Bool, true, false, none, some, [], ◌∷◌, get_elem?,
  erase_at, arith, ◌<◌, ◌≤◌,
}
use prettymux.Prelude.Int.{ℤ, pos, ◌-ℤ◌}
use prettymux.Notifications.{initial}
use prettymux.Registry.{
  Registry, Workspace, get_current, move_in_array, find_serial, is_taken, allocate_serial_avoiding,
}
use prettymux.Registry.Members.{
  with_added, add, Ui, switch, remove, detach, attach_with, restore_serial, remap_collision,
}
use prettymux.Registry.Move.{move-get_current}
use prettymux.Registry.Current.{detach-get_current, remove-get_current, attach-get_current}
use prettymux.Registry.Serial.{allocate_serial_avoiding-IsNew, is_blocked}
use prettymux.Registry.Fresh.{add-Distinct}
use prettymux.Registry.Distinct.{restore_serial-Distinct, Distinct}
use prettymux.Json.{object, member, int, end}
use prettymux.Prelude.Text.{codes}
use prettymux.Registry.Import.{
  Import, ImportResult, import_from_payload, import_object, restore_object, finish, undo,
}
use prettymux.Registry.Inside.{IsInside}
use prettymux.Registry.Reach.{begin, after, Reach-IsInside, switched, removed, detached}

abbrev ui : Ui
ui = record { has_row = λ i. true; is_notebook = λ pane. true }

abbrev has_row : ℤ → Bool
has_row i = true

abbrev numbered : ℕ → Workspace
numbered n = record {
  address = 100 + n;
  serial = n;
  pane_notebooks = (200 + n) ∷ [];
  active_pane = 200 + n;
  detached_container_ref = false;
}

-- Three workspaces, of which the second is the current one.
abbrev three : Registry
three = record {
  workspaces = numbered 1 ∷ numbered 2 ∷ numbered 3 ∷ [];
  current_workspace = pos 1;
  next_workspace_serial = 4;
  notifications = initial;
  calls = [];
}

move-get_current_example :
    (get_current (move_in_array has_row three (pos 0) (pos 2)) ≡ get_current three)
    × (get_elem? (move_in_array has_row three (pos 0) (pos 2)).workspaces 2 ≡ some (numbered 1))
    × (erase_at (move_in_array has_row three (pos 0) (pos 2)).workspaces 2
        ≡ erase_at three.workspaces 0)
move-get_current_example = move-get_current has_row three 0 2 (numbered 1) refl (omega arith)

detach-get_current_example :
    (get_current (detach ui (pos 0) three).0 ≡ get_current three)
    × ((detach ui (pos 0) three).0.workspaces ≡ erase_at three.workspaces 0)
detach-get_current_example = detach-get_current ui 0 three (numbered 1) refl refl

remove-get_current_example :
    ((remove ui 0 three).workspaces ≡ erase_at three.workspaces 0)
    × (1 < 0 → get_current (remove ui 0 three) ≡ get_current three)
    × (0 ≤ 1 → 2 < 3 → get_current (remove ui 0 three) ≡ some (numbered 3))
remove-get_current_example = remove-get_current ui 0 1 three (numbered 1) refl refl (omega arith)

attach-get_current_example :
    (get_current (attach_with ui (numbered 9) (pos 0) three) ≡ get_current three)
    × (get_elem? (attach_with ui (numbered 9) (pos 0) three).workspaces 0 ≡ some (numbered 9))
    × (erase_at (attach_with ui (numbered 9) (pos 0) three).workspaces 0 ≡ three.workspaces)
attach-get_current_example = attach-get_current ui (numbered 9) (pos 0) 1 three refl (omega arith)

allocate_serial_avoiding-IsNew_example :
    (s : ℕ) × (allocate_serial_avoiding three 4 5
      ≡ some (record three { next_workspace_serial = s + 1 }, s))
    × (0 < s)
    × (4 ≤ s)
    × (is_blocked three 4 5 s ≡ false)
allocate_serial_avoiding-IsNew_example = allocate_serial_avoiding-IsNew three 4 5 (omega arith)

-- The last workspace gets the number of the first.
restore_serial-Distinct_example :
    (s : Registry) × (restore_serial 2 3 1 three ≡ some s) × Distinct s.workspaces
restore_serial-Distinct_example =
    restore_serial-Distinct 2 3 1 three (omega arith) (refl, (refl, (refl, tt)))

Reach-IsInside_example : IsInside (detach ui (pos 2) (remove ui 0 (switch ui (pos 2) three))).0
Reach-IsInside_example =
    Reach-IsInside has_row ui three (detach ui (pos 2) (remove ui 0 (switch ui (pos 2) three))).0
      (refl, omega arith)
      (after (remove ui 0 (switch ui (pos 2) three))
        (detach ui (pos 2) (remove ui 0 (switch ui (pos 2) three))).0
        (after (switch ui (pos 2) three) (remove ui 0 (switch ui (pos 2) three))
          (after three (switch ui (pos 2) three) begin (switched (pos 2) three))
          (removed 0 (switch ui (pos 2) three)))
        (detached (pos 2) (remove ui 0 (switch ui (pos 2) three))))

add-Distinct_example :
    (s : Registry) × (ws : Workspace) × (add ui 9 10 three ≡ some s)
    × (s.workspaces ≡ three.workspaces ++ ws ∷ [])
    × (ws.address ≡ 9)
    × Distinct s.workspaces
add-Distinct_example = add-Distinct ui 9 10 three (omega arith) (refl, (refl, (refl, tt)))

-- An import whose number is that of the second workspace; its layout cannot be rebuilt.
abbrev failing : Import
failing = record {
  ui = ui;
  parse = λ t. some (object (member (codes "serial") (int (pos 2)) end));
  available = true;
  address = 104;
  notebook = 204;
  restore_panes = λ o ws. none;
}

abbrev three_and_one : Registry
three_and_one =
    switch ui (pos 3) (with_added 104 204 (record three { next_workspace_serial = 5 }, 4))

-- The same import, whose layout can be rebuilt.
abbrev working : Import
working = record failing { restore_panes = λ o ws. some (305 ∷ 306 ∷ [], 306) }

abbrev serials : Option (Registry × ImportResult) → List ℕ
serials none = []
serials (some (r, result)) = map (λ ws. ws.serial) r.workspaces

-- The second workspace has the number 5 from now on, whether the import fails or not.
numbers_after_error :
    serials (import_from_payload failing (some (codes "payload")) three) ≡ 1 ∷ 5 ∷ 3 ∷ []
unfolding import_from_payload import_object add allocate_serial_avoiding find_serial is_taken
    restore_object restore_serial remap_collision finish undo detach switch ◌-ℤ◌
numbers_after_error = refl

numbers_after_import :
    serials (import_from_payload working (some (codes "payload")) three) ≡ 1 ∷ 5 ∷ 3 ∷ 2 ∷ []
unfolding import_from_payload import_object add allocate_serial_avoiding find_serial is_taken
    restore_object restore_serial remap_collision finish undo detach switch ◌-ℤ◌
numbers_after_import = refl
