-- ===== src/Strip/Examples.antt =====
-- A strip of two columns over whole numbers, and the theorems at it.
use prettymux.Prelude.{◌<◌, ◌≤◌, ◌≡◌, ◌≢◌, refl, true, false, some, List, [], ◌∷◌, arith}
use prettymux.Prelude.Int.{ℤ, pos, ◌+ℤ◌, index?}
use prettymux.Strip.Model.{
  Column, Widget, null, Root, leaf, paned, anim_default, Strip, strip, Workspace,
}
use prettymux.Strip.Column.{rebuild_column_paned_chain}
use prettymux.Strip.Camera.{pan_by, with_state}
use prettymux.Strip.Columns.{
  toggle_maximize_column, new_column, create_root, insert_column_after_active, remove_active_column,
  apply_layout,
}
use prettymux.Strip.Panes.{split_vertical_in_column, unsplit_column}
use prettymux.Strip.Behaviour.Stack.{unsplit_column-Focused}
use prettymux.Strip.Instances.{whole, list_box}
use prettymux.Strip.Invariant.Kept.{ColumnOk, IsSound, WorkspaceOk}
use prettymux.Strip.Reach.{
  built, next, insert, pan, set_focused, maximize, select, Reach-WorkspaceOk,
}
use prettymux.Strip.Behaviour.Camera.{InView, apply_layout-InView, pan_by-InView}
use prettymux.Strip.Behaviour.Columns.{
  Shows, insert-Shows, remove-Shows, remove_last, remove-insert,
}
use prettymux.Strip.Behaviour.Box.{split-children}

-- The notebooks 7 and 8 in a column each, the first one focused, in a viewport of 1000 pixels.
abbrev two : Strip ℤ (List Root)
two = record {
  columns = new_column 7 (pos 600) ∷ new_column 8 (pos 600) ∷ [];
  focused_col = pos 0;
  camera_x = pos 0;
  camera_target_x = pos 0;
  scroll_container = true;
  allocated_width = pos 1000;
  column_box = some (leaf 7 ∷ leaf 8 ∷ []);
  tick_id = 0;
  last_tick_usec = pos 0;
  anim_profile = anim_default;
  calls = [];
}

abbrev one : Strip ℤ (List Root)
one = record two { columns = new_column 7 (pos 600) ∷ [] }

abbrev over : Strip ℤ (List Root) → Workspace ℤ (List Root)
over s = record {
  layout_mode = strip;
  strip_state = some s;
  active_pane = 7;
  pane_notebooks = 7 ∷ 8 ∷ [];
}

column_ok : (w : Widget) → ColumnOk (new_column w (pos 600))
unfolding rebuild_column_paned_chain
column_ok w = record { focused = omega arith; exclusive = refl; rooted = refl }

two-IsSound : IsSound two.columns two.focused_col
two-IsSound = ((column_ok 7, (column_ok 8, tt)), omega arith)

nine : ◌≢◌ {A = Widget} 9 null
nine = omega arith

Reach-WorkspaceOk_example : WorkspaceOk (
    toggle_maximize_column (
      select 0 (
        with_state
          (insert_column_after_active (create_root (over two) 7 (pos 1000)) 9).0
          (pan_by (pos 30)))))
Reach-WorkspaceOk_example = Reach-WorkspaceOk (
    next
      (next (next (next (built (over two) 7 (pos 1000)) (insert 9)) (pan (pos 30))) (set_focused 0))
      maximize)

insert-Shows_example :
    Shows (insert_column_after_active (over two) 9).0 ((7 ∷ []) ∷ (9 ∷ []) ∷ (8 ∷ []) ∷ []) 1
    × ((insert_column_after_active (over two) 9).1 ≡ true)
insert-Shows_example = insert-Shows (over two) two 9 0 refl two-IsSound refl nine

remove-Shows_example :
    Shows (remove_active_column (over two)).0 ((8 ∷ []) ∷ []) 0
    × ((remove_active_column (over two)).1 ≡ true)
remove-Shows_example = remove-Shows (over two) two 0 refl two-IsSound refl (omega arith)

remove_last_example : remove_active_column (over one) ≡ (over one, false)
remove_last_example = remove_last (over one) one refl (omega arith)

remove-insert_example :
    Shows
      (remove_active_column (insert_column_after_active (over two) 9).0).0
      ((7 ∷ []) ∷ (8 ∷ []) ∷ [])
      1
remove-insert_example = remove-insert (over two) two 9 0 refl two-IsSound refl nine

apply_layout-InView_example :
    (s' : Strip ℤ (List Root)) × ((apply_layout (over two)).strip_state ≡ some s') × InView s'
apply_layout-InView_example = apply_layout-InView (over two) two refl two-IsSound

pan_by-InView_example :
    InView (pan_by (pos 900) two)
    × ((pan_by (pos 900) two).camera_x ≡ (pan_by (pos 900) two).camera_target_x)
pan_by-InView_example = pan_by-InView (pos 900) two refl refl

-- The root of the split column 7 is behind column 8 in the box, though its column stands first.
split-children_example :
    (s' : Strip ℤ (List Root)) × (b' : List Root) × ((split_vertical_in_column
        (over two)
        9).0.strip_state
      ≡ some s')
    × (s'.column_box ≡ some b')
    × (b' ≡ leaf 8 ∷ paned (leaf 7) (leaf 9) ∷ [])
split-children_example =
    split-children (over two) two 9 0 (new_column 7 (pos 600)) (leaf 7 ∷ leaf 8 ∷ []) (leaf 7)
      (paned (leaf 7) (leaf 9)) [] (leaf 8 ∷ []) refl two-IsSound refl refl nine refl refl
      (unfold rebuild_column_paned_chain ◌+ℤ◌ in refl) refl tt (refl, tt)

-- Three panes, of which the second has the focus.
abbrev stack : Column ℤ
stack = record (new_column 7 (pos 600)) { panes = 7 ∷ 8 ∷ 9 ∷ []; focused_pane = pos 1 }

unsplit_column-Focused_example :
    (1 < 0 → index? (unsplit_column 0 stack).panes (unsplit_column 0 stack).focused_pane ≡ some 8)
    × (0 ≤ 1
        → 2 < 3
        → index? (unsplit_column 0 stack).panes (unsplit_column 0 stack).focused_pane ≡ some 9)
unsplit_column-Focused_example = unsplit_column-Focused stack 0 1 refl (omega arith)
