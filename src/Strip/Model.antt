-- ===== src/Strip/Model.antt =====
-- The state of the strip layout (gtk/workspace_strip.h), and the parts of a workspace
-- (gtk/workspace.h) that its operations touch.
use prettymux.Prelude.{ℕ, ◌<◌, ◌≡◌, Bool, true, false, Option, List, [], ◌∷◌, ◌++◌, ◌==◌, ◌&&◌, All}
use prettymux.Prelude.Int.{ℤ}

-- A pointer to a notebook; 0 is NULL.
abbrev pub Widget : Type 0
Widget = ℕ

abbrev pub null : Widget
null = 0

-- The widget at the root of a column: a notebook, or a `GtkPaned` over two widgets.
pub data Root : Type 0 where
  leaf : Widget → Root
  paned : Root → Root → Root

abbrev pub root_eq : Root → Root → Bool
root_eq (leaf v) (leaf w) = v == w
root_eq (paned a b) (paned c d) = root_eq a c && root_eq b d
root_eq (leaf v) (paned c d) = false
root_eq (paned a b) (leaf w) = false

-- The C type `double`, with what the code uses of it: the conversions from and to `int`, a decimal
-- literal `digits / 10^places`, the operations and the comparisons.
pub record Double (F : Type 0) : Type 0 where
  pub of_int : ℤ → F
  pub to_int : F → ℤ
  pub literal : ℕ → ℕ → F
  pub add : F → F → F
  pub sub : F → F → F
  pub mul : F → F → F
  pub div : F → F → F
  pub neg : F → F
  pub lt : F → F → Bool
  pub eq : F → F → Bool
  -- IEEE 754: no value, NaN included, is below itself.
  pub lt_irrefl : (a : F) → lt a a ≡ false

-- What the code takes from GTK. `B` is the state of a `GtkBox`; the laws are those that GTK documents
-- for a widget that is not yet a child, and for one that is.
pub record Gtk (B : Type 0) : Type 0 where
  -- GTK_IS_NOTEBOOK of a pointer that is not NULL
  pub is_notebook : Widget → Bool
  -- is there a terminal on the current page of the notebook?
  pub has_current_terminal : Widget → Bool
  -- gtk_widget_add_tick_callback
  pub new_tick_id : ℕ
  pub new_tick_id_pos : 0 < new_tick_id
  pub children : B → List Root
  -- gtk_widget_get_parent(root) == box
  pub contains : B → Root → Bool
  -- gtk_box_append
  pub append : B → Root → B
  -- gtk_box_remove
  pub remove : B → Root → B
  -- gtk_box_insert_child_after; a NULL sibling puts the child first
  pub insert_after : B → Root → Option Root → B
  -- a new GtkBox
  pub new_box : B
  pub children-new_box : children new_box ≡ []
  pub contains_middle :
      (b : B) (r : Root) (xs ys : List Root) → children b ≡ xs ++ r ∷ ys → contains b r ≡ true
  pub children-append :
      (b : B) (r : Root)
      → All (λ c. root_eq r c ≡ false) (children b)
      → children (append b r) ≡ children b ++ r ∷ []
  pub children-remove :
      (b : B) (r : Root) (xs ys : List Root)
      → All (λ c. root_eq r c ≡ false) xs
      → children b ≡ xs ++ r ∷ ys
      → children (remove b r) ≡ xs ++ ys

-- WorkspaceColumn
pub record Column (F : Type 0) : Type 0 where
  pub notebook : Option Root
  pub panes : List Widget
  pub focused_pane : ℤ
  pub target_width : ℤ
  pub current_width : F
  pub maximized : Bool
  pub half_maximized : Bool

-- WorkspaceStripAnimProfile
pub data AnimProfile : Type 0 where
  anim_default anim_insert anim_remove anim_maximize : AnimProfile

-- The calls of GTK that only show the state.
pub data Call (F : Type 0) : Type 0 where
  -- gtk_adjustment_set_value of the horizontal adjustment
  set_value : F → Call F
  -- gtk_widget_set_size_request(widget, width, -1)
  set_size_request : Root → ℤ → Call F
  -- focus_terminal_page and focus_terminal_page_later of a notebook's current terminal
  focus_terminal : Widget → Call F

-- WorkspaceStripState. `scroll_container` says whether the pointer is set, and `allocated_width` is
-- what `gtk_widget_get_width` returns for it.
pub record Strip (F B : Type 0) : Type 0 where
  pub columns : List (Column F)
  pub focused_col : ℤ
  pub camera_x : F
  pub camera_target_x : F
  pub scroll_container : Bool
  pub allocated_width : ℤ
  pub column_box : Option B
  pub tick_id : ℕ
  pub last_tick_usec : ℤ
  pub anim_profile : AnimProfile
  pub calls : List (Call F)

-- WorkspaceLayoutMode
pub data LayoutMode : Type 0 where
  classic strip : LayoutMode

-- The fields of Workspace that the layout code reads and writes.
pub record Workspace (F B : Type 0) : Type 0 where
  pub layout_mode : LayoutMode
  pub strip_state : Option (Strip F B)
  pub active_pane : Widget
  pub pane_notebooks : List Widget
