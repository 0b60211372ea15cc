-- ===== src/Routing.antt =====
-- gtk/terminal_routing.c: where a terminal stands, by its surface or by its id.
pub mod Pages
pub mod Located
mod Examples
use prettymux.Prelude.{
  ℕ, zero, suc, Bool, true, false, not, ◌&&◌, ◌||◌, Option, none, some, List, [], ◌∷◌, ◌==◌,
  if◌then◌else◌,
}
use prettymux.Prelude.Int.{ℤ, pos, negsuc}
use prettymux.Prelude.Text.{Text, text_eq, is_empty}
use prettymux.Strip.Model.{Widget, null}
use prettymux.Strip.Column.{position}

pub record SurfaceLookup : Type 0 where
  pub terminal : Widget
  pub workspace : Widget
  pub workspace_idx : ℤ
  pub pane_notebook : Widget
  pub pane_idx : ℤ
  pub tab_idx : ℤ

abbrev pub no_result : SurfaceLookup
no_result = record {
  terminal = null;
  workspace = null;
  workspace_idx = negsuc 0;
  pane_notebook = null;
  pane_idx = negsuc 0;
  tab_idx = negsuc 0;
}

-- What the search reads of a Workspace.
pub record Place : Type 0 where
  pub address : Widget
  pub terminals : List Widget
  pub pane_notebooks : List Widget

-- The terminals on the pages of a notebook, and what a terminal tells: its surface, and its id.
pub record Terminals : Type 0 where
  pub pages : Widget → List Widget
  pub surface : Widget → Widget
  pub id : Widget → Option Text

abbrev pub find_page : (Widget → List Widget) → List Widget → ℕ → SurfaceLookup → SurfaceLookup
find_page pages [] i result = result
find_page pages (nb ∷ rest) i result = elim (position result.terminal (pages nb)) [
  | some pg ↦ record result { pane_notebook = nb; pane_idx = pos i; tab_idx = pos pg }
  | none ↦ find_page pages rest (suc i) result
]

abbrev pub find_terminal : (Widget → Bool) → List Widget → Option Widget
find_terminal matches [] = none
find_terminal matches (term ∷ rest) = elim (matches term) [
  | true ↦ some term
  | false ↦ find_terminal matches rest
]

-- The loop over the workspaces: the first one with a terminal that matches.
abbrev pub find_from : Terminals → (Widget → Bool) → List Place → ℕ → SurfaceLookup
find_from t matches [] i = no_result
find_from t matches (ws ∷ rest) i = elim (find_terminal matches ws.terminals) [
  | none ↦ find_from t matches rest (suc i)
  | some term ↦
      find_page t.pages ws.pane_notebooks 0
        (record no_result { terminal = term; workspace = ws.address; workspace_idx = pos i })
]

-- terminal_routing_find_for_surface
unfoldable pub find_for_surface : Terminals → List Place → Widget → SurfaceLookup
find_for_surface t workspaces surface =
    if surface == null
    then no_result
    else find_from t (λ term. t.surface term == surface) workspaces 0

abbrev pub has_id : Option Text → Text → Bool
has_id none terminal_id = false
has_id (some id) terminal_id = text_eq id terminal_id

-- terminal_routing_find_for_id; NULL for the id is the empty text
unfoldable pub find_for_id : Terminals → List Place → Text → SurfaceLookup
find_for_id t workspaces terminal_id =
    if is_empty terminal_id
    then no_result
    else find_from t (λ term. not (term == null) && has_id (t.id term) terminal_id) workspaces 0

-- The session of a terminal, the name of its tty and its path.
pub record Scope : Type 0 where
  pub session_id : ℤ
  pub tty_name : Text
  pub tty_path : Text

-- terminal_routing_register_scope, with the scopes that ghostty_terminal_set_scope has set
unfoldable pub register_scope :
    Terminals → List Place → Text → Scope → List (Widget × Scope) → List (Widget × Scope)
register_scope t workspaces terminal_id scope scopes =
    let loc = find_for_id t workspaces terminal_id in
    if is_empty terminal_id || loc.terminal == null then scopes else (loc.terminal, scope) ∷ scopes
