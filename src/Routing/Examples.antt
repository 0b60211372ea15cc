-- ===== src/Routing/Examples.antt =====
-- Two workspaces, and the search for a terminal of the second.
use prettymux.Prelude.{◌≡◌, refl, not, ◌&&◌, none, some, List, [], ◌∷◌, ◌==◌, if◌then◌else◌}
use prettymux.Prelude.Int.{pos}
use prettymux.Prelude.Text.{codes}
use prettymux.Routing.Located.{Located, find_for_id-Located}
use prettymux.Routing.{has_id, Place, Terminals, find_for_id, find_for_surface, no_result}

abbrev terminals : Terminals
terminals = record {
  pages = λ nb. if nb == 11 then 3 ∷ [] else 4 ∷ 5 ∷ [];
  surface = λ term. term;
  id = λ term. if term == 5 then some (codes "t5") else none;
}

abbrev places : List Place
places =
    record { address = 21; terminals = 3 ∷ []; pane_notebooks = 11 ∷ [] }
    ∷ record { address = 22; terminals = 4 ∷ 5 ∷ []; pane_notebooks = 12 ∷ [] }
    ∷ []

second_tab : find_for_id terminals places (codes "t5") ≡ record {
  terminal = 5;
  workspace = 22;
  workspace_idx = pos 1;
  pane_notebook = 12;
  pane_idx = pos 0;
  tab_idx = pos 1;
}
unfolding find_for_id
second_tab = refl

not_there : find_for_surface terminals places 9 ≡ no_result
unfolding find_for_surface
not_there = refl

find_for_id-Located_example :
    Located
      (λ term. not (term == 0) && has_id (terminals.id term) (codes "t5"))
      terminals
      places
      0
      (find_for_id terminals places (codes "t5"))
find_for_id-Located_example = find_for_id-Located terminals places (codes "t5") refl
