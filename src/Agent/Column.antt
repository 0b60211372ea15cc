-- ===== src/Agent/Column.antt =====
-- The column of panes beside a leader in the layout main-vertical, as the splits that were asked for.
use prettymux.Prelude.{ℕ, ◌≡◌, Bool, true, false, Option, none, some, List, [], ◌∷◌, if◌then◌else◌}
use prettymux.Prelude.Int.{ℤ}
use prettymux.Prelude.Text.{Text, codes, is_empty}
use prettymux.Json.{string_member}
use prettymux.Agent.Tmux.{
  TmuxCompatState, Request, pane_split, pane_close, pane_list, equalize_splits, type_text,
  pane_focus, read_text, tab_new, resize_percent, Response, done, failed, Exchange, Server, World,
  TmuxEnv, split_args, parse_pane_target,
}
use prettymux.Agent.Commands.{main_vertical, no_args, split_window}

abbrev pub is_split : Request → Bool
is_split (pane_split workspace pane direction) = true
is_split (pane_close workspace pane) = false
is_split (pane_list workspace) = false
is_split (equalize_splits workspace orientation) = false
is_split (type_text workspace pane text) = false
is_split (pane_focus workspace pane) = false
is_split (read_text workspace pane lines) = false
is_split tab_new = false
is_split (resize_percent workspace pane percent) = false

-- The splits among the exchanges.
abbrev pub splits : List Exchange → List Exchange
splits [] = []
splits (e ∷ log) = if is_split e.request then e ∷ splits log else splits log

-- The pane that an answer names, or the empty text.
abbrev pub pane_of : Response → Text
pane_of (done root) = string_member root (codes "paneId") []
pane_of (failed message) = []

-- Every split succeeds and names the new pane.
abbrev pub NamesPanes : Server → Type 0
NamesPanes server =
    (log : List Exchange) (workspace : ℤ) (pane direction : Text)
    → is_empty (pane_of (server log (pane_split workspace pane direction))) ≡ false

-- The first split is one of the leader to the right, each further one below the pane that the one
-- before has made. The newest is the first of the list.
abbrev pub next_pane : Text → List Exchange → Text
next_pane leader [] = leader
next_pane leader (e ∷ older) = pane_of e.answer

abbrev pub next_direction : List Exchange → Text
next_direction [] = codes "right"
next_direction (e ∷ older) = codes "down"

abbrev pub Stacked : ℤ → Text → List Exchange → Type 0
Stacked workspace leader [] = Unit
Stacked workspace leader (e ∷ older) =
    (e.request ≡ pane_split workspace (next_pane leader older) (next_direction older))
    × Stacked workspace leader older

-- The state with the leader in the layout main-vertical, and the last pane of the column.
abbrev pub main_state : ℤ → Text → Option Text → TmuxCompatState
main_state workspace leader last = record {
  workspace = workspace;
  leader_pane = some leader;
  last_column_pane = last;
  layout = some main_vertical;
}

-- The arguments of a split of the leader's pane to the right.
abbrev pub SplitsLeader : TmuxEnv → Text → List Text → Type 0
SplitsLeader env leader args =
    ((split_args args no_args).horizontal ≡ true)
    × (parse_pane_target env (split_args args no_args).target ≡ some leader)

-- The commands in their order, with their exit codes.
abbrev pub split_each : Server → TmuxEnv → List (List Text) → World → List ℕ × World
split_each server env [] w = ([], w)
split_each server env (args ∷ rest) w =
    let (code, w') = split_window server env args w in
    let (codes, end) = split_each server env rest w' in (code ∷ codes, end)

abbrev pub newest : List Exchange → Option Text
newest [] = none
newest (e ∷ older) = some (pane_of e.answer)

abbrev pub Named : List Exchange → Type 0
Named [] = Unit
Named (e ∷ older) = is_empty (pane_of e.answer) ≡ false
