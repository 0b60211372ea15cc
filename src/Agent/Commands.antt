-- ===== src/Agent/Commands.antt =====
-- gtk/prettymux_agent_cli.c: tmux_split_window, tmux_kill_pane and tmux_select_layout, each with its exit
-- code, and ipc_type_text_with_retry.
use prettymux.Prelude.{
  ℕ, zero, suc, Bool, true, false, not, ◌&&◌, ◌||◌, Option, none, some, List, [], ◌∷◌,
  if◌then◌else◌,
}
use prettymux.Prelude.Int.{ℤ}
use prettymux.Prelude.Text.{Text, codes, text_eq, is_empty}
use prettymux.Json.{string_member}
use prettymux.Agent.Tmux.{
  TmuxCompatState, Request, pane_split, pane_close, pane_list, equalize_splits, type_text, Response,
  done, failed, Server, World, TmuxEnv, is_absent, same_text, save_state, parse_pane_target,
  parse_workspace_target, SplitArgs, split_args, shell_command_text, find_non_leader_pane_id,
}

abbrev pub main_vertical : Text
main_vertical = codes "main-vertical"

abbrev pub no_args : SplitArgs
no_args = record { horizontal = false; target = none; cwd = none }

-- `g_strcmp0(state.layout, "main-vertical") == 0`
abbrev pub is_main_vertical : TmuxCompatState → Bool
is_main_vertical state = same_text state.layout (some main_vertical)

-- Is there a column of panes beside the leader that the new pane goes below?
abbrev pub below_column : TmuxCompatState → Text → Bool → Bool
below_column state pane horizontal =
    horizontal
    && is_main_vertical state
    && same_text (some pane) state.leader_pane
    && not (is_absent state.last_column_pane)

abbrev beside : Bool → Text
beside horizontal = if horizontal then codes "right" else codes "down"

-- The pane that is split, and the direction.
abbrev pub placed : TmuxCompatState → Text → Bool → Text × Text
placed state pane horizontal = elim state.last_column_pane [
  | none ↦ (pane, beside horizontal)
  | some last ↦
      if below_column state pane horizontal then (last, codes "down") else (pane, beside horizontal)
]

-- The value of `-t`, where a value follows it.
abbrev pub target_arg : List Text → Option Text → Option Text
target_arg [] target = target
target_arg (x ∷ []) target = target
target_arg (x ∷ y ∷ rest) target = elim (text_eq x (codes "-t")) [
  | true ↦ target_arg rest (some y)
  | false ↦ target_arg (y ∷ rest) target
]

-- The target and the layout of tmux_select_layout.
abbrev pub layout_args : List Text → Option Text → Option Text → Option Text × Option Text
layout_args [] target layout = (target, layout)
layout_args (x ∷ []) target layout = (target, elim layout [ none ↦ some x | some l ↦ some l ])
layout_args (x ∷ y ∷ rest) target layout = elim (text_eq x (codes "-t")) [
  | true ↦ layout_args rest (some y) layout
  | false ↦ layout_args (y ∷ rest) target (elim layout [ none ↦ some x | some l ↦ some l ])
]

abbrev text_or : Option Text → Text
text_or none = []
text_or (some t) = t

-- `if (target && target[0]) parse_workspace_target(target, &state.workspace)`
abbrev workspace_of : TmuxEnv → Option Text → ℤ → ℤ
workspace_of env target workspace =
    if is_absent target
    then workspace
    else elim (parse_workspace_target env target) [ none ↦ workspace | some i ↦ i ]

-- The messages of errors after which a text is sent once more.
abbrev pub is_transient : Text → Bool
is_transient message =
    text_eq message (codes "no terminal found") || text_eq message (codes "terminal has no surface")

-- An attempt with its answer: the world after it, and what the further ones give.
abbrev pub type_answered : Response → World → Bool × World → Bool × World
type_answered (done root) w rest = (true, w)
type_answered (failed message) w rest = if is_transient message then rest else (false, w)

module _ (server : Server) where
  -- ipc_request
  abbrev pub ask : Request → World → Response × World
  ask request w =
      let answer = server w.log request in
      (answer, record w { log = record { request = request; answer = answer } ∷ w.log })

  -- The loop of ipc_type_text_with_retry with as many attempts left. A request that fails has set its error.
  abbrev pub type_loop : ℕ → Request → World → Bool × World
  type_loop zero request w = (false, w)
  type_loop (suc left) request w =
      let rest = type_loop left request (ask request w).1 in
      type_answered (server w.log request) (ask request w).1 rest

  -- ipc_type_text_with_retry
  unfoldable pub type_text_with_retry : ℤ → Text → Text → World → Bool × World
  type_text_with_retry workspace pane text w = type_loop 20 (type_text workspace pane text) w

  -- ipc_equalize with the orientation for the layout
  abbrev pub equalize : TmuxCompatState → World → World
  equalize state w =
      (ask
        (equalize_splits state.workspace (if is_main_vertical state then codes "vertical" else []))
        w).1

  abbrev pub type_command : ℤ → Text → Option Text → World → World
  type_command workspace pane none w = w
  type_command workspace pane (some text) w = (type_text_with_retry workspace pane text w).1

  -- What follows a split that has made the pane `new`.
  abbrev pub split_done : List Text → Option Text → TmuxCompatState → Text → World → World
  split_done args cwd state new w =
      let state' = record state { last_column_pane = some new } in
      let w' = (save_state state' w).1 in
      equalize state' (type_command state.workspace new (shell_command_text args cwd) w')

  abbrev pub split_answered :
      List Text → Option Text → TmuxCompatState → Response → World → ℕ × World
  split_answered args cwd state (failed message) w = (1, w)
  split_answered args cwd state (done root) w =
      let new = string_member root (codes "paneId") [] in
      if is_empty new then (1, w) else (0, split_done args cwd state new w)

  abbrev pub split_at : List Text → SplitArgs → TmuxCompatState → Text → World → ℕ × World
  split_at args a state pane w =
      let at = placed state pane a.horizontal in
      let asked = ask (pane_split state.workspace at.0 at.1) w in
      split_answered args a.cwd state asked.0 asked.1

  abbrev pub split_from :
      List Text → SplitArgs → Option TmuxCompatState → Option Text → World → ℕ × World
  split_from args a none pane w = (1, w)
  split_from args a (some state) none w = (1, w)
  split_from args a (some state) (some pane) w = split_at args a state pane w

  -- tmux_split_window
  unfoldable pub split_window : TmuxEnv → List Text → World → ℕ × World
  split_window env args w =
      let a = split_args args no_args in
      split_from args a w.state_file (parse_pane_target env a.target) w

  -- The pane that takes the place of the last one of the column when that one has closed.
  abbrev pub replaced : TmuxCompatState → Text → Option Text → TmuxCompatState
  replaced state pane replacement =
      if same_text state.last_column_pane (some pane)
      then record state { last_column_pane = replacement }
      else state

  abbrev pub replacement_in : TmuxCompatState → Response → Option Text
  replacement_in state (failed message) = none
  replacement_in state (done root) = find_non_leader_pane_id root state.leader_pane

  abbrev pub kill_answered : TmuxCompatState → Text → Response → World → ℕ × World
  kill_answered state pane (failed message) w = (1, w)
  kill_answered state pane (done root) w =
      let asked = ask (pane_list state.workspace) w in
      let state' = replaced state pane (replacement_in state asked.0) in
      (0, (save_state state' (equalize state' asked.1)).1)

  abbrev pub kill_from : Option TmuxCompatState → Option Text → World → ℕ × World
  kill_from none pane w = (1, w)
  kill_from (some state) none w = (1, w)
  kill_from (some state) (some pane) w =
      let asked = ask (pane_close state.workspace pane) w in
      kill_answered state pane asked.0 asked.1

  -- tmux_kill_pane
  unfoldable pub kill_pane : TmuxEnv → List Text → World → ℕ × World
  kill_pane env args w = kill_from w.state_file (parse_pane_target env (target_arg args none)) w

  abbrev pub select_from :
      TmuxEnv → Option Text × Option Text → Option TmuxCompatState → World → ℕ × World
  select_from env a none w = (1, w)
  select_from env a (some state) w =
      let state' = record state {
        workspace = workspace_of env a.0 state.workspace;
        layout = some (text_or a.1);
      } in
      let stored = save_state state' w in
      if stored.0 then (0, equalize state' stored.1) else (1, stored.1)

  -- tmux_select_layout
  unfoldable pub select_layout : TmuxEnv → List Text → World → ℕ × World
  select_layout env args w = select_from env (layout_args args none none) w.state_file w
