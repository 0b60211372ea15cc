-- ===== src/Agent/Panes.antt =====
-- gtk/prettymux_agent_cli.c: the tmux commands that leave the state file alone, each with its exit code,
-- and run_tmux_compat, which picks a command.
use prettymux.Prelude.{ℕ, false, Option, none, some, List, [], ◌∷◌, if◌then◌else◌}
use prettymux.Prelude.Int.{ℤ, pos}
use prettymux.Prelude.Text.{Text, codes, is_empty}
use prettymux.Agent.Tmux.{
  TmuxCompatState, Request, pane_list, pane_focus, read_text, tab_new, resize_percent, Response,
  done, failed, Server, World, TmuxEnv, parse_pane_target, parse_workspace_target,
}
use prettymux.Agent.Texts.{send_keys_text}
use prettymux.Agent.Commands.{
  ask, target_arg, type_text_with_retry, split_window, kill_pane, select_layout,
}
use prettymux.Agent.Args.{is_one, value_of, KeyArgs, key_args, lines_arg, has_percent}

-- The exit code is 0 when the request succeeds, and else 1.
abbrev pub exit_of : Response → ℕ
exit_of (done root) = 0
exit_of (failed message) = 1

-- The commands that have a handler, and the others, which exit with 0.
pub data Command : Type 0 where
  display split layout resize focus panes windows kill keys capture window quiet : Command

-- The comparisons of run_tmux_compat. A command that prints the version alone, one that does nothing and one
-- that is not known are alike here.
abbrev pub command_of : Text → Command
command_of name =
    if is_one name (codes "display-message" ∷ codes "display" ∷ [])
    then display
    else if is_one name (codes "split-window" ∷ codes "splitw" ∷ [])
    then split
    else if is_one name (codes "select-layout" ∷ [])
    then layout
    else if is_one name (codes "resize-pane" ∷ codes "resizep" ∷ [])
    then resize
    else if is_one name (codes "select-pane" ∷ codes "selectp" ∷ [])
    then focus
    else if is_one name (codes "list-panes" ∷ codes "lsp" ∷ [])
    then panes
    else if is_one name (codes "list-windows" ∷ codes "lsw" ∷ [])
    then windows
    else if is_one name (codes "kill-pane" ∷ codes "killp" ∷ [])
    then kill
    else if is_one name (codes "send-keys" ∷ codes "send" ∷ [])
    then keys
    else if is_one name (codes "capture-pane" ∷ codes "capturep" ∷ [])
    then capture
    else if is_one name (codes "new-window" ∷ codes "neww" ∷ [])
    then window
    else quiet

module _ (server : Server) (env : TmuxEnv) where
  -- A request, if there is a state file and a pane; the request is made from the workspace and the pane.
  abbrev pub ask_pane :
      (ℤ → Text → Request) → Option TmuxCompatState → Option Text → World → ℕ × World
  ask_pane request none pane w = (1, w)
  ask_pane request (some state) none w = (1, w)
  ask_pane request (some state) (some pane) w =
      let asked = ask server (request state.workspace pane) w in (exit_of asked.0, asked.1)

  -- tmux_select_pane
  unfoldable pub select_pane : List Text → World → ℕ × World
  select_pane args w =
      ask_pane pane_focus w.state_file (parse_pane_target env (target_arg args none)) w

  -- tmux_capture_pane
  unfoldable pub capture_pane : List Text → World → ℕ × World
  capture_pane args w =
      let target = value_of (codes "-t") (codes "-S" ∷ codes "-E" ∷ []) args none in
      ask_pane (λ workspace pane. read_text workspace pane (lines_arg env args (pos 0)))
        w.state_file (parse_pane_target env target) w

  abbrev pub resize_from : Option Text → Option TmuxCompatState → Option Text → World → ℕ × World
  resize_from none state pane w = (0, w)
  resize_from (some x) none pane w = (1, w)
  resize_from (some x) (some state) none w = (0, w)
  resize_from (some x) (some state) (some pane) w =
      if has_percent x
      then (0, (ask server (resize_percent state.workspace pane x) w).1)
      else (0, w)

  -- tmux_resize_pane
  unfoldable pub resize_pane : List Text → World → ℕ × World
  resize_pane args w =
      resize_from (value_of (codes "-x") (codes "-t" ∷ []) args none) w.state_file
        (parse_pane_target env (value_of (codes "-t") (codes "-x" ∷ []) args none)) w

  abbrev pub list_from : Option ℤ → World → ℕ × World
  list_from none w = (1, w)
  list_from (some workspace) w =
      let asked = ask server (pane_list workspace) w in (exit_of asked.0, asked.1)

  -- tmux_list_panes
  unfoldable pub list_panes : List Text → World → ℕ × World
  list_panes args w =
      list_from (parse_workspace_target env (value_of (codes "-t") (codes "-F" ∷ []) args none)) w

  abbrev pub with_workspace : Option ℤ → World → ℕ × World
  with_workspace none w = (1, w)
  with_workspace (some workspace) w = (0, w)

  -- tmux_display_message
  unfoldable pub display_message : List Text → World → ℕ × World
  display_message args w =
      with_workspace
        (parse_workspace_target env (value_of (codes "-t") (codes "-F" ∷ []) args none)) w

  abbrev pub window_from : Option TmuxCompatState → World → ℕ × World
  window_from none w = (1, w)
  window_from (some state) w = let asked = ask server tab_new w in (exit_of asked.0, asked.1)

  -- tmux_new_window
  unfoldable pub new_window : World → ℕ × World
  new_window w = window_from w.state_file w

  abbrev pub with_state : Option TmuxCompatState → World → ℕ × World
  with_state none w = (1, w)
  with_state (some state) w = (0, w)

  -- tmux_list_windows
  unfoldable pub list_windows : World → ℕ × World
  list_windows w = with_state w.state_file w

  abbrev pub send_from : KeyArgs → Option TmuxCompatState → Option Text → World → ℕ × World
  send_from a none pane w = (1, w)
  send_from a (some state) none w = (1, w)
  send_from a (some state) (some pane) w =
      let text = send_keys_text a.tokens a.literal in
      let typed = type_text_with_retry server state.workspace pane text w in
      if is_empty text then (0, w) else if typed.0 then (0, typed.1) else (1, typed.1)

  -- tmux_send_keys
  unfoldable pub send_keys : List Text → World → ℕ × World
  send_keys args w =
      let a = key_args args (record { target = none; literal = false; tokens = [] }) in
      send_from a w.state_file (parse_pane_target env a.target) w

  -- The handler of a command.
  abbrev pub run_command : Command → List Text → World → ℕ × World
  run_command display args w = display_message args w
  run_command split args w = split_window server env args w
  run_command layout args w = select_layout server env args w
  run_command resize args w = resize_pane args w
  run_command focus args w = select_pane args w
  run_command panes args w = list_panes args w
  run_command windows args w = list_windows w
  run_command kill args w = kill_pane server env args w
  run_command keys args w = send_keys args w
  run_command capture args w = capture_pane args w
  run_command window args w = new_window w
  run_command quiet args w = (0, w)

  -- run_tmux_compat
  unfoldable pub run_tmux_compat : List Text → World → ℕ × World
  run_tmux_compat [] w = (1, w)
  run_tmux_compat (name ∷ args) w = run_command (command_of name) args w
