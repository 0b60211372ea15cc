-- ===== src/Agent/Exits.antt =====
-- The exit codes of the tmux commands, and what a command that fails leaves (run_tmux_compat).
use prettymux.Prelude.{
  ℕ, ◌≡◌, refl, ◌⊎◌, inl, inr, Bool, true, false, Option, none, some, List, [], ◌∷◌, if◌then◌else◌,
  Bool-cases,
}
use prettymux.Prelude.Int.{ℤ, pos}
use prettymux.Prelude.Text.{Text, codes, is_empty}
use prettymux.Json.{string_member}
use prettymux.Agent.Texts.{send_keys_text}
use prettymux.Agent.Tmux.{
  TmuxCompatState, Request, pane_list, pane_split, pane_close, resize_percent, pane_focus,
  read_text, parse_pane_target, parse_workspace_target, split_args, tab_new, Response, done, failed,
  Server, World, TmuxEnv, SplitArgs,
}
use prettymux.Agent.Commands.{
  ask, type_text_with_retry, split_done, split_answered, split_from, split_window, kill_answered,
  kill_from, kill_pane, select_from, select_layout, placed, target_arg, layout_args, no_args,
}
use prettymux.Agent.Split.{loop-Quiet}
use prettymux.Agent.Args.{value_of, key_args, lines_arg, KeyArgs, has_percent}
use prettymux.Agent.Panes.{
  Command, display, split, layout, resize, focus, panes, windows, kill, keys, capture, window,
  quiet, command_of, run_command, exit_of, ask_pane, select_pane, capture_pane, resize_from,
  resize_pane, list_from, list_panes, with_workspace, display_message, window_from, new_window,
  with_state, list_windows, send_from, send_keys, run_tmux_compat,
}

-- A success, or the exit code 1 with the state file of before.
abbrev pub Exits : World → ℕ × World → Type 0
Exits w r = (r.0 ≡ 0) ⊎ ((r.0 ≡ 1) × (r.1.state_file ≡ w.state_file))

if-Exits :
    (w : World) (b : Bool) (r s : ℕ × World) → Exits w r → Exits w s → Exits w (if b then r else s)
if-Exits w true r s h k = h
if-Exits w false r s h k = k

module _ (server : Server) (env : TmuxEnv) where
  exit_of-Exits :
      (w : World) (request : Request) (answer : Response) (v : World)
      → v.state_file ≡ w.state_file
      → Exits w (exit_of answer, v)
  exit_of-Exits w request (done root) v e = inl refl
  exit_of-Exits w request (failed message) v e = inr (refl, e)

  ask_pane-Exits :
      (request : ℤ → Text → Request) (file : Option TmuxCompatState) (pane : Option Text)
      (w : World)
      → Exits w (ask_pane server env request file pane w)
  ask_pane-Exits request none pane w = inr (refl, refl)
  ask_pane-Exits request (some state) none w = inr (refl, refl)
  ask_pane-Exits request (some state) (some pane) w =
      let sent = request state.workspace pane in
      exit_of-Exits w sent (server w.log sent) (ask server sent w).1 refl

  split_answered-Exits :
      (args : List Text) (cwd : Option Text) (state : TmuxCompatState) (answer : Response)
      (w v : World)
      → v.state_file ≡ w.state_file
      → Exits w (split_answered server args cwd state answer v)
  split_answered-Exits args cwd state (failed message) w v e = inr (refl, e)
  split_answered-Exits args cwd state (done root) w v e =
      let new = string_member root (codes "paneId") [] in
      if-Exits w (is_empty new) (1, v) (0, split_done server args cwd state new v) (inr (refl, e))
        (inl refl)

  split_from-Exits :
      (args : List Text) (a : SplitArgs) (file : Option TmuxCompatState) (pane : Option Text)
      (w : World)
      → Exits w (split_from server args a file pane w)
  split_from-Exits args a none pane w = inr (refl, refl)
  split_from-Exits args a (some state) none w = inr (refl, refl)
  split_from-Exits args a (some state) (some pane) w =
      let at = placed state pane a.horizontal in
      let request = pane_split state.workspace at.0 at.1 in
      split_answered-Exits args a.cwd state (server w.log request) w (ask server request w).1 refl

  kill_answered-Exits :
      (state : TmuxCompatState) (pane : Text) (answer : Response) (w v : World)
      → v.state_file ≡ w.state_file
      → Exits w (kill_answered server state pane answer v)
  kill_answered-Exits state pane (failed message) w v e = inr (refl, e)
  kill_answered-Exits state pane (done root) w v e = inl refl

  kill_from-Exits :
      (file : Option TmuxCompatState) (pane : Option Text) (w : World)
      → Exits w (kill_from server file pane w)
  kill_from-Exits none pane w = inr (refl, refl)
  kill_from-Exits (some state) none w = inr (refl, refl)
  kill_from-Exits (some state) (some pane) w =
      let request = pane_close state.workspace pane in
      kill_answered-Exits state pane (server w.log request) w (ask server request w).1 refl

  select_from-Exits :
      (a : Option Text × Option Text) (file : Option TmuxCompatState) (w : World)
      → Exits w (select_from server env a file w)
  select_from-Exits a none w = inr (refl, refl)
  select_from-Exits a (some state) w = elim (Bool-cases w.is_writable) [
    | inl ok ↦ rw ok (inl refl)
    | inr bad ↦ rw bad (inr (refl, refl))
  ]

  resize_from-Exits :
      (x : Option Text) (file : Option TmuxCompatState) (pane : Option Text) (w : World)
      → Exits w (resize_from server env x file pane w)
  resize_from-Exits none file pane w = inl refl
  resize_from-Exits (some x) none pane w = inr (refl, refl)
  resize_from-Exits (some x) (some state) none w = inl refl
  resize_from-Exits (some x) (some state) (some pane) w =
      if-Exits w (has_percent x) (0, (ask server (resize_percent state.workspace pane x) w).1)
        (0, w) (inl refl) (inl refl)

  list_from-Exits : (workspace : Option ℤ) (w : World) → Exits w (list_from server env workspace w)
  list_from-Exits none w = inr (refl, refl)
  list_from-Exits (some workspace) w =
      let request = pane_list workspace in
      exit_of-Exits w request (server w.log request) (ask server request w).1 refl

  display-Exits :
      (workspace : Option ℤ) (w : World) → Exits w (with_workspace server env workspace w)
  display-Exits none w = inr (refl, refl)
  display-Exits (some workspace) w = inl refl

  window_from-Exits :
      (file : Option TmuxCompatState) (w : World) → Exits w (window_from server env file w)
  window_from-Exits none w = inr (refl, refl)
  window_from-Exits (some state) w =
      exit_of-Exits w tab_new (server w.log tab_new) (ask server tab_new w).1 refl

  windows-Exits :
      (file : Option TmuxCompatState) (w : World) → Exits w (with_state server env file w)
  windows-Exits none w = inr (refl, refl)
  windows-Exits (some state) w = inl refl

  send_from-Exits :
      (a : KeyArgs) (file : Option TmuxCompatState) (pane : Option Text) (w : World)
      → Exits w (send_from server env a file pane w)
  unfolding type_text_with_retry
  send_from-Exits a none pane w = inr (refl, refl)
  send_from-Exits a (some state) none w = inr (refl, refl)
  send_from-Exits a (some state) (some pane) w =
      let text = send_keys_text a.tokens a.literal in
      let typed = type_text_with_retry server state.workspace pane text w in
      let same = loop-Quiet server 20 state.workspace pane text w in
      if-Exits w (is_empty text) (0, w) (if typed.0 then (0, typed.1) else (1, typed.1)) (inl refl)
        (if-Exits w typed.0 (0, typed.1) (1, typed.1) (inl refl) (inr (refl, same.0)))

  command-Exits :
      (command : Command) (args : List Text) (w : World)
      → Exits w (run_command server env command args w)
  unfolding display_message split_window select_layout resize_pane select_pane list_panes
      list_windows kill_pane send_keys capture_pane new_window
  command-Exits display args w =
      display-Exits (parse_workspace_target env (value_of (codes "-t") (codes "-F" ∷ []) args none))
        w
  command-Exits split args w =
      let a = split_args args no_args in
      split_from-Exits args a w.state_file (parse_pane_target env a.target) w
  command-Exits layout args w = select_from-Exits (layout_args args none none) w.state_file w
  command-Exits resize args w =
      resize_from-Exits (value_of (codes "-x") (codes "-t" ∷ []) args none) w.state_file
        (parse_pane_target env (value_of (codes "-t") (codes "-x" ∷ []) args none)) w
  command-Exits focus args w =
      ask_pane-Exits pane_focus w.state_file (parse_pane_target env (target_arg args none)) w
  command-Exits panes args w =
      list_from-Exits
        (parse_workspace_target env (value_of (codes "-t") (codes "-F" ∷ []) args none)) w
  command-Exits windows args w = windows-Exits w.state_file w
  command-Exits kill args w =
      kill_from-Exits w.state_file (parse_pane_target env (target_arg args none)) w
  command-Exits keys args w =
      let a = key_args args (record { target = none; literal = false; tokens = [] }) in
      send_from-Exits a w.state_file (parse_pane_target env a.target) w
  command-Exits capture args w =
      ask_pane-Exits (λ workspace pane. read_text workspace pane (lines_arg env args (pos 0)))
        w.state_file
        (parse_pane_target env (value_of (codes "-t") (codes "-S" ∷ codes "-E" ∷ []) args none)) w
  command-Exits window args w = window_from-Exits w.state_file w
  command-Exits quiet args w = inl refl

  -- Every tmux command exits with 0 or 1, whatever the server answers, and one that exits with 1 leaves
  -- the state file as it was.
  pub run_tmux_compat-Exits :
      (argv : List Text) (w : World) → Exits w (run_tmux_compat server env argv w)
  unfolding run_tmux_compat
  run_tmux_compat-Exits [] w = inr (refl, refl)
  run_tmux_compat-Exits (name ∷ args) w = command-Exits (command_of name) args w
