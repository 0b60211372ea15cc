-- ===== src/Agent/Examples.antt =====
-- Two running instances in the runtime folder, a server that answers agents, and the theorems at them.
use prettymux.Prelude.{◌++◌, length, All, ◌≡◌, refl, true, false, Option, none, some, List, [], ◌∷◌}
use prettymux.Prelude.Text.{Text, codes}
use prettymux.Instance.Nested.{Surroundings}
use prettymux.Agent.{Running, of_best, find_socket_path}
use prettymux.Prelude.Int.{pos}
use prettymux.Json.{end, member, string}
use prettymux.Agent.Tmux.{
  parse_pane_target, shell_command_text, pane_split, pane_close, pane_list, equalize_splits,
  type_text, pane_focus, read_text, tab_new, resize_percent, Response, done, failed, Exchange,
  Server, World, TmuxEnv,
}
use prettymux.Agent.Commands.{type_text_with_retry, split_window}
use prettymux.Agent.Column.{main_state, split_each, splits, Stacked}
use prettymux.Agent.Stacked.{split_window-Stacked}
use prettymux.Agent.Texts.{replace_token, send_keys_text, merge_node_options}
use prettymux.Agent.Replace.{Replaced, replace_token-Replaced}
use prettymux.Agent.Panes.{run_tmux_compat}
use prettymux.Agent.Exits.{Exits, run_tmux_compat-Exits}
use prettymux.Agent.Retry.{Outcome, type_text_with_retry-Outcome}
use prettymux.Agent.Find.{IsBest, find_socket_path-IsBest}

-- Every socket accepts a connection, and no variable is set.
abbrev plain : Surroundings
plain = record {
  child_instance_id = none;
  terminal_id = none;
  ttyname = none;
  instance_id = none;
  inside_prettymux = none;
  parent_socket = some [];
  runtime_dir = none;
  connect = λ t. true;
  session_exists = λ t. false;
}

abbrev listing : List Text
listing = codes "prettymux-work.sock" ∷ codes "other" ∷ codes "prettymux-12.sock" ∷ []

find_socket_path-IsBest_example :
    (best : Option Running) × (find_socket_path plain (some listing) ≡ of_best best)
    × IsBest plain listing best
find_socket_path-IsBest_example = find_socket_path-IsBest plain listing refl tt

-- A new pane is named after the number of messages before it. The first messages come too early for a
-- text.
abbrev type_answer : List Exchange → Response
type_answer [] = failed (codes "no terminal found")
type_answer (e ∷ log) = done end

abbrev numbering : Server
numbering log (pane_split workspace pane direction) =
    done (member (codes "paneId") (string (112 ∷ length log ∷ [])) end)
numbering log (pane_close workspace pane) = done end
numbering log (pane_list workspace) = done end
numbering log (equalize_splits workspace orientation) = done end
numbering log (type_text workspace pane text) = type_answer log
numbering log (pane_focus workspace pane) = done end
numbering log (read_text workspace pane lines) = done end
numbering log tab_new = done end
numbering log (resize_percent workspace pane percent) = done end

abbrev no_variables : TmuxEnv
no_variables = record { tmux_pane = none; tmux_workspace = none; to_int = λ t. pos 0 }

abbrev at_start : World
at_start = record {
  state_file = some (main_state (pos 2) (codes "7") none);
  is_writable = true;
  log = [];
}

abbrev two_splits : List (List Text)
two_splits =
    (codes "-h" ∷ codes "-t" ∷ codes "%7" ∷ [])
    ∷ (codes "-t" ∷ codes "%7" ∷ codes "-h" ∷ codes "make" ∷ [])
    ∷ []

second_below :
    (split_each numbering no_variables two_splits at_start).1.state_file
    ≡ some (main_state (pos 2) (codes "7") (some (112 ∷ 2 ∷ [])))
unfolding split_window parse_pane_target shell_command_text type_text_with_retry
second_below = refl

split_window-Stacked_example :
    let r = split_each numbering no_variables two_splits at_start in
    All (λ code. code ≡ 0) r.0
    × (length (splits r.1.log) ≡ length two_splits)
    × Stacked (pos 2) (codes "7") (splits r.1.log)
unfolding parse_pane_target
split_window-Stacked_example =
    split_window-Stacked numbering no_variables two_splits (pos 2) (codes "7") at_start
      (λ log workspace pane direction. refl) refl refl refl refl ((refl, refl), ((refl, refl), tt))

type_text_with_retry-Outcome_example :
    Outcome numbering 19
      (type_text (pos 2) (codes "7") (codes "make"))
      at_start
      (type_text_with_retry numbering (pos 2) (codes "7") (codes "make") at_start)
type_text_with_retry-Outcome_example =
    type_text_with_retry-Outcome numbering (pos 2) (codes "7") (codes "make") at_start

replace_pane :
    replace_token (some (codes "a#{p}b#{p}")) (some (codes "#{p}")) (some (codes "%7"))
    ≡ codes "a%7b%7"
unfolding replace_token
replace_pane = refl

replace_token-Replaced_example :
    Replaced
      (codes "#{p}")
      (codes "%7")
      (codes "a#{p}b#{p}")
      (replace_token (some (codes "a#{p}b#{p}")) (some (codes "#{p}")) (some (codes "%7")))
replace_token-Replaced_example =
    replace_token-Replaced (codes "a#{p}b#{p}") (codes "#{p}") (codes "%7") refl

keys :
    send_keys_text (codes "make" ∷ codes "test" ∷ codes "Enter" ∷ []) false
    ≡ codes "make test" ++ 13 ∷ []
unfolding send_keys_text
keys = refl

options :
    merge_node_options (some (codes "--max-old-space-size 9 --inspect")) (some (codes "m.cjs"))
    ≡ codes "--require=m.cjs --max-old-space-size=4096 --inspect"
unfolding merge_node_options
options = refl

run_tmux_compat-Exits_example : Exits at_start (
    run_tmux_compat numbering no_variables
      (codes "kill-pane" ∷ codes "-t" ∷ codes "%7" ∷ [])
      at_start)
run_tmux_compat-Exits_example =
    run_tmux_compat-Exits numbering no_variables (codes "kill-pane" ∷ codes "-t" ∷ codes "%7" ∷ [])
      at_start
