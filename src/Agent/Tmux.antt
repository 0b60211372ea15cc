-- ===== src/Agent/Tmux.antt =====
-- gtk/prettymux_agent_cli.c: the commands of tmux that agents run in a pane, and their state file. What
-- they print is left out.
use prettymux.Prelude.{
  Bool, true, false, not, ◌&&◌, ◌||◌, Option, none, some, List, [], ◌∷◌, ◌++◌, ◌==◌, if◌then◌else◌,
  leb,
}
use prettymux.Prelude.Int.{ℤ}
use prettymux.Prelude.Text.{Text, codes, text_eq, is_empty, present}
use prettymux.Json.{
  Items, nil, item, null, bool, int, string, array, object, Members, string_member, array_member,
}

pub record TmuxCompatState : Type 0 where
  pub workspace : ℤ
  pub leader_pane : Option Text
  pub last_column_pane : Option Text
  pub layout : Option Text

-- The messages that are sent, by their members.
pub data Request : Type 0 where
  pane_split : ℤ → Text → Text → Request
  pane_close : ℤ → Text → Request
  pane_list : ℤ → Request
  equalize_splits : ℤ → Text → Request
  type_text : ℤ → Text → Text → Request
  pane_focus : ℤ → Text → Request
  read_text : ℤ → Text → ℤ → Request
  tab_new : Request
  -- The number of the message is the one that the text starts with.
  resize_percent : ℤ → Text → Text → Request

-- What `ipc_request` returns: the object of the response, or the message of an error.
pub data Response : Type 0 where
  done : Members → Response
  failed : Text → Response

pub record Exchange : Type 0 where
  pub request : Request
  pub answer : Response

-- The answer to a request after the exchanges of before, the newest one first.
abbrev pub Server : Type 0
Server = List Exchange → Request → Response

-- The state file, if it can be read, whether it can be written, and the exchanges, the newest one first.
pub record World : Type 0 where
  pub state_file : Option TmuxCompatState
  pub is_writable : Bool
  pub log : List Exchange

-- The environment variables TMUX_PANE and PRETTYMUX_TMUX_WORKSPACE, and the `int` that
-- `g_ascii_strtoll` reads.
pub record TmuxEnv : Type 0 where
  pub tmux_pane : Option Text
  pub tmux_workspace : Option Text
  pub to_int : Text → ℤ

-- `!t || !t[0]`
abbrev pub is_absent : Option Text → Bool
is_absent none = true
is_absent (some t) = is_empty t

-- g_strcmp0(a, b) == 0
abbrev pub same_text : Option Text → Option Text → Bool
same_text none none = true
same_text none (some t) = false
same_text (some s) none = false
same_text (some s) (some t) = text_eq s t

abbrev pub stored : TmuxCompatState → TmuxCompatState
stored state = record {
  workspace = state.workspace;
  leader_pane = present state.leader_pane;
  last_column_pane = present state.last_column_pane;
  layout = present state.layout;
}

-- save_state_to_env: whether the file was written, and the world afterwards
abbrev pub save_state : TmuxCompatState → World → Bool × World
save_state state w =
    if w.is_writable then (true, record w { state_file = some (stored state) }) else (false, w)

-- The rest of a target, without its percent sign.
abbrev pub unmarked : Text → Option Text
unmarked [] = none
unmarked (c ∷ t) = if c == 37 then if is_empty t then none else some t else some (c ∷ t)

abbrev of_value : Option Text → Option Text
of_value none = none
of_value (some value) = unmarked value

-- parse_pane_target
unfoldable pub parse_pane_target : TmuxEnv → Option Text → Option Text
parse_pane_target env target = of_value (if is_absent target then env.tmux_pane else target)

-- What stands behind the last colon.
abbrev pub after_last_colon : Text → Option Text
after_last_colon [] = none
after_last_colon (c ∷ t) = elim (after_last_colon t) [
  | some rest ↦ some rest
  | none ↦ if c == 58 then some t else none
]

abbrev starts_number : Text → Bool
starts_number [] = false
starts_number (c ∷ t) = leb 48 c && leb c 57 || c == 45

abbrev of_target : TmuxEnv → Text → Option ℤ
of_target env t = elim (present (after_last_colon t)) [
  | some number ↦ some (env.to_int number)
  | none ↦ if starts_number t then some (env.to_int t) else none
]

abbrev number_in : TmuxEnv → Option Text → Option ℤ
number_in env t = elim (present t) [ none ↦ none | some number ↦ some (env.to_int number) ]

-- parse_workspace_target
unfoldable pub parse_workspace_target : TmuxEnv → Option Text → Option ℤ
parse_workspace_target env target = elim (present target) [
  | none ↦ number_in env env.tmux_workspace
  | some t ↦ elim (of_target env t) [ some i ↦ some i | none ↦ number_in env env.tmux_workspace ]
]

-- The flags of tmux_split_window, without those of what it prints.
pub record SplitArgs : Type 0 where
  pub horizontal : Bool
  pub target : Option Text
  pub cwd : Option Text

-- An argument and the one behind it, and whether that one belongs to it.
abbrev split_arg : Text → Text → SplitArgs → Bool × SplitArgs
split_arg x y a =
    if text_eq x (codes "-h")
    then (false, record a { horizontal = true })
    else if text_eq x (codes "-P")
    then (false, a)
    else if text_eq x (codes "-t")
    then (true, record a { target = some y })
    else if text_eq x (codes "-F") || text_eq x (codes "-l")
    then (true, a)
    else if text_eq x (codes "-c")
    then (true, record a { cwd = some y })
    else (false, a)

abbrev pub split_args : List Text → SplitArgs → SplitArgs
split_args [] a = a
split_args (x ∷ []) a = if text_eq x (codes "-h") then record a { horizontal = true } else a
split_args (x ∷ y ∷ rest) a =
    let step = split_arg x y a in
    elim step.0 [ true ↦ split_args rest step.1 | false ↦ split_args (y ∷ rest) step.1 ]

abbrev is_switch : Text → Bool
is_switch x =
    text_eq x (codes "-h")
    || text_eq x (codes "-v")
    || text_eq x (codes "-P")
    || text_eq x (codes "-b")
    || text_eq x (codes "-d")

abbrev takes_value : Text → Bool
takes_value x =
    text_eq x (codes "-t")
    || text_eq x (codes "-F")
    || text_eq x (codes "-l")
    || text_eq x (codes "-c")
    || text_eq x (codes "-e")

abbrev is_option : Text → Bool
is_option [] = false
is_option (c ∷ t) = c == 45

abbrev with_word : Text → Text → Text
with_word x text = if is_option x then text else if is_empty text then x else text ++ 32 ∷ x

-- The arguments that are no flags, with a blank between two.
abbrev pub positional : List Text → Text → Text
positional [] text = text
positional (x ∷ []) text = if is_switch x then text else with_word x text
positional (x ∷ y ∷ rest) text = elim (is_switch x) [
  | true ↦ positional (y ∷ rest) text
  | false ↦ elim (takes_value x) [
    | true ↦ positional rest text
    | false ↦ positional (y ∷ rest) (with_word x text)
  ]
]

abbrev change_folder : Option Text → Text → Text
change_folder none text = text
change_folder (some cwd) text =
    if is_empty cwd
    then text
    else codes "cd -- '" ++ cwd ++ 39 ∷ (if is_empty text then [] else codes " && " ++ text)

-- tmux_build_shell_command_text
unfoldable pub shell_command_text : List Text → Option Text → Option Text
shell_command_text args cwd =
    let text = positional args [] in
    if is_empty text && is_absent cwd then none else some (change_folder cwd text ++ 13 ∷ [])

-- The first pane of the list that is not the leader. An element that is no object is skipped.
abbrev pub first_non_leader : Items → Option Text → Option Text
first_non_leader nil leader = none
first_non_leader (item (object pane) rest) leader =
    let id = string_member pane (codes "id") [] in
    elim (not (is_empty id) && not (same_text (some id) leader)) [
      | true ↦ some id
      | false ↦ first_non_leader rest leader
    ]
first_non_leader (item null rest) leader = first_non_leader rest leader
first_non_leader (item (bool b) rest) leader = first_non_leader rest leader
first_non_leader (item (int i) rest) leader = first_non_leader rest leader
first_non_leader (item (string t) rest) leader = first_non_leader rest leader
first_non_leader (item (array l) rest) leader = first_non_leader rest leader

-- find_non_leader_pane_id
unfoldable pub find_non_leader_pane_id : Members → Option Text → Option Text
find_non_leader_pane_id root leader = elim (array_member root (codes "panes")) [
  | none ↦ none
  | some panes ↦ first_non_leader panes leader
]
