-- ===== src/Agent.antt =====
-- gtk/prettymux_agent_cli.c: the command line that agents call, and which instance it talks to.
pub mod Order
pub mod Find
pub mod Tmux
pub mod Commands
pub mod Retry
pub mod Texts
pub mod Replace
pub mod Args
pub mod Panes
pub mod Exits
pub mod Column
pub mod Split
pub mod Stacked
mod Examples
use prettymux.Prelude.{
  ℕ, ◌+◌, ◌-◌, ◌*◌, ◌^◌, Bool, true, false, not, ◌&&◌, ◌||◌, Option, none, some, List, [], ◌∷◌,
  ◌++◌, ◌==◌, if◌then◌else◌, length, ltb, leb,
}
use prettymux.Prelude.Int.{ℤ, pos, negsuc, ltb_ℤ}
use prettymux.Prelude.Text.{Text, codes, is_empty, strlcpy}
use prettymux.Instance.{is_valid, parse_socket_name, socket_prefix, socket_suffix}
use prettymux.Instance.Nested.{Surroundings, socket_runtime_dir, is_connectable}
use prettymux.Status.{strcmp}

abbrev is_digit : ℕ → Bool
is_digit c = leb 48 c && leb c 57

-- The value of a text of digits alone, behind those that make `value`.
abbrev pub digits_value : ℕ → Text → Option ℕ
digits_value value [] = some value
digits_value value (c ∷ t) = if is_digit c then digits_value (10 * value + (c - 48)) t else none

abbrev number_of : Text → Option ℕ
number_of [] = none
number_of (c ∷ t) = digits_value 0 (c ∷ t)

-- Past the range of a `guint64`, `errno` is set.
abbrev in_guint64 : Option ℕ → Option ℕ
in_guint64 none = none
in_guint64 (some value) = if ltb value (2 ^ 64) then some value else none

-- A minus sign negates the value modulo 2 ^ 64.
abbrev negated : Option ℕ → Option ℕ
negated none = none
negated (some value) = some (if value == 0 then 0 else 2 ^ 64 - value)

-- What `g_ascii_strtoull` makes of a text that it has to read to the end: a sign, then digits.
abbrev signed : Text → Option ℕ
signed [] = none
signed (c ∷ t) =
    if c == 45
    then negated (in_guint64 (number_of t))
    else if c == 43
    then in_guint64 (number_of t)
    else in_guint64 (number_of (c ∷ t))

-- parse_numeric_instance_id, for a name, in which no white space stands
unfoldable pub parse_numeric : Text → Option ℕ
parse_numeric t = signed t

-- The comparison of numbers where both names have one, and the end of the function.
abbrev pub compare_numbers : Option ℕ → Option ℕ → ℤ → ℤ
compare_numbers (some a) (some b) texts =
    if ltb a b then negsuc 0 else if ltb b a then pos 1 else texts
compare_numbers (some a) none texts = negsuc 0
compare_numbers none (some b) texts = pos 1
compare_numbers none none texts = texts

-- compare_instance_id_for_default
unfoldable pub compare_default : Text → Text → ℤ
compare_default a b = compare_numbers (parse_numeric a) (parse_numeric b) (strcmp a b)

-- build_socket_path_for_instance into a buffer of `out_size` bytes
unfoldable pub build_socket_path : Surroundings → Text → ℕ → Option Text
build_socket_path env instance_id out_size =
    if not (is_valid instance_id)
    then none
    else some (
        strlcpy out_size
          (socket_runtime_dir env ++ 47 ∷ socket_prefix ++ instance_id ++ socket_suffix))

-- The texts of the errors of `find_socket_path`, by what they say.
pub data SocketError : Type 0 where
  socket_unreachable instance_invalid instance_unreachable no_directory no_instance : SocketError

pub data Found : Type 0 where
  path : Text → Found
  error : SocketError → Found

-- A running instance: its name, and the path of its socket.
pub record Running : Type 0 where
  pub id : Text
  pub socket : Text

-- What a folder's entry is: a socket with the name of an instance, whose path fits 256 bytes, and that
-- accepts a connection.
unfoldable pub running_at : Surroundings → Text → Option Running
running_at env name = elim (parse_socket_name name 128) [
  | none ↦ none
  | some id ↦
      let socket = socket_runtime_dir env ++ 47 ∷ name in
      if not (ltb (length socket) 256) || not (is_connectable env socket)
      then none
      else some (record { id = id; socket = socket })
]

abbrev pub better : Option Running → Running → Running
better none found = found
better (some best) found = if ltb_ℤ (compare_default found.id best.id) (pos 0) then found else best

-- The loop over the entries of the folder.
abbrev pub scan : Surroundings → List Text → Option Running → Option Running
scan env [] best = best
scan env (name ∷ rest) best = elim (running_at env name) [
  | none ↦ scan env rest best
  | some found ↦ scan env rest (some (better best found))
]

abbrev pub of_best : Option Running → Found
of_best none = error no_instance
of_best (some best) = path best.socket

abbrev of_folder : Surroundings → Option (List Text) → Found
of_folder env none = error no_directory
of_folder env (some entries) = of_best (scan env entries none)

-- `env_instance && env_instance[0]`
abbrev of_instance : Surroundings → Option Text → Option (List Text) → Found
of_instance env none entries = of_folder env entries
of_instance env (some instance) entries =
    if is_empty instance then of_folder env entries else elim (build_socket_path env instance 256) [
      | none ↦ error instance_invalid
      | some candidate ↦
          if is_connectable env candidate then path candidate else error instance_unreachable
    ]

abbrev of_socket : Surroundings → Option Text → Option (List Text) → Found
of_socket env none entries = of_instance env env.instance_id entries
of_socket env (some socket) entries =
    if is_empty socket
    then of_instance env env.instance_id entries
    else if is_connectable env socket
    then path socket
    else error socket_unreachable

-- find_socket_path; `entries` is what `readdir` gives of the runtime folder, if it opens
unfoldable pub find_socket_path : Surroundings → Option (List Text) → Found
find_socket_path env entries = of_socket env env.parent_socket entries
