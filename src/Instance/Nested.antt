-- ===== src/Instance/Nested.antt =====
-- gtk/app_state.c: the name of an instance that is started within another one.
use prettymux.Prelude.{
  ℕ, zero, suc, ◌+◌, ◌/◌, ◌%◌, Bool, true, false, not, ◌&&◌, ◌||◌, Option, none, some, [], ◌∷◌,
  ◌++◌, if◌then◌else◌, ltb, leb,
}
use prettymux.Prelude.Text.{strlcpy, Text, codes, text_eq, is_empty}
use prettymux.Instance.{
  AppState, sanitize, assign_instance_id, default_instance_id, socket_prefix, socket_suffix,
}

-- What the code asks its surroundings: variables of the environment and the terminal, whether a
-- socket at a path accepts a connection, and whether a file of the folder of sessions exists.
pub record Surroundings : Type 0 where
  pub child_instance_id : Option Text
  pub terminal_id : Option Text
  pub ttyname : Option Text
  pub instance_id : Option Text
  pub inside_prettymux : Option Text
  pub parent_socket : Option Text
  pub runtime_dir : Option Text
  pub connect : Text → Bool
  pub session_exists : Text → Bool

-- derive_nested_instance_lane_id into a buffer of 64 bytes
unfoldable pub derive_lane_id : Surroundings → Bool × Text
derive_lane_id env =
    let explicit = sanitize env.child_instance_id 64 in
    let terminal = sanitize env.terminal_id 64 in
    let tty = sanitize env.ttyname 64 in
    if not (is_empty explicit)
    then (true, explicit)
    else if not (is_empty terminal)
    then (false, terminal)
    else if not (is_empty tty)
    then (false, tty)
    else (false, codes "shell")

-- The digits of a number, `%u`; ten are enough for an `unsigned int`.
unfoldable pub digits : ℕ → ℕ → Text
digits zero n = []
digits (suc fuel) n =
    let before = digits fuel (n / 10) in
    if ltb n 10 then (48 + n) ∷ [] else before ++ (48 + n % 10) ∷ []

-- build_nested_child_instance_id into a buffer of `out_len` bytes
unfoldable pub build_child_id : ℕ → Text → ℕ → Text
build_child_id out_len base slot =
    if is_empty base
    then []
    else if leb slot 1
    then strlcpy out_len base
    else strlcpy out_len (base ++ 45 ∷ digits 10 slot)

-- `value && value[0] ? value : otherwise`
abbrev or_else : Option Text → Text → Text
or_else none otherwise = otherwise
or_else (some value) otherwise = if is_empty value then otherwise else value

-- socket_runtime_dir
unfoldable pub socket_runtime_dir : Surroundings → Text
socket_runtime_dir env = or_else env.runtime_dir (codes "/tmp")

-- socket_path_is_connectable; the address holds 108 bytes
unfoldable pub is_connectable : Surroundings → Text → Bool
is_connectable env path = not (is_empty path) && env.connect (strlcpy 108 path)

-- instance_id_has_live_socket
unfoldable pub has_live_socket : Surroundings → Text → Bool
has_live_socket env id =
    not (is_empty id)
    && is_connectable env
        (strlcpy 256 (socket_runtime_dir env ++ 47 ∷ socket_prefix ++ id ++ socket_suffix))

-- instance_id_has_saved_session
unfoldable pub has_saved_session : Surroundings → Text → Bool
has_saved_session env id =
    not (is_empty id)
    && env.session_exists (
        if text_eq id default_instance_id
        then codes "last-default.json"
        else codes "last-" ++ id ++ codes ".json")

-- What the loop over the slots ends with: the name to assign at once, or the first free name, which
-- is empty as long as there is none.
pub data Search : Type 0 where
  saved : Text → Search
  free : Text → Search

-- The loop over as many slots from `slot` on, with the first free name so far.
unfoldable pub search_slots : Surroundings → Text → ℕ → ℕ → Text → Search
search_slots env base zero slot first_free = free first_free
search_slots env base (suc rounds) slot first_free =
    let candidate = build_child_id 64 base slot in
    let next = search_slots env base rounds (suc slot) (
      if is_empty candidate || has_live_socket env candidate
      then first_free
      else if is_empty first_free
      then strlcpy 64 candidate
      else first_free) in
    if not (is_empty candidate)
      && not (has_live_socket env candidate)
      && has_saved_session env candidate
    then saved candidate
    else next

-- The name that a search over the slots leads to; the loop runs from slot 2 to slot 999.
unfoldable pub choose_slot : Surroundings → Text → ℕ → Text
choose_slot env base rounds =
    let base_live = has_live_socket env base in
    let base_saved = has_saved_session env base in
    if not base_live && base_saved then base else elim (search_slots env base rounds 2 []) [
      | saved candidate ↦ candidate
      | free first_free ↦
          if not base_live && not base_saved
          then base
          else if not (is_empty first_free)
          then first_free
          else base
    ]

-- The text `"%s-child-%s"` in a buffer of 64 bytes.
unfoldable pub base_candidate : Surroundings → Option Text → Text
base_candidate env parent =
    let sanitized = sanitize parent 64 in
    let parent_id = if is_empty sanitized then strlcpy 64 default_instance_id else sanitized in
    strlcpy 64 (parent_id ++ codes "-child-" ++ (derive_lane_id env).1)

-- assign_nested_child_instance_id, as on any system but Windows
unfoldable pub assign_nested_child : Surroundings → AppState → Option Text → AppState
assign_nested_child env state parent =
    let base = base_candidate env parent in
    let slots = choose_slot env base 998 in
    assign_instance_id state (some (if (derive_lane_id env).0 then base else slots))

abbrev is_set : Option Text → Bool
is_set none = false
is_set (some value) = not (is_empty value)

-- app_state_init_instance_id_from_env
unfoldable pub init_from_env : Surroundings → AppState → AppState
init_from_env env state =
    if not (is_set env.instance_id)
    then state
    else if is_set env.inside_prettymux && is_set env.parent_socket
    then assign_nested_child env state env.instance_id
    else assign_instance_id state env.instance_id
