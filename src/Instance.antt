-- ===== src/Instance.antt =====
-- gtk/app_state.c: the name of an instance, what a name may hold, and the names of sockets.
pub mod Nested
pub mod Valid
pub mod Socket
pub mod Slots
pub mod Child
mod Examples
use prettymux.Prelude.{
  ℕ, zero, suc, ◌+◌, ◌-◌, Bool, true, false, not, ◌&&◌, ◌||◌, Option, none, some, List, [], ◌∷◌,
  ◌++◌, ◌==◌, if◌then◌else◌, length, take, drop, ltb, leb,
}
use prettymux.Prelude.Text.{Text, codes, text_eq, is_empty, strlcpy, has_prefix}

-- PRETTYMUX_DEFAULT_INSTANCE_ID
abbrev pub default_instance_id : Text
default_instance_id = codes "default"

-- `g_ascii_isalnum`
abbrev is_alnum : ℕ → Bool
is_alnum c = leb 48 c && leb c 57 || leb 65 c && leb c 90 || leb 97 c && leb c 122

-- instance_id_char_allowed
unfoldable pub char_allowed : ℕ → Bool
char_allowed c = is_alnum c || c == 45 || c == 95 || c == 46

abbrev pub all_allowed : Text → Bool
all_allowed [] = true
all_allowed (c ∷ t) = char_allowed c && all_allowed t

-- instance_id_is_valid
unfoldable pub is_valid : Text → Bool
is_valid t = not (is_empty t) && all_allowed t

-- The loop of `sanitize_instance_id`, with room for as many bytes.
unfoldable pub keep_allowed : ℕ → Text → Text
keep_allowed zero t = []
keep_allowed (suc room) [] = []
keep_allowed (suc room) (c ∷ t) = elim (char_allowed c) [
  | true ↦ c ∷ keep_allowed room t
  | false ↦ keep_allowed (suc room) t
]

-- sanitize_instance_id into a buffer of `out_len` bytes, which is not 0; NULL is `none`
unfoldable pub sanitize : Option Text → ℕ → Text
sanitize none out_len = []
sanitize (some input) out_len = keep_allowed (out_len - 1) input

-- AppState, of which this module uses one field, a buffer of 64 bytes
pub record AppState : Type 0 where
  pub instance_id : Text

-- assign_instance_id
unfoldable pub assign_instance_id : AppState → Option Text → AppState
assign_instance_id state preferred_id =
    let base_id = sanitize preferred_id 64 in
    record state {
      instance_id =
          strlcpy 64 (if is_empty base_id then strlcpy 64 default_instance_id else base_id);
    }

-- assign_default_instance_id
unfoldable pub assign_default_instance_id : AppState → AppState
assign_default_instance_id state = assign_instance_id state (some default_instance_id)

-- app_state_get_instance_id
unfoldable pub get_instance_id : AppState → AppState × Text
get_instance_id state =
    let named = if is_empty state.instance_id then assign_default_instance_id state else state in
    (named, named.instance_id)

-- `g_str_has_suffix`
abbrev pub has_suffix : Text → Text → Bool
has_suffix t suffix =
    leb (length suffix) (length t) && text_eq (drop (length t - length suffix) t) suffix

abbrev pub socket_prefix : Text
socket_prefix = codes "prettymux-"

abbrev pub socket_suffix : Text
socket_suffix = codes ".sock"

-- parse_instance_id_from_socket_name into a buffer of `out_len` bytes; FALSE is `none`
unfoldable pub parse_socket_name : Text → ℕ → Option Text
parse_socket_name name out_len =
    let prefix_len = length socket_prefix in
    let suffix_len = length socket_suffix in
    let id_len = length name - prefix_len - suffix_len in
    let id = take id_len (drop prefix_len name) in
    if leb (length name) (prefix_len + suffix_len)
    then none
    else if not (has_prefix name socket_prefix) || not (has_suffix name socket_suffix)
    then none
    else if ltb out_len (id_len + 1)
    then none
    else if is_valid id
    then some id
    else none
