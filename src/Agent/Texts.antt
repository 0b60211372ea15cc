-- ===== src/Agent/Texts.antt =====
-- gtk/prettymux_agent_cli.c: the texts that its commands make, of formats, of keys and of the options of an
-- agent.
use prettymux.Prelude.{
  ℕ, zero, suc, ◌+◌, Bool, true, false, not, ◌&&◌, ◌||◌, Option, none, some, List, [], ◌∷◌, ◌++◌,
  ◌==◌, if◌then◌else◌, leb, length, drop,
}
use prettymux.Prelude.Text.{Text, codes, text_eq, is_empty, has_prefix}

-- What stands in front of the token, and behind it: `strstr` of a token that is not empty.
abbrev pub cut_at : Text → Text → Option (Text × Text)
cut_at token [] = none
cut_at token (c ∷ t) =
    if has_prefix (c ∷ t) token
    then some ([], drop (length token) (c ∷ t))
    else elim (cut_at token t) [ none ↦ none | some (before, after) ↦ some (c ∷ before, after) ]

-- The loop of replace_token; each round takes a byte at least.
abbrev pub replace_loop : ℕ → Text → Text → Text → Text
replace_loop zero token value cursor = []
replace_loop (suc fuel) token value [] = []
replace_loop (suc fuel) token value (c ∷ t) = elim (cut_at token (c ∷ t)) [
  | none ↦ c ∷ t
  | some (before, after) ↦ before ++ (value ++ replace_loop fuel token value after)
]

abbrev text_or_empty : Option Text → Text
text_or_empty none = []
text_or_empty (some t) = t

-- replace_token
unfoldable pub replace_token : Option Text → Option Text → Option Text → Text
replace_token none token value = []
replace_token (some input) none value = input
replace_token (some input) (some token) value =
    if is_empty token then input else replace_loop (length input) token (text_or_empty value) input

-- g_ascii_tolower
abbrev lower : ℕ → ℕ
lower c = if leb 65 c && leb c 90 then c + 32 else c

-- `g_ascii_strcasecmp(a, b) == 0`
abbrev same_letters : Text → Text → Bool
same_letters [] [] = true
same_letters [] (d ∷ t) = false
same_letters (c ∷ s) [] = false
same_letters (c ∷ s) (d ∷ t) = lower c == lower d && same_letters s t

-- tmux_special_key_text
abbrev pub special_key_text : Text → Option Text
special_key_text token =
    if is_empty token
    then none
    else if same_letters token (codes "enter")
        || same_letters token (codes "c-m")
        || same_letters token (codes "kpenter")
    then some (13 ∷ [])
    else if same_letters token (codes "tab") || same_letters token (codes "c-i")
    then some (9 ∷ [])
    else if same_letters token (codes "space")
    then some (32 ∷ [])
    else if same_letters token (codes "bspace") || same_letters token (codes "backspace")
    then some (127 ∷ [])
    else if same_letters token (codes "escape")
        || same_letters token (codes "esc")
        || same_letters token (codes "c-[")
    then some (27 ∷ [])
    else if same_letters token (codes "c-c")
    then some (3 ∷ [])
    else if same_letters token (codes "c-d")
    then some (4 ∷ [])
    else if same_letters token (codes "c-z")
    then some (26 ∷ [])
    else if same_letters token (codes "c-l")
    then some (12 ∷ [])
    else none

-- The tokens with a blank between two of them.
abbrev pub literal_text : List Text → Text
literal_text [] = []
literal_text (t ∷ []) = t
literal_text (t ∷ u ∷ rest) = t ++ 32 ∷ literal_text (u ∷ rest)

-- The loop over the tokens that are not literal, with `pending_space`.
abbrev pub keys_loop : Bool → List Text → Text
keys_loop pending [] = []
keys_loop pending (t ∷ rest) = elim (special_key_text t) [
  | some key ↦ key ++ keys_loop false rest
  | none ↦ (if pending then 32 ∷ t else t) ++ keys_loop true rest
]

-- tmux_send_keys_text
unfoldable pub send_keys_text : List Text → Bool → Text
send_keys_text tokens literal = if literal then literal_text tokens else keys_loop false tokens

-- claude_has_teammate_mode
abbrev pub has_teammate_mode : List Text → Bool
has_teammate_mode [] = false
has_teammate_mode (arg ∷ rest) =
    text_eq arg (codes "--teammate-mode")
    || has_prefix arg (codes "--teammate-mode=")
    || has_teammate_mode rest

-- build_claude_argv
unfoldable pub build_claude_argv : Text → List Text → List Text
build_claude_argv claude_path argv =
    let mode = if has_teammate_mode argv then [] else codes "--teammate-mode" ∷ codes "auto" ∷ [] in
    claude_path ∷ mode ++ argv

-- Is a token of NODE_OPTIONS kept, and is the next one skipped?
abbrev option_step : Bool → Text → Bool × Bool
option_step skip_next token =
    if is_empty token
    then (false, skip_next)
    else if skip_next
    then (false, false)
    else if text_eq token (codes "--max-old-space-size")
    then (false, true)
    else (not (has_prefix token (codes "--max-old-space-size=")), false)

abbrev pub kept_options : Bool → List Text → List Text
kept_options skip_next [] = []
kept_options skip_next (token ∷ rest) =
    let step = option_step skip_next token in
    let others = kept_options step.1 rest in if step.0 then token ∷ others else others

-- g_strsplit at blanks: the first piece, and the others.
abbrev pieces : Text → Text × List Text
pieces [] = ([], [])
pieces (c ∷ t) =
    let (first, rest) = pieces t in if c == 32 then ([], first ∷ rest) else (c ∷ first, rest)

abbrev options_of : Option Text → List Text
options_of none = []
options_of (some existing) =
    let (first, rest) = pieces existing in
    if is_empty existing then [] else kept_options false (first ∷ rest)

abbrev with_options : Text → List Text → Text
with_options text [] = text
with_options text (token ∷ rest) = with_options (text ++ 32 ∷ token) rest

-- merge_node_options
unfoldable pub merge_node_options : Option Text → Option Text → Text
merge_node_options existing none = text_or_empty existing
merge_node_options existing (some restore_module_path) =
    if is_empty restore_module_path
    then text_or_empty existing
    else with_options
        (codes "--require=" ++ restore_module_path ++ codes " --max-old-space-size=4096")
        (options_of existing)
