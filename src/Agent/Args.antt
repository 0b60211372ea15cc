-- ===== src/Agent/Args.antt =====
-- gtk/prettymux_agent_cli.c: how the tmux commands read their arguments.
use prettymux.Prelude.{
  suc, Bool, true, false, ◌||◌, Option, some, List, [], ◌∷◌, ◌++◌, ◌==◌, if◌then◌else◌,
}
use prettymux.Prelude.Int.{ℤ, pos, negsuc}
use prettymux.Prelude.Text.{Text, codes, text_eq}
use prettymux.Agent.Tmux.{TmuxEnv}

abbrev pub is_one : Text → List Text → Bool
is_one x [] = false
is_one x (name ∷ names) = text_eq x name || is_one x names

-- The last value of a flag, where the others take a value too.
abbrev pub value_of : Text → List Text → List Text → Option Text → Option Text
value_of flag others [] value = value
value_of flag others (x ∷ []) value = value
value_of flag others (x ∷ y ∷ rest) value = elim (text_eq x flag) [
  | true ↦ value_of flag others rest (some y)
  | false ↦ elim (is_one x others) [
    | true ↦ value_of flag others rest value
    | false ↦ value_of flag others (y ∷ rest) value
  ]
]

-- The flags of tmux_send_keys.
pub record KeyArgs : Type 0 where
  pub target : Option Text
  pub literal : Bool
  pub tokens : List Text

abbrev key_arg : Text → KeyArgs → KeyArgs
key_arg x a =
    if text_eq x (codes "-l")
    then record a { literal = true }
    else record a { tokens = a.tokens ++ x ∷ [] }

abbrev pub key_args : List Text → KeyArgs → KeyArgs
key_args [] a = a
key_args (x ∷ []) a = key_arg x a
key_args (x ∷ y ∷ rest) a = elim (text_eq x (codes "-t")) [
  | true ↦ key_args rest (record a { target = some y })
  | false ↦ key_args (y ∷ rest) (key_arg x a)
]

abbrev counted : ℤ → ℤ → ℤ
counted (pos n) lines = lines
counted (negsuc n) lines = pos (suc n)

-- The number of lines of tmux_capture_pane: the last negative start, without its sign.
abbrev pub lines_arg : TmuxEnv → List Text → ℤ → ℤ
lines_arg env [] lines = lines
lines_arg env (x ∷ []) lines = lines
lines_arg env (x ∷ y ∷ rest) lines = elim (text_eq x (codes "-S")) [
  | true ↦ lines_arg env rest (counted (env.to_int y) lines)
  | false ↦ elim (is_one x (codes "-t" ∷ codes "-E" ∷ [])) [
    | true ↦ lines_arg env rest lines
    | false ↦ lines_arg env (y ∷ rest) lines
  ]
]

abbrev pub has_percent : Text → Bool
has_percent [] = false
has_percent (c ∷ t) = c == 37 || has_percent t
