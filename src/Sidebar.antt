-- ===== src/Sidebar.antt =====
-- gtk/sidebar_data.c and gtk/sidebar_sections.c: the texts of the sidebar. A label that is there is given
-- and returned; a section that is hidden has the empty text.
mod Examples
use prettymux.Prelude.{
  ℕ, zero, suc, ◌+◌, ◌-◌, ◌*◌, ◌/◌, ◌%◌, min, Bool, true, false, not, ◌&&◌, ◌||◌, Option, none,
  some, List, [], ◌∷◌, ◌++◌, ◌==◌, if◌then◌else◌, length, take, drop, ltb, leb, map,
}
use prettymux.Prelude.Int.{ℤ, pos, negsuc, eqb_ℤ, ltb_ℤ, leb_ℤ, ◌-ℤ◌}
use prettymux.Prelude.Text.{Text, codes, text_eq, is_empty, present, strlcpy, has_prefix}
use prettymux.Instance.Nested.{digits}
use prettymux.Status.{StatusEntry, or_text}

-- What a section's label shows.
pub record Label : Type 0 where
  pub text : Text
  pub visible : Bool
  pub tooltip : Option Text

abbrev hidden : Label
hidden = record { text = []; visible = false; tooltip = none }

-- `%d`
abbrev pub int_text : ℤ → Text
int_text (pos n) = digits 20 n
int_text (negsuc n) = 45 ∷ digits 20 (suc n)

-- sidebar_data_format_status
unfoldable pub format_status : ℤ → ℤ → Text
format_status pane_count tab_count =
    if leb_ℤ pane_count (pos 1) && leb_ℤ tab_count (pos 1)
    then []
    else if leb_ℤ pane_count (pos 1)
    then int_text tab_count ++ codes " tabs"
    else int_text pane_count
      ++ codes " panes "
      ++ 194 ∷ 183 ∷ 32 ∷ (int_text tab_count ++ codes " tabs")

abbrev first_of : Option Text → Option Text → Option Text
first_of none other = other
first_of (some t) other = some t

-- sidebar_data_resolve_branch
unfoldable pub resolve_branch : Option Text → Option Text → Bool → Option Text
resolve_branch primary_branch fallback_branch has_first_terminal =
    first_of (present primary_branch) (if has_first_terminal then none else present fallback_branch)

-- sidebar_data_resolve_cwd
unfoldable pub resolve_cwd : Option Text → Option Text → Option Text
resolve_cwd first_terminal_cwd fallback_cwd =
    first_of (present first_terminal_cwd) (present fallback_cwd)

-- The age by its seconds, of which there are less than none when the clock went back.
abbrev age_text : ℕ → Text
age_text age =
    if ltb age 10
    then codes "now"
    else if ltb age 60
    then digits 20 age ++ codes "s"
    else if ltb age 3600
    then digits 20 (age / 60) ++ codes "m"
    else if ltb age 86400
    then digits 20 (age / 3600) ++ codes "h"
    else digits 20 (age / 86400) ++ codes "d"

abbrev age_of : ℤ → Text
age_of (pos usec) = age_text (usec / 1000000)
age_of (negsuc n) = codes "now"

-- sidebar_sections_format_status_age into a buffer of `bufsz` bytes, of an entry that is there
unfoldable pub format_status_age : ℤ → StatusEntry → ℕ → Text
format_status_age now entry bufsz =
    if leb_ℤ entry.updated_at_usec (pos 0)
    then []
    else strlcpy bufsz (age_of (now -ℤ entry.updated_at_usec))

-- What stands in front of the last slash, and behind it.
abbrev at_last_slash : Text → Option (Text × Text)
at_last_slash [] = none
at_last_slash (c ∷ t) = elim (at_last_slash t) [
  | some (before, after) ↦ some (c ∷ before, after)
  | none ↦ if c == 47 then some ([], t) else none
]

abbrev with_slash : Text → Option (Text × Text) → Text
with_slash name none = name ++ 47 ∷ []
with_slash name (some (before, after)) = after ++ 47 ∷ []

abbrev last_part : Text → Option (Text × Text) → Text
last_part display none = display
last_part display (some ([], after)) = after
last_part display (some (c ∷ before, after)) =
    if is_empty after then with_slash (c ∷ before) (at_last_slash (c ∷ before)) else after

abbrev home_relative : Text → Option Text → Text
home_relative cwd none = cwd
home_relative cwd (some home) =
    if not (is_empty home) && has_prefix cwd home
    then strlcpy 256 (126 ∷ drop (length home) cwd)
    else cwd

-- sidebar_sections_compact_cwd; `home` is `g_get_home_dir()`
unfoldable pub compact_cwd : Option Text → Text → ℕ → Text
compact_cwd home cwd bufsz =
    let display = home_relative cwd home in
    let last = last_part display (at_last_slash display) in
    if is_empty cwd
    then []
    else if leb (length display) 26
    then strlcpy bufsz display
    else if is_empty last
    then strlcpy bufsz (take 25 display)
    else strlcpy bufsz (codes "~/.../" ++ take 20 last)

abbrev unbroken : ℕ → ℕ
unbroken c = if c == 13 || c == 10 then 32 else c

-- sidebar_ui_build_notification_preview_section; `strip` is `g_strstrip`
unfoldable pub build_notification_preview_section : (Text → Text) → Text → Bool → Label
build_notification_preview_section strip preview enabled =
    let line = map unbroken (strip preview) in
    if not enabled || is_empty preview || is_empty line
    then hidden
    else record { text = line; visible = true; tooltip = some line }

-- sidebar_ui_build_branch_cwd_section; NULL for a text is the empty one
unfoldable pub build_branch_cwd_section : Option Text → Text → Text → Bool → Label
build_branch_cwd_section home cwd branch enabled =
    let short_cwd = compact_cwd home cwd 48 in
    let in_brackets = if is_empty branch then [] else 91 ∷ (branch ++ 93 ∷ []) in
    let gap = if is_empty short_cwd || is_empty branch then [] else 32 ∷ [] in
    let line = strlcpy 192 (short_cwd ++ gap ++ in_brackets) in
    if not enabled
    then hidden
    else record { text = line; visible = not (is_empty line); tooltip = present (some cwd) }

-- Of the states, 4 is paused, 2 an error and 3 indeterminate.
abbrev of_state : {A : Type 0} → ℤ → A → A → A → A → A
of_state state paused failed unknown other =
    if eqb_ℤ state (pos 4)
    then paused
    else if eqb_ℤ state (pos 2)
    then failed
    else if eqb_ℤ state (pos 3)
    then unknown
    else other

abbrev progress_mark : ℤ → Text
progress_mark state = of_state state (codes "p||") (codes "p!") (codes "p~") (codes "p")

abbrev progress_tooltip : ℤ → Text
progress_tooltip state =
    of_state state (codes "Progress paused") (codes "Progress error")
      (codes "Progress indeterminate") (codes "Progress")

abbrev bar_cell : ℕ → ℕ → ℕ
bar_cell filled i = if ltb i filled then 35 else 45

abbrev progress_bar : ℕ → Text
progress_bar percent =
    let filled = (percent + 24) / 25 in map (bar_cell filled) (0 ∷ 1 ∷ 2 ∷ 3 ∷ [])

abbrev progress_amount : ℤ → Text
progress_amount (negsuc n) = codes " [....]"
progress_amount (pos n) =
    let percent = min n 100 in
    codes " [" ++ progress_bar percent ++ codes "] " ++ digits 20 percent ++ codes "%"

-- sidebar_ui_build_progress_section
unfoldable pub build_progress_section : ℤ → ℤ → Bool → Label
build_progress_section progress_state progress_percent enabled =
    if not enabled || leb_ℤ progress_state (pos 0) then hidden else record {
      text = strlcpy 64 (progress_mark progress_state ++ progress_amount progress_percent);
      visible = true;
      tooltip = some (progress_tooltip progress_state);
    }

-- sidebar_ui_build_structure_indicator_section
unfoldable pub build_structure_indicator_section : Bool → ℤ → ℤ → Bool → Label
build_structure_indicator_section strip_mode pane_or_column_count tab_count enabled =
    let count = if ltb_ℤ pane_or_column_count (pos 1) then pos 1 else pane_or_column_count in
    let letter = if strip_mode then 67 else 80 in
    let tabs = if ltb_ℤ (pos 0) tab_count then codes " T" ++ int_text tab_count else [] in
    if not enabled || leb_ℤ pane_or_column_count (pos 1) && leb_ℤ tab_count (pos 1)
    then hidden
    else record {
      text = strlcpy 48 (letter ∷ (int_text count ++ tabs));
      visible = true;
      tooltip = some (if strip_mode then codes "Columns / tabs" else codes "Panes / tabs");
    }

abbrev bracketed : Text → Text
bracketed age = if is_empty age then [] else codes " [" ++ age ++ 93 ∷ []

-- The line of an entry in the section of the status.
abbrev pub status_line : ℤ → StatusEntry → Text
status_line now entry =
    let provider = or_text entry.provider (codes "agent") in
    let summary = or_text entry.summary (or_text entry.status entry.kind) in
    let age = format_status_age now entry 16 in
    if not (is_empty entry.status)
      && not (is_empty entry.summary)
      && not (text_eq entry.status entry.summary)
    then strlcpy 512
        (provider ++ 32 ∷ (entry.status ++ codes ": " ++ entry.summary ++ bracketed age))
    else strlcpy 512 (provider ++ codes ": " ++ summary ++ bracketed age)

abbrev more_line : ℕ → ℕ → List Text
more_line all shown =
    if ltb shown all then strlcpy 48 (43 ∷ (digits 20 (all - shown) ++ codes " more")) ∷ [] else []

abbrev shown_lines : ℤ → List StatusEntry → ℕ → List Text
shown_lines now entries max_entries =
    let show_count = min (length entries) max_entries in
    map (status_line now) (take show_count entries) ++ more_line (length entries) show_count

-- The texts of the labels that sidebar_ui_build_workspace_status_section puts into the box: none, and the
-- box is hidden, or those of the first entries and the number of the others.
unfoldable pub build_workspace_status_section : ℤ → List StatusEntry → ℤ → List Text
build_workspace_status_section now entries (negsuc n) = []
build_workspace_status_section now entries (pos n) =
    if n == 0 || length entries == 0 then [] else shown_lines now entries n
