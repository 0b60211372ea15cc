-- ===== src/Wire.antt =====
-- gtk/socket_server.c, gtk/prettymux-open.c and gtk/socket_commands.c: what is written to a socket, and
-- the texts in it.
pub mod Write
pub mod Escape
pub mod Lines
mod Examples
use prettymux.Prelude.{
  ℕ, zero, suc, ◌+◌, ◌-◌, ◌/◌, ◌%◌, Bool, true, false, ◌&&◌, Option, none, some, List, [], ◌∷◌,
  ◌++◌, ◌==◌, if◌then◌else◌, length, get_elem?, take, drop, ltb, leb,
}
use prettymux.Prelude.Int.{ℤ, pos, negsuc}
use prettymux.Prelude.Text.{Text}

-- What a call of `write` answers: the bytes that it took, an error that is EINTR, another one.
pub data Answer : Type 0 where
  wrote : ℕ → Answer
  interrupted : Answer
  failed : Answer

-- write_all_bytes, with the answers to its calls of `write` one after the other and the bytes that the
-- socket took so far; `none` means that it calls once more.
unfoldable pub write_all_bytes : List Answer → Text → Text → Option (Bool × Text)
write_all_bytes answers [] sent = some (true, sent)
write_all_bytes [] (c ∷ t) sent = none
write_all_bytes (interrupted ∷ answers) (c ∷ t) sent = write_all_bytes answers (c ∷ t) sent
write_all_bytes (failed ∷ answers) (c ∷ t) sent = some (false, sent)
write_all_bytes (wrote zero ∷ answers) (c ∷ t) sent = some (false, sent)
write_all_bytes (wrote (suc n) ∷ answers) (c ∷ t) sent =
    write_all_bytes answers (drop n t) (sent ++ c ∷ take n t)

-- A digit of `%x`.
abbrev pub hex_digit : ℕ → ℕ
hex_digit n = if ltb n 10 then 48 + n else 87 + n

-- The `switch` of `json_escape` for one byte.
abbrev pub escape_byte : ℕ → Text
escape_byte c =
    if c == 34
    then 92 ∷ 34 ∷ []
    else if c == 92
    then 92 ∷ 92 ∷ []
    else if c == 10
    then 92 ∷ 110 ∷ []
    else if c == 13
    then 92 ∷ 114 ∷ []
    else if c == 9
    then 92 ∷ 116 ∷ []
    else if ltb c 32
    then 92 ∷ 117 ∷ 48 ∷ 48 ∷ hex_digit (c / 16) ∷ hex_digit (c % 16) ∷ []
    else c ∷ []

-- json_escape, where there is memory for the result
unfoldable pub json_escape : Text → Text
json_escape [] = []
json_escape (c ∷ t) = escape_byte c ++ json_escape t

-- Whether the byte at an index is a line feed that is not the last byte.
abbrev pub is_break : Text → ℕ → Bool
is_break text i = elim (get_elem? text i) [
  | none ↦ false
  | some c ↦ c == 10 && ltb (i + 1) (length text)
]

-- The loop of `prettymux_trim_last_lines`, with the cursor at an index and the lines that are left.
abbrev pub trim_cursor : Text → ℕ → ℕ → ℕ × ℕ
trim_cursor text zero lines = (0, lines)
trim_cursor text (suc i) zero = (suc i, 0)
trim_cursor text (suc i) (suc lines) =
    trim_cursor text i (if is_break text i then lines else suc lines)

-- prettymux_trim_last_lines, of a text that is there
unfoldable pub trim_last_lines : Text → ℤ → Text
trim_last_lines text (negsuc n) = text
trim_last_lines text (pos zero) = text
trim_last_lines text (pos (suc n)) =
    let (cursor, lines) = trim_cursor text (length text) (suc n) in
    if lines == 0 && ltb 0 cursor then drop (cursor + 1) text else text
