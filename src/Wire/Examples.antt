-- ===== src/Wire/Examples.antt =====
-- The theorems on what is written to a socket at concrete texts.
use prettymux.Prelude.{◌≡◌, refl, true, some, List, [], ◌∷◌, arith}
use prettymux.Prelude.Int.{pos}
use prettymux.Prelude.Text.{Text, codes}
use prettymux.Wire.{
  Answer, wrote, interrupted, failed, write_all_bytes, json_escape, trim_last_lines,
}
use prettymux.Wire.Write.{Sent, write_all_bytes-Sent, write_all_bytes_ends}
use prettymux.Wire.Lines.{IsTail, trim_last_lines-IsTail}
use prettymux.Wire.Escape.{Decodes, json_escape-Decodes}

-- Two bytes, an interruption, one byte, an error.
abbrev broken : List Answer
broken = wrote 2 ∷ interrupted ∷ wrote 1 ∷ failed ∷ []

write_all_bytes-Sent_example : Sent [] (codes "hello") (write_all_bytes broken (codes "hello") [])
write_all_bytes-Sent_example = write_all_bytes-Sent broken (codes "hello")

write_all_bytes_ends_example :
    write_all_bytes (wrote 2 ∷ interrupted ∷ wrote 1 ∷ wrote 1 ∷ []) (codes "abc") []
    ≡ some (true, codes "abc")
write_all_bytes_ends_example =
    write_all_bytes_ends (wrote 2 ∷ interrupted ∷ wrote 1 ∷ wrote 1 ∷ []) (codes "abc") tt
      (omega arith)

-- A quotation mark, a line feed and a byte without an escape of its own.
abbrev mixed : Text
mixed = 34 ∷ 97 ∷ 10 ∷ 27 ∷ []

escaped_mixed : json_escape mixed ≡ codes "\\\"a\\n\\u001b"
unfolding json_escape
escaped_mixed = refl

json_escape-Decodes_example : Decodes (json_escape mixed) mixed
json_escape-Decodes_example = json_escape-Decodes mixed

trim_last_lines-IsTail_example :
    IsTail (codes "a\nbc\nd\n") 2 (trim_last_lines (codes "a\nbc\nd\n") (pos 2))
trim_last_lines-IsTail_example = trim_last_lines-IsTail (codes "a\nbc\nd\n") 1

last_two : trim_last_lines (codes "a\nbc\nd\n") (pos 2) ≡ codes "bc\nd\n"
unfolding trim_last_lines
last_two = refl

-- The line feed at the start is not cut off.
last_one : trim_last_lines (codes "\na") (pos 1) ≡ codes "\na"
unfolding trim_last_lines
last_one = refl
