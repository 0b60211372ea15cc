-- ===== src/Wire/Escape.antt =====
-- An escaped text is a JSON string of the text (json_escape).
use prettymux.Prelude.{
  ℕ, ◌-◌, ◌&&◌, leb, refl, Option, none, some, if◌then◌else◌, ◌+◌, ◌*◌, ◌/◌, ◌%◌, ◌≤◌, ◌<◌, ◌≡◌,
  true, false, [], ◌∷◌, ◌++◌, arith, ◌==◌, ltb, Bool-cases, inl, inr, subst,
}
use prettymux.Prelude.Text.{Text}
use prettymux.Wire.{escape_byte, hex_digit, json_escape}

-- The value of a hexadecimal digit, 0 to 9, A to F or a to f (RFC 8259, with the digits of RFC 5234).
abbrev pub hex_value : ℕ → Option ℕ
hex_value c =
    if leb 48 c && leb c 57
    then some (c - 48)
    else if leb 65 c && leb c 70
    then some (c - 65 + 10)
    else if leb 97 c && leb c 102
    then some (c - 97 + 10)
    else none

-- The body of a JSON string, and the bytes that it stands for: the grammar of RFC 8259, where the four
-- digits of `\u` are those of an ASCII character, which is one byte.
pub data Decodes : Text → Text → Type 0 where
  done : Decodes [] []
  plain :
      (c : ℕ) (t s : Text)
      → 32 ≤ c
      → (c == 34) ≡ false
      → (c == 92) ≡ false
      → Decodes t s
      → Decodes (c ∷ t) (c ∷ s)
  quotation : (t s : Text) → Decodes t s → Decodes (92 ∷ 34 ∷ t) (34 ∷ s)
  backslash : (t s : Text) → Decodes t s → Decodes (92 ∷ 92 ∷ t) (92 ∷ s)
  line_feed : (t s : Text) → Decodes t s → Decodes (92 ∷ 110 ∷ t) (10 ∷ s)
  carriage_return : (t s : Text) → Decodes t s → Decodes (92 ∷ 114 ∷ t) (13 ∷ s)
  tab : (t s : Text) → Decodes t s → Decodes (92 ∷ 116 ∷ t) (9 ∷ s)
  slash : (t s : Text) → Decodes t s → Decodes (92 ∷ 47 ∷ t) (47 ∷ s)
  backspace : (t s : Text) → Decodes t s → Decodes (92 ∷ 98 ∷ t) (8 ∷ s)
  form_feed : (t s : Text) → Decodes t s → Decodes (92 ∷ 102 ∷ t) (12 ∷ s)
  code_point :
      (w x y z a b c d : ℕ) (t s : Text)
      → hex_value w ≡ some a
      → hex_value x ≡ some b
      → hex_value y ≡ some c
      → hex_value z ≡ some d
      → ((a * 16 + b) * 16 + c) * 16 + d < 128
      → Decodes t s
      → Decodes (92 ∷ 117 ∷ w ∷ x ∷ y ∷ z ∷ t) ((((a * 16 + b) * 16 + c) * 16 + d) ∷ s)

hex_value-hex_digit : (n : ℕ) → n < 16 → hex_value (hex_digit n) ≡ some n
hex_value-hex_digit n h = ground arith

-- A byte that is a known one.
at_byte :
    (t s : Text) (n c : ℕ)
    → n ≡ c
    → Decodes (escape_byte n ++ t) (n ∷ s)
    → Decodes (escape_byte c ++ t) (c ∷ s)
at_byte t s n c e h = subst (λ x. Decodes (escape_byte x ++ t) (x ∷ s)) e h

control-Decodes :
    (c : ℕ) (t s : Text)
    → ltb c 32 ≡ true
    → (c == 10) ≡ false
    → (c == 13) ≡ false
    → (c == 9) ≡ false
    → Decodes t s
    → Decodes (escape_byte c ++ t) (c ∷ s)
control-Decodes c t s low no_line no_return no_tab h =
    let escaped : 92 ∷ 117 ∷ 48 ∷ 48 ∷ hex_digit (c / 16) ∷ hex_digit (c % 16) ∷ []
        ≡ escape_byte c =
      ground arith in
    let value : ((0 * 16 + 0) * 16 + c / 16) * 16 + c % 16 ≡ c = omega arith in
    let ascii : ((0 * 16 + 0) * 16 + c / 16) * 16 + c % 16 < 128 = ground (arith, value) in
    let high : c / 16 < 16 = ground arith in
    let digits : c % 16 < 16 = omega arith in
    let decoded : Decodes (92 ∷ 117 ∷ 48 ∷ 48 ∷ hex_digit (c / 16) ∷ hex_digit (c % 16) ∷ t)
        ((((0 * 16 + 0) * 16 + c / 16) * 16 + c % 16) ∷ s) =
      code_point 48 48 (hex_digit (c / 16)) (hex_digit (c % 16)) 0 0 (c / 16) (c % 16) t s refl refl
        (hex_value-hex_digit (c / 16) high) (hex_value-hex_digit (c % 16) digits) ascii h in
    subst (λ l. Decodes (l ++ t) (c ∷ s)) escaped
      (subst
        (λ v. Decodes (92 ∷ 117 ∷ 48 ∷ 48 ∷ hex_digit (c / 16) ∷ hex_digit (c % 16) ∷ t) (v ∷ s))
        value decoded)

plain-Decodes :
    (c : ℕ) (t s : Text)
    → ltb c 32 ≡ false
    → (c == 34) ≡ false
    → (c == 92) ≡ false
    → Decodes t s
    → Decodes (escape_byte c ++ t) (c ∷ s)
plain-Decodes c t s high no_quotation no_backslash h =
    let escaped : c ∷ [] ≡ escape_byte c = ground arith in
    subst (λ l. Decodes (l ++ t) (c ∷ s)) escaped
      (plain c t s (ground arith) no_quotation no_backslash h)

byte-Decodes : (c : ℕ) (t s : Text) → Decodes t s → Decodes (escape_byte c ++ t) (c ∷ s)
byte-Decodes c t s h = elim (Bool-cases (c == 34)) [
  | inl is_quotation ↦ at_byte t s 34 c (ground arith) (quotation t s h)
  | inr not_quotation ↦ elim (Bool-cases (c == 92)) [
    | inl is_backslash ↦ at_byte t s 92 c (ground arith) (backslash t s h)
    | inr not_backslash ↦ elim (Bool-cases (c == 10)) [
      | inl is_line_feed ↦ at_byte t s 10 c (ground arith) (line_feed t s h)
      | inr not_line_feed ↦ elim (Bool-cases (c == 13)) [
        | inl is_carriage_return ↦ at_byte t s 13 c (ground arith) (carriage_return t s h)
        | inr not_carriage_return ↦ elim (Bool-cases (c == 9)) [
          | inl is_tab ↦ at_byte t s 9 c (ground arith) (tab t s h)
          | inr not_tab ↦ elim (Bool-cases (ltb c 32)) [
            | inl control ↦
                control-Decodes c t s control not_line_feed not_carriage_return not_tab h
            | inr printable ↦ plain-Decodes c t s printable not_quotation not_backslash h
          ]
        ]
      ]
    ]
  ]
]

-- The escaped text is the body of a JSON string that stands for the text.
pub json_escape-Decodes : (s : Text) → Decodes (json_escape s) s
unfolding json_escape
json_escape-Decodes [] = done
json_escape-Decodes (c ∷ s) = byte-Decodes c (json_escape s) s (json_escape-Decodes s)
