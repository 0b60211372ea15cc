-- ===== src/Wire/Lines.antt =====
-- The last lines of a text (prettymux_trim_last_lines).
use prettymux.Prelude.{
  ℕ, zero, suc, ◌+◌, ◌-◌, ◌≤◌, ◌<◌, ◌≡◌, refl, sym, ap, ◌∙◌, true, false, ◌&&◌, [], ◌∷◌, ◌++◌,
  arith, ◌==◌, if◌then◌else◌, length, get_elem?, get_elem?_lt, lt_of_get_elem?, take, drop, ltb,
  Bool-cases, Option-cases, inl, inr, ◌⊎◌, subst,
}
use prettymux.Prelude.Int.{pos}
use prettymux.Prelude.Slices.{drop-get_elem?, drop-past, get_elem?-length}
use prettymux.Prelude.Text.{Text}
use prettymux.Wire.{is_break, trim_cursor, trim_last_lines}
use prettymux.Wire.Write.{take-drop}

-- How many line feeds of a text are not its last byte: one less than it has lines.
abbrev pub breaks : Text → ℕ
breaks [] = 0
breaks (c ∷ t) = (if c == 10 && ltb 0 (length t) then 1 else 0) + breaks t

length-drop : (n : ℕ) (t : Text) → length (drop n t) ≡ length t - n
length-drop zero t = omega arith
length-drop (suc n) [] = omega arith
length-drop (suc n) (c ∷ t) = omega (arith, length-drop n t)

breaks-drop :
    (text : Text) (i : ℕ)
    → i < length text
    → breaks (drop i text) ≡ (if is_break text i then 1 else 0) + breaks (drop (suc i) text)
breaks-drop text i h =
    let (c, found) = get_elem?_lt text i h in
    let rest : drop i text ≡ c ∷ drop (suc i) text = drop-get_elem? text i c found in
    let len : length (drop (suc i) text) ≡ length text - suc i = length-drop (suc i) text in
    let first : breaks (drop i text)
        ≡ (if c == 10 && ltb 0 (length (drop (suc i) text)) then 1 else 0)
          + breaks (drop (suc i) text) =
      ap breaks rest in
    ground arith

-- What the loop comes to: the breaks behind the cursor make up for the lines that are used, and it stops
-- at the start of the text or at a break.
abbrev Stops : Text → ℕ → ℕ → ℕ × ℕ → Type 0
Stops text i lines r =
    (breaks (drop r.0 text) + r.1 ≡ breaks (drop i text) + lines)
    × ((r.0 ≡ 0) ⊎ (r.1 ≡ 0))
    × (r.1 ≡ 0 → is_break text r.0 ≡ true)

-- One round of the loop at a byte that is no break.
Stops-suc :
    (text : Text) (i lines : ℕ) (r : ℕ × ℕ)
    → i < length text
    → is_break text i ≡ false
    → Stops text i lines r
    → Stops text (suc i) lines r
Stops-suc text i lines r h plain (sum, ends, at) =
    let step : breaks (drop i text)
        ≡ (if is_break text i then 1 else 0) + breaks (drop (suc i) text) =
      breaks-drop text i h in
    (ground arith, ends, at)

Stops-break :
    (text : Text) (i lines : ℕ) (r : ℕ × ℕ)
    → i < length text
    → is_break text i ≡ true
    → Stops text i lines r
    → Stops text (suc i) (suc lines) r
Stops-break text i lines r h break (sum, ends, at) =
    let step : breaks (drop i text)
        ≡ (if is_break text i then 1 else 0) + breaks (drop (suc i) text) =
      breaks-drop text i h in
    (ground arith, ends, at)

trim_cursor-zero : (text : Text) (i : ℕ) → trim_cursor text i 0 ≡ (i, 0)
trim_cursor-zero text zero = refl
trim_cursor-zero text (suc i) = refl

trim_cursor-Stops :
    (text : Text) (i lines : ℕ)
    → i ≤ length text
    → Stops text i (suc lines) (trim_cursor text i (suc lines))
trim_cursor-Stops text zero lines h = (refl, inl refl, (λ e. absurd (omega arith)))
trim_cursor-Stops text (suc i) zero h = elim (Bool-cases (is_break text i)) [
  | inl break ↦
      let eq : trim_cursor text (suc i) 1 ≡ (i, 0) =
        ap (trim_cursor text i) (rw break refl) ∙ trim_cursor-zero text i in
      subst (Stops text (suc i) 1) (sym eq)
        (Stops-break text i 0 (i, 0) h break (refl, inr refl, (λ e. break)))
  | inr plain ↦
      let eq : trim_cursor text (suc i) 1 ≡ trim_cursor text i 1 =
        ap (trim_cursor text i) (rw plain refl) in
      subst (Stops text (suc i) 1) (sym eq) (
        Stops-suc text i 1 (trim_cursor text i 1) h plain
          (trim_cursor-Stops text i 0 (omega arith)))
]
trim_cursor-Stops text (suc i) (suc lines) h = elim (Bool-cases (is_break text i)) [
  | inl break ↦
      let eq : trim_cursor text (suc i) (suc (suc lines)) ≡ trim_cursor text i (suc lines) =
        ap (trim_cursor text i) (rw break refl) in
      subst (Stops text (suc i) (suc (suc lines))) (sym eq) (
        Stops-break text i (suc lines) (trim_cursor text i (suc lines)) h break
          (trim_cursor-Stops text i lines (omega arith)))
  | inr plain ↦
      let eq : trim_cursor text (suc i) (suc (suc lines)) ≡ trim_cursor text i (suc (suc lines)) =
        ap (trim_cursor text i) (rw plain refl) in
      subst (Stops text (suc i) (suc (suc lines))) (sym eq) (
        Stops-suc text i (suc (suc lines)) (trim_cursor text i (suc (suc lines))) h plain
          (trim_cursor-Stops text i (suc lines) (omega arith)))
]

-- The last lines of a text.
abbrev pub IsTail : Text → ℕ → Text → Type 0
IsTail text lines out =
    ((front : Text) × (front ++ out ≡ text))
    × ((breaks out + 1 ≡ lines)
        ⊎ ((out ≡ text)
            × ((breaks text < lines) ⊎ ((breaks text ≡ lines) × (is_break text 0 ≡ true)))))

break_lt : (text : Text) (i : ℕ) → is_break text i ≡ true → i < length text
break_lt text i h = elim (Option-cases (get_elem? text i)) [
  | inl out ↦ absurd (ground arith)
  | inr (c, found) ↦ lt_of_get_elem? text i found
]

breaks-past : (text : Text) → breaks (drop (length text) text) ≡ 0
breaks-past text = ap breaks (drop-past text (length text) (get_elem?-length text))

trimmed-IsTail :
    (text : Text) (lines cursor : ℕ)
    → breaks (drop cursor text) ≡ lines
    → is_break text cursor ≡ true
    → IsTail text lines (drop (cursor + 1) text)
trimmed-IsTail text lines cursor sum break =
    let step : breaks (drop cursor text)
        ≡ (if is_break text cursor then 1 else 0) + breaks (drop (suc cursor) text) =
      breaks-drop text cursor (break_lt text cursor break) in
    let next : breaks (drop (cursor + 1) text) ≡ breaks (drop (suc cursor) text) =
      ap (λ k. breaks (drop k text)) {x = cursor + 1} {y = suc cursor} (omega arith) in
    ((take (cursor + 1) text, take-drop (cursor + 1) text), inl (ground arith))

whole-IsTail :
    (text : Text) (lines cursor left : ℕ)
    → cursor ≡ 0
    → breaks (drop cursor text) + left ≡ lines
    → (left ≡ 0 → is_break text cursor ≡ true)
    → IsTail text lines text
whole-IsTail text lines cursor left start sum at =
    let all : breaks (drop cursor text) ≡ breaks text = ap (λ k. breaks (drop k text)) start in
    (
      ([], refl),
      inr (
        refl,
        elim (Bool-cases (left == 0)) [
          | inl none_left ↦ inr (ground arith, sym (ap (is_break text) start) ∙ at (ground arith))
          | inr some_left ↦ inl (ground arith)
        ],
      ),
    )

-- What is done with the cursor.
cut-IsTail :
    (text : Text) (lines cursor left : ℕ)
    → Stops text (length text) lines (cursor, left)
    → IsTail text lines (if left == 0 && ltb 0 cursor then drop (cursor + 1) text else text)
cut-IsTail text lines cursor left (sum, ends, at) =
    let total : breaks (drop cursor text) + left ≡ lines = omega (arith, breaks-past text) in
    elim (Bool-cases (left == 0 && ltb 0 cursor)) [
      | inl tail ↦
          let none_left : left ≡ 0 = ground arith in
          rw tail (trimmed-IsTail text lines cursor (omega arith) (at none_left))
      | inr whole ↦
          let start : cursor ≡ 0 = ground arith in
          rw whole (whole-IsTail text lines cursor left start total at)
    ]

-- For a number of lines that is not 0, what is left is an end of the text. It has as many lines, or it is
-- the whole text, which then has no more lines than that, or one more when it starts with a line feed.
pub trim_last_lines-IsTail :
    (text : Text) (n : ℕ) → IsTail text (suc n) (trim_last_lines text (pos (suc n)))
unfolding trim_last_lines
trim_last_lines-IsTail text n =
    cut-IsTail text (suc n) (trim_cursor text (length text) (suc n)).0
      (trim_cursor text (length text) (suc n)).1
      (trim_cursor-Stops text (length text) n (omega arith))
