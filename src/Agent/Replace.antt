-- ===== src/Agent/Replace.antt =====
-- What is left of a text after a token was replaced (replace_token).
use prettymux.Prelude.{
  ℕ, zero, suc, ◌≤◌, ◌≡◌, ◌≢◌, refl, sym, ap, ◌∙◌, true, false, Option, none, some, List, [], ◌∷◌,
  ◌++◌, arith, All, Bool-cases, inl, inr, length, drop, length-append,
}
use prettymux.Prelude.Text.{Text, is_empty, has_prefix, has_prefix-append}
use prettymux.Agent.Texts.{cut_at, replace_loop, replace_token}

-- The pieces with the separator between two of them.
abbrev pub joined : Text → Text → List Text → Text
joined separator first [] = first
joined separator first (piece ∷ rest) = first ++ (separator ++ joined separator piece rest)

-- The token does not occur in the piece.
abbrev pub Free : Text → Text → Type 0
Free token piece = (before after : Text) → piece ≢ before ++ (token ++ after)

-- The search finds a token that is not empty and occurs.
cut_at-finds :
    (token before after : Text)
    → is_empty token ≡ false
    → cut_at token (before ++ (token ++ after)) ≢ none
cut_at-finds [] before after h e = cc
cut_at-finds (p ∷ token) [] after h e =
    absurd (ground (arith, has_prefix-append (p ∷ token) after, e))
cut_at-finds (p ∷ token) (c ∷ before) after h e =
    cut_at-finds (p ∷ token) before after h (ground (arith, e))

cut_at-Free : (token t : Text) → is_empty token ≡ false → cut_at token t ≡ none → Free token t
cut_at-Free token t h e before after same =
    cut_at-finds token before after h (ap (cut_at token) (sym same) ∙ e)

has_prefix-longer :
    (s u prefix : Text) → has_prefix s prefix ≡ true → has_prefix (s ++ u) prefix ≡ true
has_prefix-longer s u [] h = refl
has_prefix-longer [] u (p ∷ prefix) h = cc
has_prefix-longer (c ∷ s) u (p ∷ prefix) h = ground (arith, has_prefix-longer s u prefix)

prefix-drop : (t prefix : Text) → has_prefix t prefix ≡ true → t ≡ prefix ++ drop (length prefix) t
prefix-drop t [] h = refl
prefix-drop [] (p ∷ prefix) h = cc
prefix-drop (c ∷ t) (p ∷ prefix) h = ground (arith, prefix-drop t prefix)

-- Where a text is cut: in front of the first token.
abbrev pub Cut : Text → Text → Option (Text × Text) → Type 0
Cut token t none = Unit
Cut token t (some (before, after)) = (t ≡ before ++ (token ++ after)) × (cut_at token before ≡ none)

Cut-cons :
    (token : Text) (c : ℕ) (t : Text) (o : Option (Text × Text))
    → has_prefix (c ∷ t) token ≡ false
    → Cut token t o
    → Cut token (c ∷ t) (elim o [ none ↦ none | some (before, after) ↦ some (c ∷ before, after) ])
Cut-cons token c t none h cut = tt
Cut-cons token c t (some (before, after)) h (e, free) = (
  ap (λ l. c ∷ l) e,
  elim (Bool-cases (has_prefix (c ∷ before) token)) [
    | inl bad ↦
        let longer : has_prefix (c ∷ (before ++ (token ++ after))) token ≡ true =
          has_prefix-longer (c ∷ before) (token ++ after) token bad in
        absurd (ground (arith, longer, ap (λ l. has_prefix (c ∷ l) token) e))
    | inr ok ↦ rw (ok, free) refl
  ],
)

cut_at-Cut : (token t : Text) → Cut token t (cut_at token t)
cut_at-Cut token [] = tt
cut_at-Cut token (c ∷ t) = elim (Bool-cases (has_prefix (c ∷ t) token)) [
  | inl here ↦ rw here (prefix-drop (c ∷ t) token here, refl)
  | inr later ↦ rw later (Cut-cons token c t (cut_at token t) later (cut_at-Cut token t))
]

-- The text falls into pieces without the token, and the result has them in their order.
abbrev pub Replaced : Text → Text → Text → Text → Type 0
Replaced token value input result =
    (first : Text) × (rest : List Text) × (joined token first rest ≡ input)
    × (joined value first rest ≡ result)
    × Free token first
    × All (Free token) rest

filled : (t : Text) → is_empty t ≡ false → 1 ≤ length t
filled [] h = cc
filled (c ∷ t) h = omega arith

shorter :
    (token t before after : Text)
    → is_empty token ≡ false
    → t ≡ before ++ (token ++ after)
    → suc (length after) ≤ length t
shorter token t before after h e =
    let all = ap length e in
    ground
      (arith, all, length-append before (token ++ after), length-append token after, filled token h)

step-Replaced :
    (fuel : ℕ) (token value t : Text) (o : Option (Text × Text))
    → cut_at token t ≡ o
    → Cut token t o
    → is_empty token ≡ false
    → length t ≤ suc fuel
    → ((after : Text)
        → length after ≤ fuel
        → Replaced token value after (replace_loop fuel token value after))
    → Replaced token value t (elim o [
      | none ↦ t
      | some (before, after) ↦ before ++ (value ++ replace_loop fuel token value after)
    ])
step-Replaced fuel token value t none e cut h small go =
    (t, [], refl, refl, cut_at-Free token t h e, tt)
step-Replaced fuel token value t (some (before, after)) e (split, free) h small go =
    let short = shorter token t before after h split in
    let (first, rest, whole, result, free', all) = go after (omega (arith, short, small)) in
    (
      before,
      first ∷ rest,
      ap (λ l. before ++ (token ++ l)) whole ∙ sym split,
      ap (λ l. before ++ (value ++ l)) result,
      cut_at-Free token before h free,
      (free', all),
    )

loop-Replaced :
    (fuel : ℕ) (token value t : Text)
    → is_empty token ≡ false
    → length t ≤ fuel
    → Replaced token value t (replace_loop fuel token value t)
loop-Replaced zero token value [] h small = ([], [], refl, refl, cut_at-Free token [] h refl, tt)
loop-Replaced zero token value (c ∷ t) h small = absurd (omega (arith, small))
loop-Replaced (suc fuel) token value [] h small =
    ([], [], refl, refl, cut_at-Free token [] h refl, tt)
loop-Replaced (suc fuel) token value (c ∷ t) h small =
    step-Replaced fuel token value (c ∷ t) (cut_at token (c ∷ t)) refl (cut_at-Cut token (c ∷ t)) h
      small (λ after. loop-Replaced fuel token value after h)

-- For a token that is not empty, the text falls into pieces in which the token does not occur, with the
-- token between two of them, and the result is the pieces in their order with the value between two.
pub replace_token-Replaced :
    (input token value : Text)
    → is_empty token ≡ false
    → Replaced token value input (replace_token (some input) (some token) (some value))
unfolding replace_token
replace_token-Replaced input token value h =
    rw h (loop-Replaced (length input) token value input h (omega arith))
