-- ===== src/Instance/Valid.antt =====
-- Every name that an instance gets is a valid one (assign_instance_id).
use prettymux.Prelude.{
  ℕ, zero, suc, ◌≤◌, ◌≡◌, refl, sym, ap, ◌∙◌, true, false, Option, none, some, [], ◌∷◌, ◌++◌, arith,
  if◌then◌else◌, length, take, Bool-cases, inl, inr, subst,
}
use prettymux.Prelude.Text.{strlcpy, Text, is_empty}
use prettymux.Instance.{
  AppState, char_allowed, all_allowed, is_valid, keep_allowed, sanitize, assign_instance_id,
  default_instance_id,
}

pub take-all : (n : ℕ) (t : Text) → length t ≤ n → take n t ≡ t
take-all zero [] h = refl
take-all zero (c ∷ t) h = absurd (omega arith)
take-all (suc n) [] h = refl
take-all (suc n) (c ∷ t) h = ap (λ l. c ∷ l) (take-all n t (omega arith))

pub length-take : (n : ℕ) (t : Text) → length (take n t) ≤ n
length-take zero t = omega arith
length-take (suc n) [] = omega arith
length-take (suc n) (c ∷ t) = omega (arith, length-take n t)

pub all_allowed-take : (n : ℕ) (t : Text) → all_allowed t ≡ true → all_allowed (take n t) ≡ true
all_allowed-take zero t h = refl
all_allowed-take (suc n) [] h = refl
all_allowed-take (suc n) (c ∷ t) h = ground (arith, all_allowed-take n t (ground arith))

pub all_allowed-append :
    (s t : Text) → all_allowed s ≡ true → all_allowed t ≡ true → all_allowed (s ++ t) ≡ true
all_allowed-append [] t h k = k
all_allowed-append (c ∷ s) t h k = ground (arith, all_allowed-append s t (ground arith) k)

-- One step of the loop.
module _ (room c : ℕ) (t : Text) where
  keep-allowed : char_allowed c ≡ true → keep_allowed (suc room) (c ∷ t) ≡ c ∷ keep_allowed room t
  unfolding keep_allowed
  keep-allowed h = ground arith

  keep-other : char_allowed c ≡ false → keep_allowed (suc room) (c ∷ t) ≡ keep_allowed (suc room) t
  unfolding keep_allowed
  keep-other h = ground arith

keep-zero : (t : Text) → keep_allowed 0 t ≡ []
unfolding keep_allowed
keep-zero t = refl

keep-empty : (room : ℕ) → keep_allowed (suc room) [] ≡ []
unfolding keep_allowed
keep-empty room = refl

-- The text that is left holds allowed bytes only, and fits.
abbrev pub IsName : ℕ → Text → Type 0
IsName room t = (all_allowed t ≡ true) × (length t ≤ room)

pub keep_allowed-IsName : (room : ℕ) (t : Text) → IsName room (keep_allowed room t)
keep_allowed-IsName zero t = subst (IsName 0) (sym (keep-zero t)) (refl, omega arith)
keep_allowed-IsName (suc room) [] =
    subst (IsName (suc room)) (sym (keep-empty room)) (refl, omega arith)
keep_allowed-IsName (suc room) (c ∷ t) = elim (Bool-cases (char_allowed c)) [
  | inl allowed ↦
      let (names, fits) = keep_allowed-IsName room t in
      subst (IsName (suc room)) (sym (keep-allowed room c t allowed)) (ground arith, omega arith)
  | inr other ↦
      subst (IsName (suc room)) (sym (keep-other room c t other)) (keep_allowed-IsName (suc room) t)
]

-- A name of allowed bytes that fits stays as it is.
pub keep_allowed-same :
    (room : ℕ) (t : Text) → all_allowed t ≡ true → length t ≤ room → keep_allowed room t ≡ t
keep_allowed-same zero [] h k = keep-zero []
keep_allowed-same zero (c ∷ t) h k = absurd (omega arith)
keep_allowed-same (suc room) [] h k = keep-empty room
keep_allowed-same (suc room) (c ∷ t) h k =
    keep-allowed room c t (ground arith)
    ∙ ap (λ l. c ∷ l) (keep_allowed-same room t (ground arith) (omega arith))

pub sanitize-IsName : (input : Option Text) → IsName 63 (sanitize input 64)
unfolding sanitize
sanitize-IsName none = (refl, omega arith)
sanitize-IsName (some input) = keep_allowed-IsName 63 input

-- The name that is assigned for a text without bytes that are not allowed.
abbrev named : Text → Text
named base_id = strlcpy 64 (if is_empty base_id then strlcpy 64 default_instance_id else base_id)

abbrev IsFit : Text → Type 0
IsFit id = (is_valid id ≡ true) × (length id ≤ 63)

is_valid-cons : (c : ℕ) (t : Text) → all_allowed (c ∷ t) ≡ true → is_valid (c ∷ t) ≡ true
unfolding is_valid
is_valid-cons c t h = h

pub is_valid-default : is_valid default_instance_id ≡ true
unfolding is_valid char_allowed
is_valid-default = refl

named-IsFit : (base_id : Text) → IsName 63 base_id → IsFit (named base_id)
named-IsFit [] h = (is_valid-default, omega arith)
named-IsFit (c ∷ t) h = subst IsFit (sym (take-all 63 (c ∷ t) h.1)) (is_valid-cons c t h.0, h.1)

instance_id-assign :
    (state : AppState) (preferred_id : Option Text)
    → (assign_instance_id state preferred_id).instance_id ≡ named (sanitize preferred_id 64)
unfolding assign_instance_id
instance_id-assign state preferred_id = refl

-- Whatever text is preferred, or none, the name that an instance gets is not empty, holds letters, digits, dashes, underscores
-- and dots only and fits its buffer.
pub assign_instance_id-is_valid :
    (state : AppState) (preferred_id : Option Text)
    → (is_valid (assign_instance_id state preferred_id).instance_id ≡ true)
      × (length (assign_instance_id state preferred_id).instance_id ≤ 63)
assign_instance_id-is_valid state preferred_id =
    subst IsFit (sym (instance_id-assign state preferred_id))
      (named-IsFit (sanitize preferred_id 64) (sanitize-IsName preferred_id))

pub is_valid-parts :
    (id : Text) → is_valid id ≡ true → (is_empty id ≡ false) × (all_allowed id ≡ true)
unfolding is_valid
is_valid-parts id h = (ground arith, ground arith)

-- A valid name that fits is the one that the instance gets.
pub assign_instance_id-same :
    (state : AppState) (id : Text)
    → is_valid id ≡ true
    → length id ≤ 63
    → (assign_instance_id state (some id)).instance_id ≡ id
unfolding sanitize
assign_instance_id-same state id valid fits =
    let (filled, allowed) = is_valid-parts id valid in
    let same : keep_allowed 63 id ≡ id = keep_allowed-same 63 id allowed fits in
    let taken : take 63 id ≡ id = take-all 63 id fits in
    instance_id-assign state (some id) ∙ ap named same ∙ rw filled taken
