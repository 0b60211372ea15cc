-- ===== src/Instance/Socket.antt =====
-- The name of an instance and the name of its socket determine each other
-- (parse_instance_id_from_socket_name).
use prettymux.Prelude.{
  ◌↔◌, ℕ, zero, suc, ◌+◌, ◌-◌, ◌≤◌, ◌≡◌, refl, sym, ap, ap₂, ◌∙◌, true, false, some, [], ◌∷◌, ◌++◌,
  arith, length, length-append, take, drop, subst, ltb, leb,
}
use prettymux.Prelude.Text.{
  has_prefix-append, has_prefix, Text, text_eq, text_eq_sound, text_eq_refl, is_empty,
}
use prettymux.Instance.Valid.{is_valid-parts, length-take}
use prettymux.Instance.{is_valid, has_suffix, socket_prefix, socket_suffix, parse_socket_name}

pub drop-length-append : (s t : Text) → drop (length s) (s ++ t) ≡ t
drop-length-append [] t = refl
drop-length-append (c ∷ s) t = drop-length-append s t

pub take-length-append : (s t : Text) → take (length s) (s ++ t) ≡ s
take-length-append [] t = refl
take-length-append (c ∷ s) t = ap (λ l. c ∷ l) (take-length-append s t)

take-drop : (n : ℕ) (t : Text) → take n t ++ drop n t ≡ t
take-drop zero t = refl
take-drop (suc n) [] = refl
take-drop (suc n) (c ∷ t) = ap (λ l. c ∷ l) (take-drop n t)

drop-nil : (n : ℕ) → drop {A = ℕ} n [] ≡ []
drop-nil zero = refl
drop-nil (suc n) = refl

drop-drop : (m n : ℕ) (t : Text) → drop m (drop n t) ≡ drop (n + m) t
drop-drop m zero t = ap (λ k. drop k t) (omega arith)
drop-drop m (suc n) [] =
    drop-nil m ∙ ap (λ k. drop {A = ℕ} k []) {x = suc (n + m)} {y = suc n + m} (omega arith)
drop-drop m (suc n) (c ∷ t) =
    drop-drop m n t ∙ ap (λ k. drop k (c ∷ t)) {x = suc (n + m)} {y = suc n + m} (omega arith)

has_prefix-split :
    (t prefix : Text) → has_prefix t prefix ≡ true → prefix ++ drop (length prefix) t ≡ t
has_prefix-split t [] h = refl
has_prefix-split [] (p ∷ prefix) h = cc
has_prefix-split (c ∷ t) (p ∷ prefix) h =
    let head : p ≡ c = ground arith in
    ap₂ (λ x l. x ∷ l) head (has_prefix-split t prefix (ground arith))

has_suffix-append : (s t : Text) → has_suffix (s ++ t) t ≡ true
has_suffix-append s t =
    let len : length (s ++ t) ≡ length s + length t = length-append s t in
    let at : length (s ++ t) - length t ≡ length s = omega arith in
    let rest : drop (length (s ++ t) - length t) (s ++ t) ≡ t =
      ap (λ n. drop n (s ++ t)) at ∙ drop-length-append s t in
    let same : text_eq (drop (length (s ++ t) - length t) (s ++ t)) t ≡ true =
      ap (λ l. text_eq l t) rest ∙ text_eq_refl t in
    ground arith

-- The name of the socket of an instance.
abbrev pub socket_name : Text → Text
socket_name id = socket_prefix ++ id ++ socket_suffix

-- The bytes between prefix and suffix.
abbrev middle_len : Text → ℕ
middle_len name = length name - 10 - 5

parse-accept :
    (name id : Text) (out_len : ℕ)
    → leb (length name) 15 ≡ false
    → has_prefix name socket_prefix ≡ true
    → has_suffix name socket_suffix ≡ true
    → ltb out_len (middle_len name + 1) ≡ false
    → take (middle_len name) (drop 10 name) ≡ id
    → is_valid id ≡ true
    → parse_socket_name name out_len ≡ some id
unfolding parse_socket_name
parse-accept name id out_len long prefixed suffixed fits same valid = ground arith

length-filled : (t : Text) → is_empty t ≡ false → 1 ≤ length t
length-filled [] h = cc
length-filled (c ∷ t) h = omega arith

-- Parsing the name of the socket of a valid name that fits the buffer gives that name.
parse_socket_name-socket_name :
    (id : Text) (out_len : ℕ)
    → is_valid id ≡ true
    → length id + 1 ≤ out_len
    → parse_socket_name (socket_name id) out_len ≡ some id
parse_socket_name-socket_name id out_len valid fits =
    parse-accept (socket_name id) id out_len (ground (arith, long, filled))
      (has_prefix-append socket_prefix (id ++ socket_suffix))
      (has_suffix-append (socket_prefix ++ id) socket_suffix) (ground (arith, long))
      (ap (λ n. take n (id ++ socket_suffix)) middle ∙ take-length-append id socket_suffix) valid
  where
    filled : 1 ≤ length id
    filled = length-filled id (is_valid-parts id valid).0

    long : length (id ++ socket_suffix) ≡ length id + 5
    long = length-append id socket_suffix

    middle : middle_len (socket_name id) ≡ length id
    middle = omega (arith, long)

parse-conditions :
    (name id : Text) (out_len : ℕ)
    → parse_socket_name name out_len ≡ some id
    → (leb (length name) 15 ≡ false)
      × (has_prefix name socket_prefix ≡ true)
      × (has_suffix name socket_suffix ≡ true)
      × (ltb out_len (middle_len name + 1) ≡ false)
      × (take (middle_len name) (drop 10 name) ≡ id)
      × (is_valid id ≡ true)
unfolding parse_socket_name
parse-conditions name id out_len parsed =
    (ground arith, ground arith, ground arith, ground arith, ground arith, ground arith)

-- What is parsed is valid, fits, and is the name whose socket has the parsed name.
parse_socket_name_sound :
    (name id : Text) (out_len : ℕ)
    → parse_socket_name name out_len ≡ some id
    → (socket_name id ≡ name) × (is_valid id ≡ true) × (length id + 1 ≤ out_len)
parse_socket_name_sound name id out_len parsed =
    let (long, prefixed, suffixed, fits, same, valid) = parse-conditions name id out_len parsed in
    let at : 10 + middle_len name ≡ length name - 5 = ground arith in
    let suffix : drop (length name - 5) name ≡ socket_suffix =
      text_eq_sound (drop (length name - 5) name) socket_suffix (ground arith) in
    let rest : drop (middle_len name) (drop 10 name) ≡ socket_suffix =
      drop-drop (middle_len name) 10 name ∙ ap (λ n. drop n name) at ∙ suffix in
    let middle : id ++ socket_suffix ≡ drop 10 name =
      ap₂ (λ a b. a ++ b) (sym same) (sym rest) ∙ take-drop (middle_len name) (drop 10 name) in
    let short : length id ≤ middle_len name =
      subst (λ t. length t ≤ middle_len name) same (length-take (middle_len name) (drop 10 name)) in
    (
      ap (λ l. socket_prefix ++ l) middle ∙ has_prefix-split name socket_prefix prefixed,
      valid,
      ground arith,
    )

-- Parsing a file's name gives an instance exactly when the instance is valid and fits the buffer, and the
-- file's name is that of its socket.
pub parse_socket_name-socket_name_iff :
    (name id : Text) (out_len : ℕ)
    → (parse_socket_name name out_len ≡ some id)
      ↔ ((socket_name id ≡ name) × (is_valid id ≡ true) × (length id + 1 ≤ out_len))
parse_socket_name-socket_name_iff name id out_len = (
  parse_socket_name_sound name id out_len,
  λ (same, valid, fits).
      subst (λ n. parse_socket_name n out_len ≡ some id) same
        (parse_socket_name-socket_name id out_len valid fits),
)
