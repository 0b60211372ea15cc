-- ===== src/Instance/Slots.antt =====
-- The name of a nested instance is that of no running one while a slot is left
-- (assign_nested_child_instance_id).
use prettymux.Prelude.{
  ℕ, zero, suc, ◌≤◌, ◌≡◌, refl, sym, ap, ◌∙◌, Bool, true, false, not, ◌&&◌, ◌||◌, [], ◌∷◌, ◌++◌,
  arith, if◌then◌else◌, length, Bool-cases, inl, inr, subst, leb,
}
use prettymux.Prelude.Text.{strlcpy, Text, is_empty}
use prettymux.Instance.{}
use prettymux.Instance.Valid.{take-all, length-take}
use prettymux.Instance.Nested.{
  Surroundings, Search, saved, free, build_child_id, digits, has_live_socket, has_saved_session,
  search_slots, choose_slot,
}

live-empty : (env : Surroundings) → has_live_socket env [] ≡ false
unfolding has_live_socket
live-empty env = refl

-- The name that the search ends with, if any.
abbrev pub found_name : Search → Text
found_name (saved candidate) = candidate
found_name (free first_free) = first_free

abbrev pub next_free : Surroundings → Text → Text → Text
next_free env candidate first_free =
    if is_empty candidate || has_live_socket env candidate
    then first_free
    else if is_empty first_free
    then strlcpy 64 candidate
    else first_free

abbrev pub is_taken_over : Surroundings → Text → ℕ → Bool
is_taken_over env base slot =
    not (is_empty (build_child_id 64 base slot))
    && not (has_live_socket env (build_child_id 64 base slot))
    && has_saved_session env (build_child_id 64 base slot)

pub search-suc :
    (env : Surroundings) (base : Text) (rounds slot : ℕ) (first_free : Text)
    → search_slots env base (suc rounds) slot first_free ≡ (
        if is_taken_over env base slot
        then saved (build_child_id 64 base slot)
        else search_slots env base rounds
            (suc slot)
            (next_free env (build_child_id 64 base slot) first_free))
unfolding search_slots
search-suc env base rounds slot first_free = refl

pub search-zero :
    (env : Surroundings) (base : Text) (slot : ℕ) (first_free : Text)
    → search_slots env base 0 slot first_free ≡ free first_free
unfolding search_slots
search-zero env base slot first_free = refl

-- A statement on both sides of a test.
pub if-both :
    {A : Type 0} (P : A → Type 0) (b : Bool) (x y : A)
    → (b ≡ true → P x)
    → (b ≡ false → P y)
    → P (if b then x else y)
if-both P true x y h k = h refl
if-both P false x y h k = k refl

pub child-short : (base : Text) (slot : ℕ) → length (build_child_id 64 base slot) ≤ 63
unfolding build_child_id
child-short base slot =
    if-both (λ t. length t ≤ 63) (is_empty base) []
      (if leb slot 1 then strlcpy 64 base else strlcpy 64 (base ++ 45 ∷ digits 10 slot))
      (λ h. omega arith)
      (λ h.
        if-both (λ t. length t ≤ 63) (leb slot 1) (strlcpy 64 base)
          (strlcpy 64 (base ++ 45 ∷ digits 10 slot)) (λ k. length-take 63 base)
          (λ k. length-take 63 (base ++ 45 ∷ digits 10 slot)))

pub child-filled :
    (base : Text) (slot : ℕ)
    → is_empty base ≡ false
    → is_empty (build_child_id 64 base slot) ≡ false
unfolding build_child_id
child-filled [] slot h = cc
child-filled (c ∷ t) slot h = ground arith

-- The first free name so far is not that of a running instance.
next_free-offline :
    (env : Surroundings) (base : Text) (slot : ℕ) (first_free : Text)
    → has_live_socket env first_free ≡ false
    → has_live_socket env (next_free env (build_child_id 64 base slot) first_free) ≡ false
next_free-offline env base slot first_free h =
    let same : strlcpy 64 (build_child_id 64 base slot) ≡ build_child_id 64 base slot =
      take-all 63 (build_child_id 64 base slot) (child-short base slot) in
    let candidate : Text = build_child_id 64 base slot in
    if-both (λ t. has_live_socket env t ≡ false)
      (is_empty candidate || has_live_socket env candidate) first_free
      (if is_empty first_free then strlcpy 64 candidate else first_free) (λ k. h)
      (λ k.
        if-both (λ t. has_live_socket env t ≡ false) (is_empty first_free) (strlcpy 64 candidate)
          first_free (λ l. ap (has_live_socket env) same ∙ ground arith) (λ l. h))

search-offline :
    (env : Surroundings) (base : Text) (rounds slot : ℕ) (first_free : Text)
    → has_live_socket env first_free ≡ false
    → has_live_socket env (found_name (search_slots env base rounds slot first_free)) ≡ false
search-offline env base zero slot first_free h =
    subst (λ s. has_live_socket env (found_name s) ≡ false)
      (sym (search-zero env base slot first_free)) h
search-offline env base (suc rounds) slot first_free h =
    let candidate : Text = build_child_id 64 base slot in
    subst (λ s. has_live_socket env (found_name s) ≡ false)
      (sym (search-suc env base rounds slot first_free))
      (if-both (λ s. has_live_socket env (found_name s) ≡ false) (is_taken_over env base slot)
        (saved candidate)
        (search_slots env base rounds (suc slot) (next_free env candidate first_free))
        (λ k. ground arith)
        (λ k.
          search-offline env base rounds (suc slot) (next_free env candidate first_free)
            (next_free-offline env base slot first_free h)))

-- Every slot of a range belongs to a running instance.
abbrev pub AllLive : Surroundings → Text → ℕ → ℕ → Type 0
AllLive env base zero slot = Unit
AllLive env base (suc rounds) slot =
    (has_live_socket env (build_child_id 64 base slot) ≡ true) × AllLive env base rounds (suc slot)

next_free-empty :
    (env : Surroundings) (candidate first_free : Text)
    → is_empty candidate ≡ false
    → strlcpy 64 candidate ≡ candidate
    → is_empty (next_free env candidate first_free) ≡ true
    → (has_live_socket env candidate ≡ true) × (is_empty first_free ≡ true)
next_free-empty env candidate first_free filled same h =
    elim (Bool-cases (has_live_socket env candidate)) [
      | inl live ↦ (live, ground arith)
      | inr offline ↦ elim (Bool-cases (is_empty first_free)) [
        | inl none_yet ↦
            let next : next_free env candidate first_free ≡ candidate =
              rw (filled, offline, none_yet) same in
            absurd (absurd_empty (sym filled ∙ sym (ap is_empty next) ∙ h))
        | inr some_yet ↦
            let next : next_free env candidate first_free ≡ first_free =
              rw (filled, offline, some_yet) refl in
            absurd (absurd_empty (sym some_yet ∙ sym (ap is_empty next) ∙ h))
      ]
    ]
  where
    absurd_empty : false ≡ true → ⊥
    absurd_empty e = cc

search-exhausted :
    (env : Surroundings) (base : Text) (rounds slot : ℕ) (first_free : Text)
    → is_empty base ≡ false
    → is_empty (found_name (search_slots env base rounds slot first_free)) ≡ true
    → AllLive env base rounds slot × (is_empty first_free ≡ true)
search-exhausted env base zero slot first_free filled h =
    (tt, subst (λ s. is_empty (found_name s) ≡ true) (search-zero env base slot first_free) h)
search-exhausted env base (suc rounds) slot first_free filled h =
    elim (Bool-cases (is_taken_over env base slot)) [
      | inl over ↦
          let eq : search_slots env base (suc rounds) slot first_free
              ≡ saved (build_child_id 64 base slot) =
            search-suc env base rounds slot first_free ∙ rw over refl in
          let empty : is_empty (build_child_id 64 base slot) ≡ true =
            sym (ap (λ s. is_empty (found_name s)) eq) ∙ h in
          let full : is_empty (build_child_id 64 base slot) ≡ false =
            child-filled base slot filled in
          absurd (ground arith)
      | inr other ↦
          let next : Text = next_free env (build_child_id 64 base slot) first_free in
          let eq : search_slots env base (suc rounds) slot first_free
              ≡ search_slots env base rounds (suc slot) next =
            search-suc env base rounds slot first_free ∙ rw other refl in
          let (live, empty) =
            search-exhausted env base rounds (suc slot) next filled
              (sym (ap (λ s. is_empty (found_name s)) eq) ∙ h) in
          let (here, start) =
            next_free-empty env (build_child_id 64 base slot) first_free
              (child-filled base slot filled)
              (take-all 63 (build_child_id 64 base slot) (child-short base slot)) empty in
          ((here, live), start)
    ]

-- What is chosen after the search.
abbrev pub chosen : Surroundings → Text → Search → Text
chosen env base (saved candidate) = candidate
chosen env base (free first_free) =
    if not (has_live_socket env base) && not (has_saved_session env base)
    then base
    else if not (is_empty first_free)
    then first_free
    else base

chosen-live :
    (env : Surroundings) (base : Text) (s : Search)
    → has_live_socket env base ≡ true
    → has_live_socket env (found_name s) ≡ false
    → has_live_socket env (chosen env base s) ≡ true
    → is_empty (found_name s) ≡ true
chosen-live env base (saved candidate) h k l = ground arith
chosen-live env base (free first_free) h k l = elim (Bool-cases (is_empty first_free)) [
  | inl empty ↦ empty
  | inr filled ↦
      let same : chosen env base (free first_free) ≡ first_free = rw (h, filled) refl in
      absurd (offline_live (sym k ∙ sym (ap (has_live_socket env) same) ∙ l))
]
  where
    offline_live : false ≡ true → ⊥
    offline_live e = cc

chosen-offline :
    (env : Surroundings) (base : Text) (s : Search)
    → has_live_socket env base ≡ false
    → has_live_socket env (found_name s) ≡ false
    → has_live_socket env (chosen env base s) ≡ false
chosen-offline env base (saved candidate) h k = k
chosen-offline env base (free first_free) h k =
    if-both (λ t. has_live_socket env t ≡ false)
      (not (has_live_socket env base) && not (has_saved_session env base)) base
      (if not (is_empty first_free) then first_free else base) (λ l. h)
      (λ l.
        if-both (λ t. has_live_socket env t ≡ false) (not (is_empty first_free)) first_free base
          (λ m. k) (λ m. h))

pub choose-eq :
    (env : Surroundings) (base : Text) (rounds : ℕ)
    → choose_slot env base rounds ≡ (
        if not (has_live_socket env base) && has_saved_session env base
        then base
        else chosen env base (search_slots env base rounds 2 []))
unfolding choose_slot
choose-eq env base rounds = ground arith

-- When the name that is chosen for a nested instance is that of a running one, then the name without a
-- slot and those of all slots are names of running instances, however many slots there are.
pub choose_slot-AllLive :
    (env : Surroundings) (base : Text) (rounds : ℕ)
    → is_empty base ≡ false
    → has_live_socket env (choose_slot env base rounds) ≡ true
    → (has_live_socket env base ≡ true) × AllLive env base rounds 2
choose_slot-AllLive env base rounds filled h = elim (Bool-cases (has_live_socket env base)) [
  | inl live ↦
      let eq : choose_slot env base rounds ≡ chosen env base (search_slots env base rounds 2 []) =
        choose-eq env base rounds ∙ rw live refl in
      let empty : is_empty (found_name (search_slots env base rounds 2 [])) ≡ true =
        chosen-live env base (search_slots env base rounds 2 []) live offline
          (sym (ap (has_live_socket env) eq) ∙ h) in
      (live, (search-exhausted env base rounds 2 [] filled empty).0)
  | inr off ↦
      let result : has_live_socket env (choose_slot env base rounds) ≡ false =
        subst (λ t. has_live_socket env t ≡ false) (sym (choose-eq env base rounds))
          (if-both (λ t. has_live_socket env t ≡ false)
            (not (has_live_socket env base) && has_saved_session env base) base
            (chosen env base (search_slots env base rounds 2 [])) (λ k. off)
            (λ k. chosen-offline env base (search_slots env base rounds 2 []) off offline)) in
      absurd (ground arith)
]
  where
    offline : has_live_socket env (found_name (search_slots env base rounds 2 [])) ≡ false
    offline = search-offline env base rounds 2 [] (live-empty env)
