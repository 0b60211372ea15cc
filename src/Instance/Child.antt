-- ===== src/Instance/Child.antt =====
-- The name that a nested instance ends up with (assign_nested_child_instance_id).
use prettymux.Prelude.{
  ℕ, zero, suc, ◌+◌, ◌/◌, ◌%◌, ◌≤◌, ◌<◌, ◌≡◌, refl, sym, ap, ◌∙◌, Bool, true, false, not, ◌&&◌,
  ◌||◌, Option, [], ◌∷◌, ◌++◌, arith, if◌then◌else◌, length, subst, ltb, leb,
}
use prettymux.Prelude.Text.{Text, is_empty, codes, strlcpy}
use prettymux.Instance.{
  AppState, is_valid, char_allowed, all_allowed, sanitize, default_instance_id,
}
use prettymux.Instance.Valid.{
  length-take, all_allowed-take, all_allowed-append, sanitize-IsName, assign_instance_id-same,
}
use prettymux.Instance.Nested.{
  Surroundings, Search, saved, free, digits, build_child_id, has_live_socket, has_saved_session,
  search_slots, choose_slot, base_candidate, derive_lane_id, assign_nested_child,
}
use prettymux.Instance.Slots.{
  AllLive, choose_slot-AllLive, if-both, is_taken_over, search-suc, search-zero, next_free, chosen,
  choose-eq,
}

-- Allowed bytes only, in a buffer of 64 bytes.
abbrev Fits : Text → Type 0
Fits t = (all_allowed t ≡ true) × (length t ≤ 63)

digit_allowed : (n : ℕ) → n < 10 → char_allowed (48 + n) ≡ true
unfolding char_allowed
digit_allowed n h = ground arith

dash_allowed : char_allowed 45 ≡ true
unfolding char_allowed
dash_allowed = refl

digits-allowed : (fuel n : ℕ) → all_allowed (digits fuel n) ≡ true
unfolding digits
digits-allowed zero n = refl
digits-allowed (suc fuel) n =
    if-both (λ t. all_allowed t ≡ true) (ltb n 10) ((48 + n) ∷ [])
      (digits fuel (n / 10) ++ (48 + n % 10) ∷ [])
      (λ h. one (48 + n) (digit_allowed n (ground arith)))
      (λ h.
        all_allowed-append (digits fuel (n / 10)) ((48 + n % 10) ∷ [])
          (digits-allowed fuel (n / 10)) (one (48 + n % 10) (digit_allowed (n % 10) (omega arith))))
  where
    one : (c : ℕ) → char_allowed c ≡ true → all_allowed (c ∷ []) ≡ true
    one c h = ground arith

cut-Fits : (t : Text) → all_allowed t ≡ true → Fits (strlcpy 64 t)
cut-Fits t h = (all_allowed-take 63 t h, length-take 63 t)

dashed : (t : Text) → all_allowed t ≡ true → all_allowed (45 ∷ t) ≡ true
dashed t h = ground (arith, dash_allowed)

child-Fits : (base : Text) (slot : ℕ) → all_allowed base ≡ true → Fits (build_child_id 64 base slot)
unfolding build_child_id
child-Fits base slot h =
    if-both Fits (is_empty base) []
      (if leb slot 1 then strlcpy 64 base else strlcpy 64 (base ++ 45 ∷ digits 10 slot))
      (λ k. (refl, omega arith))
      (λ k.
        if-both Fits (leb slot 1) (strlcpy 64 base) (strlcpy 64 (base ++ 45 ∷ digits 10 slot))
          (λ l. cut-Fits base h)
          (λ l. cut-Fits (base ++ 45 ∷ digits 10 slot) (
            all_allowed-append base (45 ∷ digits 10 slot) h
              (dashed (digits 10 slot) (digits-allowed 10 slot)))))

-- What the search finds fits, and a name that is to be assigned at once is not empty.
abbrev Named : Search → Type 0
Named (saved candidate) = Fits candidate × (is_empty candidate ≡ false)
Named (free first_free) = Fits first_free

search-Named :
    (env : Surroundings) (base : Text) (rounds slot : ℕ) (first_free : Text)
    → all_allowed base ≡ true
    → Fits first_free
    → Named (search_slots env base rounds slot first_free)
search-Named env base zero slot first_free h k =
    subst Named (sym (search-zero env base slot first_free)) k
search-Named env base (suc rounds) slot first_free h k =
    let candidate : Text = build_child_id 64 base slot in
    let fits : Fits candidate = child-Fits base slot h in
    subst Named (sym (search-suc env base rounds slot first_free)) (
      if-both Named (is_taken_over env base slot) (saved candidate)
        (search_slots env base rounds (suc slot) (next_free env candidate first_free))
        (λ l. (fits, ground arith))
        (λ l. search-Named env base rounds (suc slot) (next_free env candidate first_free) h (
          if-both Fits (is_empty candidate || has_live_socket env candidate) first_free
            (if is_empty first_free then strlcpy 64 candidate else first_free) (λ m. k)
            (λ m.
              if-both Fits (is_empty first_free) (strlcpy 64 candidate) first_free
                (λ n. cut-Fits candidate fits.0) (λ n. k)))))

-- A name that fits and is not empty.
abbrev IsGood : Text → Type 0
IsGood t = Fits t × (is_empty t ≡ false)

chosen-IsGood :
    (env : Surroundings) (base : Text) (s : Search)
    → IsGood base
    → Named s
    → IsGood (chosen env base s)
chosen-IsGood env base (saved candidate) h k = k
chosen-IsGood env base (free first_free) h k =
    if-both IsGood (not (has_live_socket env base) && not (has_saved_session env base)) base
      (if not (is_empty first_free) then first_free else base) (λ l. h)
      (λ l.
        if-both IsGood (not (is_empty first_free)) first_free base (λ m. (k, ground arith))
          (λ m. h))

choose_slot-IsGood :
    (env : Surroundings) (base : Text) (rounds : ℕ)
    → IsGood base
    → IsGood (choose_slot env base rounds)
choose_slot-IsGood env base rounds h = subst IsGood (sym (choose-eq env base rounds)) (
    if-both IsGood (not (has_live_socket env base) && has_saved_session env base) base
      (chosen env base (search_slots env base rounds 2 [])) (λ l. h)
      (λ l.
        chosen-IsGood env base (search_slots env base rounds 2 []) h
          (search-Named env base rounds 2 [] h.0.0 (refl, omega arith))))

codes-allowed :
    (all_allowed (codes "shell") ≡ true)
    × (all_allowed (codes "-child-") ≡ true)
    × (all_allowed default_instance_id ≡ true)
unfolding char_allowed
codes-allowed = (refl, refl, refl)

lane-allowed : (env : Surroundings) → all_allowed (derive_lane_id env).1 ≡ true
unfolding derive_lane_id
lane-allowed env =
    let explicit : Text = sanitize env.child_instance_id 64 in
    let terminal : Text = sanitize env.terminal_id 64 in
    let tty : Text = sanitize env.ttyname 64 in
    if-both (λ (p : Bool × Text). all_allowed p.1 ≡ true) (not (is_empty explicit)) (true, explicit)
      (if not (is_empty terminal)
        then (false, terminal)
        else if not (is_empty tty)
        then (false, tty)
        else (false, codes "shell"))
      (λ h. (sanitize-IsName env.child_instance_id).0)
      (λ h.
        if-both (λ (p : Bool × Text). all_allowed p.1 ≡ true) (not (is_empty terminal))
          (false, terminal) (if not (is_empty tty) then (false, tty) else (false, codes "shell"))
          (λ k. (sanitize-IsName env.terminal_id).0)
          (λ k.
            if-both (λ (p : Bool × Text). all_allowed p.1 ≡ true) (not (is_empty tty)) (false, tty)
              (false, codes "shell") (λ l. (sanitize-IsName env.ttyname).0) (λ l. codes-allowed.0)))

filled-cut : (t u : Text) → is_empty t ≡ false → is_empty (strlcpy 64 (t ++ u)) ≡ false
filled-cut [] u h = cc
filled-cut (c ∷ t) u h = refl

filled-append : (t u : Text) → is_empty t ≡ false → is_empty (t ++ u) ≡ false
filled-append [] u h = cc
filled-append (c ∷ t) u h = refl

base_candidate-IsGood :
    (env : Surroundings) (parent : Option Text) → IsGood (base_candidate env parent)
unfolding base_candidate
base_candidate-IsGood env parent =
    let lane : Text = (derive_lane_id env).1 in
    let named : Text =
      if is_empty (sanitize parent 64)
      then strlcpy 64 default_instance_id
      else sanitize parent 64 in
    let parent_good : (all_allowed named ≡ true) × (is_empty named ≡ false) =
      if-both (λ t. (all_allowed t ≡ true) × (is_empty t ≡ false)) (is_empty (sanitize parent 64))
        (strlcpy 64 default_instance_id) (sanitize parent 64) (λ h. (codes-allowed.2, refl))
        (λ h. ((sanitize-IsName parent).0, h)) in
    (
      cut-Fits ((named ++ codes "-child-") ++ lane) (
          all_allowed-append (named ++ codes "-child-") lane
            (all_allowed-append named (codes "-child-") parent_good.0 codes-allowed.1)
            (lane-allowed env)),
      filled-cut (named ++ codes "-child-") lane
          (filled-append named (codes "-child-") parent_good.1),
    )

IsGood-is_valid : (t : Text) → IsGood t → is_valid t ≡ true
unfolding is_valid
IsGood-is_valid t h = ground arith

-- The name that is assigned is the one that was chosen.
assigned-eq :
    (env : Surroundings) (state : AppState) (parent : Option Text)
    → (assign_nested_child env state parent).instance_id ≡ (
        if (derive_lane_id env).0
        then base_candidate env parent
        else choose_slot env (base_candidate env parent) 998)
unfolding assign_nested_child
assigned-eq env state parent =
    let base : Text = base_candidate env parent in
    let name : Text = if (derive_lane_id env).0 then base else choose_slot env base 998 in
    let good : IsGood name =
      if-both IsGood (derive_lane_id env).0 base (choose_slot env base 998)
        (λ h. base_candidate-IsGood env parent)
        (λ h. choose_slot-IsGood env base 998 (base_candidate-IsGood env parent)) in
    assign_instance_id-same state name (IsGood-is_valid name good) good.0.1

-- A nested instance whose lane is not named explicitly gets the name of a running instance only when the
-- name of its lane and those of all slots from 2 to 999 are names of running instances.
pub assign_nested_child-AllLive :
    (env : Surroundings) (state : AppState) (parent : Option Text)
    → (derive_lane_id env).0 ≡ false
    → has_live_socket env (assign_nested_child env state parent).instance_id ≡ true
    → (has_live_socket env (base_candidate env parent) ≡ true)
      × AllLive env (base_candidate env parent) 998 2
assign_nested_child-AllLive env state parent implicit live =
    let base : Text = base_candidate env parent in
    let name : (assign_nested_child env state parent).instance_id ≡ choose_slot env base 998 =
      assigned-eq env state parent ∙ rw implicit refl in
    choose_slot-AllLive env base 998 (base_candidate-IsGood env parent).1
      (sym (ap (has_live_socket env) name) ∙ live)
