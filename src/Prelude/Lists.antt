-- ===== src/Prelude/Lists.antt =====
-- Lists measured and indexed by native numbers, under the library's names. A `GPtrArray` of the
-- program is a `List`: `insert_at` is `g_ptr_array_insert`, `erase_at` is `g_ptr_array_remove_index`.
use Prim.Native.Nat.{ℕ, zero, suc, ◌+◌, ◌≤◌, ◌<◌}
use mathlib.Core.Path.{◌≡◌, refl, sym, ap, ◌∙◌, subst}
use mathlib.Core.List.{List, [], ◌∷◌, ◌++◌, map}
use mathlib.Core.Option.{Option, none, some}
use native.Mathlib.Omega.{arith}

-- `P` at every element.
abbrev pub All {ℓ κ} : {A : Type ℓ} → (A → Type κ) → List A → Type κ
All P [] = Unit
All P (x ∷ xs) = P x × All P xs

module _ {ℓ} {A : Type ℓ} where
  abbrev pub length : List A → ℕ
  length [] = 0
  length (x ∷ xs) = suc (length xs)

  abbrev pub get_elem? : List A → ℕ → Option A
  get_elem? [] i = none
  get_elem? (x ∷ xs) zero = some x
  get_elem? (x ∷ xs) (suc i) = get_elem? xs i

  -- A write out of bounds changes nothing.
  abbrev pub set : List A → ℕ → A → List A
  set [] i v = []
  set (x ∷ xs) zero v = v ∷ xs
  set (x ∷ xs) (suc i) v = x ∷ set xs i v

  -- Past the end the value goes last.
  abbrev pub insert_at : List A → ℕ → A → List A
  insert_at [] i v = v ∷ []
  insert_at (x ∷ xs) zero v = v ∷ x ∷ xs
  insert_at (x ∷ xs) (suc i) v = x ∷ insert_at xs i v

  -- Past the end nothing is removed.
  abbrev pub erase_at : List A → ℕ → List A
  erase_at [] i = []
  erase_at (x ∷ xs) zero = xs
  erase_at (x ∷ xs) (suc i) = x ∷ erase_at xs i

  abbrev pub take : ℕ → List A → List A
  take zero xs = []
  take (suc n) [] = []
  take (suc n) (x ∷ xs) = x ∷ take n xs

  abbrev pub drop : ℕ → List A → List A
  drop zero xs = xs
  drop (suc n) [] = []
  drop (suc n) (x ∷ xs) = drop n xs

  pub length-append : (xs ys : List A) → length (xs ++ ys) ≡ length xs + length ys
  length-append [] ys = omega arith
  length-append (x ∷ xs) ys = omega (arith, length-append xs ys)

module _ {ℓ} {A : Type ℓ} where
  pub length-set : (xs : List A) (i : ℕ) (v : A) → length (set xs i v) ≡ length xs
  length-set [] i v = refl
  length-set (x ∷ xs) zero v = refl
  length-set (x ∷ xs) (suc i) v = ap suc (length-set xs i v)

  pub length-insert_at : (xs : List A) (i : ℕ) (v : A) → length (insert_at xs i v) ≡ suc (length xs)
  length-insert_at [] i v = refl
  length-insert_at (x ∷ xs) zero v = refl
  length-insert_at (x ∷ xs) (suc i) v = ap suc (length-insert_at xs i v)

  pub length-erase_at :
      (xs : List A) (i : ℕ) → i < length xs → suc (length (erase_at xs i)) ≡ length xs
  length-erase_at [] i h = elim h [ ]
  length-erase_at (x ∷ xs) zero h = refl
  length-erase_at (x ∷ xs) (suc i) h = ap suc (length-erase_at xs i (omega arith))

  pub erase_at-insert_at :
      (xs : List A) (i : ℕ) (v : A) → i ≤ length xs → erase_at (insert_at xs i v) i ≡ xs
  erase_at-insert_at [] zero v h = refl
  erase_at-insert_at [] (suc i) v h = elim h [ ]
  erase_at-insert_at (x ∷ xs) zero v h = refl
  erase_at-insert_at (x ∷ xs) (suc i) v h =
      ap (λ l. x ∷ l) (erase_at-insert_at xs i v (omega arith))

  pub insert_at-append :
      (xs : List A) (i : ℕ) (v : A) → insert_at xs i v ≡ take i xs ++ v ∷ drop i xs
  insert_at-append [] zero v = refl
  insert_at-append [] (suc i) v = refl
  insert_at-append (x ∷ xs) zero v = refl
  insert_at-append (x ∷ xs) (suc i) v = ap (λ l. x ∷ l) (insert_at-append xs i v)

  pub erase_at-append : (xs : List A) (i : ℕ) → erase_at xs i ≡ take i xs ++ drop (suc i) xs
  erase_at-append [] zero = refl
  erase_at-append [] (suc i) = refl
  erase_at-append (x ∷ xs) zero = refl
  erase_at-append (x ∷ xs) (suc i) = ap (λ l. x ∷ l) (erase_at-append xs i)

  pub get_elem?-set_self :
      (xs : List A) (i : ℕ) (v : A) → i < length xs → get_elem? (set xs i v) i ≡ some v
  get_elem?-set_self [] i v h = elim h [ ]
  get_elem?-set_self (x ∷ xs) zero v h = refl
  get_elem?-set_self (x ∷ xs) (suc i) v h = get_elem?-set_self xs i v (omega arith)

  pub get_elem?-insert_at :
      (xs : List A) (i : ℕ) (v : A) → i ≤ length xs → get_elem? (insert_at xs i v) i ≡ some v
  get_elem?-insert_at [] zero v h = refl
  get_elem?-insert_at [] (suc i) v h = elim h [ ]
  get_elem?-insert_at (x ∷ xs) zero v h = refl
  get_elem?-insert_at (x ∷ xs) (suc i) v h = get_elem?-insert_at xs i v (omega arith)

  pub get_elem?_lt : (xs : List A) (i : ℕ) → i < length xs → (a : A) × (get_elem? xs i ≡ some a)
  get_elem?_lt [] i h = elim h [ ]
  get_elem?_lt (x ∷ xs) zero h = (x, refl)
  get_elem?_lt (x ∷ xs) (suc i) h = get_elem?_lt xs i (omega arith)

  pub lt_of_get_elem? : (xs : List A) (i : ℕ) {a : A} → get_elem? xs i ≡ some a → i < length xs
  lt_of_get_elem? [] i h = cc
  lt_of_get_elem? (x ∷ xs) zero h = omega arith
  lt_of_get_elem? (x ∷ xs) (suc i) h = omega (arith, lt_of_get_elem? xs i h)

pub length-map {ℓ κ} :
    {A : Type ℓ} {B : Type κ} (f : A → B) (xs : List A) → length (map f xs) ≡ length xs
length-map f [] = refl
length-map f (x ∷ xs) = ap suc (length-map f xs)

module _ {ℓ κ} {A : Type ℓ} (P : A → Type κ) where
  pub All-get_elem? : (xs : List A) (i : ℕ) {a : A} → All P xs → get_elem? xs i ≡ some a → P a
  All-get_elem? [] i h e = cc
  All-get_elem? (x ∷ xs) zero h e = subst P (cc) h.0
  All-get_elem? (x ∷ xs) (suc i) h e = All-get_elem? xs i h.1 e

  pub All-set : (xs : List A) (i : ℕ) (v : A) → All P xs → P v → All P (set xs i v)
  All-set [] i v h p = h
  All-set (x ∷ xs) zero v h p = (p, h.1)
  All-set (x ∷ xs) (suc i) v h p = (h.0, All-set xs i v h.1 p)

  pub All-insert_at : (xs : List A) (i : ℕ) (v : A) → All P xs → P v → All P (insert_at xs i v)
  All-insert_at [] i v h p = (p, h)
  All-insert_at (x ∷ xs) zero v h p = (p, h)
  All-insert_at (x ∷ xs) (suc i) v h p = (h.0, All-insert_at xs i v h.1 p)

  pub All-erase_at : (xs : List A) (i : ℕ) → All P xs → All P (erase_at xs i)
  All-erase_at [] i h = h
  All-erase_at (x ∷ xs) zero h = h.1
  All-erase_at (x ∷ xs) (suc i) h = (h.0, All-erase_at xs i h.1)

  pub All-append : (xs ys : List A) → All P xs → All P ys → All P (xs ++ ys)
  All-append [] ys h k = k
  All-append (x ∷ xs) ys h k = (h.0, All-append xs ys h.1 k)

module _ {ℓ κ} {A : Type ℓ} {B : Type κ} where
  pub map-insert_at :
      (f : A → B) (xs : List A) (i : ℕ) (v : A)
      → map f (insert_at xs i v) ≡ insert_at (map f xs) i (f v)
  map-insert_at f [] i v = refl
  map-insert_at f (x ∷ xs) zero v = refl
  map-insert_at f (x ∷ xs) (suc i) v = ap (λ l. f x ∷ l) (map-insert_at f xs i v)

  pub map-erase_at :
      (f : A → B) (xs : List A) (i : ℕ) → map f (erase_at xs i) ≡ erase_at (map f xs) i
  map-erase_at f [] i = refl
  map-erase_at f (x ∷ xs) zero = refl
  map-erase_at f (x ∷ xs) (suc i) = ap (λ l. f x ∷ l) (map-erase_at f xs i)

  -- A write that the map does not show.
  pub map-set_self :
      (f : A → B) (xs : List A) (i : ℕ) (u v : A)
      → get_elem? xs i ≡ some u
      → f v ≡ f u
      → map f (set xs i v) ≡ map f xs
  map-set_self f [] i u v e h = refl
  map-set_self f (x ∷ xs) zero u v e h =
      let e' : x ≡ u = cc in ap (λ (y : B). y ∷ map f xs) (h ∙ ap f (sym e'))
  map-set_self f (x ∷ xs) (suc i) u v e h = ap (λ l. f x ∷ l) (map-set_self f xs i u v e h)
