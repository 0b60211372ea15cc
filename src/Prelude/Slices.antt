-- ===== src/Prelude/Slices.antt =====
-- What `take` and `drop` see of a write at an index.
use Prim.Native.Nat.{ℕ, zero, suc, ◌≤◌, ◌<◌}
use mathlib.Core.Path.{◌≡◌, refl, ap}
use mathlib.Core.List.{List, [], ◌∷◌, ◌++◌}
use mathlib.Core.Option.{none, some}
use native.Mathlib.Omega.{arith}
use prettymux.Prelude.Lists.{length, get_elem?, set, insert_at, erase_at, take, drop}

module _ {ℓ} {A : Type ℓ} where
  pub take-erase_at : (xs : List A) (i : ℕ) → take i (erase_at xs i) ≡ take i xs
  take-erase_at [] i = refl
  take-erase_at (x ∷ xs) zero = refl
  take-erase_at (x ∷ xs) (suc i) = ap (λ l. x ∷ l) (take-erase_at xs i)

  pub drop-erase_at : (xs : List A) (i : ℕ) → drop i (erase_at xs i) ≡ drop (suc i) xs
  drop-erase_at [] zero = refl
  drop-erase_at [] (suc i) = refl
  drop-erase_at (x ∷ xs) zero = refl
  drop-erase_at (x ∷ xs) (suc i) = drop-erase_at xs i

  pub take-set : (xs : List A) (i : ℕ) (v : A) → take i (set xs i v) ≡ take i xs
  take-set [] i v = refl
  take-set (x ∷ xs) zero v = refl
  take-set (x ∷ xs) (suc i) v = ap (λ l. x ∷ l) (take-set xs i v)

  pub drop-set :
      (xs : List A) (i : ℕ) (u v : A)
      → get_elem? xs i ≡ some u
      → drop i (set xs i v) ≡ v ∷ drop (suc i) xs
  drop-set [] i u v e = cc
  drop-set (x ∷ xs) zero u v e = refl
  drop-set (x ∷ xs) (suc i) u v e = drop-set xs i u v e

  pub take-suc :
      (xs : List A) (i : ℕ) (u : A)
      → get_elem? xs i ≡ some u
      → take (suc i) xs ≡ take i xs ++ u ∷ []
  take-suc [] i u e = cc
  take-suc (x ∷ xs) zero u e = cc
  take-suc (x ∷ xs) (suc i) u e = ap (λ l. x ∷ l) (take-suc xs i u e)

  pub drop-get_elem? :
      (xs : List A) (i : ℕ) (u : A) → get_elem? xs i ≡ some u → drop i xs ≡ u ∷ drop (suc i) xs
  drop-get_elem? [] i u e = cc
  drop-get_elem? (x ∷ xs) zero u e = cc
  drop-get_elem? (x ∷ xs) (suc i) u e = drop-get_elem? xs i u e

  pub take-past : (xs : List A) (i : ℕ) → get_elem? xs i ≡ none → take i xs ≡ xs
  take-past [] zero e = refl
  take-past [] (suc i) e = refl
  take-past (x ∷ xs) zero e = cc
  take-past (x ∷ xs) (suc i) e = ap (λ l. x ∷ l) (take-past xs i e)

  pub drop-past : (xs : List A) (i : ℕ) → get_elem? xs i ≡ none → drop i xs ≡ []
  drop-past [] zero e = refl
  drop-past [] (suc i) e = refl
  drop-past (x ∷ xs) zero e = cc
  drop-past (x ∷ xs) (suc i) e = drop-past xs i e

  pub get_elem?-suc : (xs : List A) (i : ℕ) → get_elem? xs i ≡ none → get_elem? xs (suc i) ≡ none
  get_elem?-suc [] i e = refl
  get_elem?-suc (x ∷ xs) zero e = cc
  get_elem?-suc (x ∷ xs) (suc i) e = get_elem?-suc xs i e

  pub get_elem?-length : (xs : List A) → get_elem? xs (length xs) ≡ none
  get_elem?-length [] = refl
  get_elem?-length (x ∷ xs) = get_elem?-length xs

  -- Behind an index that goes, each element moves down by one.
  pub get_elem?-erase_at_lt :
      (xs : List A) (i j : ℕ) → j < i → get_elem? (erase_at xs i) j ≡ get_elem? xs j
  get_elem?-erase_at_lt [] i j h = refl
  get_elem?-erase_at_lt (x ∷ xs) zero j h = elim h [ ]
  get_elem?-erase_at_lt (x ∷ xs) (suc i) zero h = refl
  get_elem?-erase_at_lt (x ∷ xs) (suc i) (suc j) h = get_elem?-erase_at_lt xs i j (omega arith)

  pub get_elem?-erase_at_le :
      (xs : List A) (i j : ℕ) → i ≤ j → get_elem? (erase_at xs i) j ≡ get_elem? xs (suc j)
  get_elem?-erase_at_le [] i j h = refl
  get_elem?-erase_at_le (x ∷ xs) zero j h = refl
  get_elem?-erase_at_le (x ∷ xs) (suc i) zero h = elim h [ ]
  get_elem?-erase_at_le (x ∷ xs) (suc i) (suc j) h = get_elem?-erase_at_le xs i j (omega arith)

  pub get_elem?-insert_at_lt :
      (xs : List A) (i j : ℕ) (v : A)
      → i ≤ length xs
      → j < i
      → get_elem? (insert_at xs i v) j ≡ get_elem? xs j
  get_elem?-insert_at_lt [] i j v h k = absurd (omega arith)
  get_elem?-insert_at_lt (x ∷ xs) zero j v h k = elim k [ ]
  get_elem?-insert_at_lt (x ∷ xs) (suc i) zero v h k = refl
  get_elem?-insert_at_lt (x ∷ xs) (suc i) (suc j) v h k =
      get_elem?-insert_at_lt xs i j v (omega arith) (omega arith)

  pub get_elem?-insert_at_le :
      (xs : List A) (i j : ℕ) (v : A)
      → i ≤ length xs
      → i ≤ j
      → get_elem? (insert_at xs i v) (suc j) ≡ get_elem? xs j
  get_elem?-insert_at_le [] zero j v h k = refl
  get_elem?-insert_at_le [] (suc i) j v h k = elim h [ ]
  get_elem?-insert_at_le (x ∷ xs) zero j v h k = refl
  get_elem?-insert_at_le (x ∷ xs) (suc i) zero v h k = elim k [ ]
  get_elem?-insert_at_le (x ∷ xs) (suc i) (suc j) v h k =
      get_elem?-insert_at_le xs i j v (omega arith) (omega arith)
