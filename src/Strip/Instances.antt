-- ===== src/Strip/Instances.antt =====
-- Values that meet what the strip takes from outside: whole numbers for `double`, which keep no
-- fraction, and a `GtkBox` that is the list of its children.
use prettymux.Prelude.{
  suc, ◌+◌, ◌*◌, ◌/◌, ◌^◌, ◌<◌, ◌≡◌, refl, ap, ◌∙◌, Bool, true, false, not, ◌||◌, Option, none,
  some, List, [], ◌∷◌, ◌++◌, arith, All, if◌then◌else◌, ◌==◌,
}
use prettymux.Prelude.Int.{ℤ, pos, negsuc, ltb_ℤ, eqb_ℤ, pos_part, neg_part, sub_ℕ}
use prettymux.Strip.Model.{Root, leaf, paned, root_eq, Double, Gtk}

abbrev add_ℤ : ℤ → ℤ → ℤ
add_ℤ a b = sub_ℕ (pos_part a + pos_part b) (neg_part a + neg_part b)

abbrev minus_ℤ : ℤ → ℤ → ℤ
minus_ℤ a b = sub_ℕ (pos_part a + neg_part b) (neg_part a + pos_part b)

abbrev mul_ℤ : ℤ → ℤ → ℤ
mul_ℤ a b =
    sub_ℕ (pos_part a * pos_part b + neg_part a * neg_part b)
      (pos_part a * neg_part b + neg_part a * pos_part b)

abbrev div_ℤ : ℤ → ℤ → ℤ
div_ℤ (pos m) b = sub_ℕ (m / pos_part b) (m / neg_part b)
div_ℤ (negsuc m) b = sub_ℕ (suc m / neg_part b) (suc m / pos_part b)

pub whole_lt_irrefl : (a : ℤ) → ltb_ℤ a a ≡ false
whole_lt_irrefl a = ground arith

instance abbrev pub whole : Double ℤ
whole = record {
  of_int = λ i. i;
  to_int = λ a. a;
  literal = λ digits places. pos (digits / 10 ^ places);
  add = add_ℤ;
  sub = minus_ℤ;
  mul = mul_ℤ;
  div = div_ℤ;
  neg = minus_ℤ (pos 0);
  lt = ltb_ℤ;
  eq = eqb_ℤ;
  lt_irrefl = whole_lt_irrefl;
}

root_eq_refl : (r : Root) → root_eq r r ≡ true
root_eq_refl (leaf w) = ground arith
root_eq_refl (paned a b) = ground (arith, root_eq_refl a, root_eq_refl b)

abbrev box_contains : List Root → Root → Bool
box_contains [] r = false
box_contains (c ∷ cs) r = root_eq r c || box_contains cs r

abbrev box_remove : List Root → Root → List Root
box_remove [] r = []
box_remove (c ∷ cs) r = if root_eq r c then cs else c ∷ box_remove cs r

abbrev box_insert_after : List Root → Root → Option Root → List Root
box_insert_after cs r none = r ∷ cs
box_insert_after [] r (some s) = r ∷ []
box_insert_after (c ∷ cs) r (some s) =
    if root_eq s c then c ∷ r ∷ cs else c ∷ box_insert_after cs r (some s)

pub box_contains_middle :
    (b : List Root) (r : Root) (xs ys : List Root) → b ≡ xs ++ r ∷ ys → box_contains b r ≡ true
box_contains_middle b r [] ys e = rw e (ground (arith, root_eq_refl r))
box_contains_middle b r (x ∷ xs) ys e =
    rw e (ground (arith, box_contains_middle (xs ++ r ∷ ys) r xs ys refl))

remove_middle :
    (r : Root) (xs ys : List Root)
    → All (λ c. root_eq r c ≡ false) xs
    → box_remove (xs ++ r ∷ ys) r ≡ xs ++ ys
remove_middle r [] ys h = ground (arith, root_eq_refl r)
remove_middle r (x ∷ xs) ys h = rw h.0 (ap (λ l. x ∷ l) (remove_middle r xs ys h.1))

pub box_children-remove :
    (b : List Root) (r : Root) (xs ys : List Root)
    → All (λ c. root_eq r c ≡ false) xs
    → b ≡ xs ++ r ∷ ys
    → box_remove b r ≡ xs ++ ys
box_children-remove b r xs ys h e = ap (λ l. box_remove l r) e ∙ remove_middle r xs ys h

pub one_pos : 0 < 1
one_pos = omega arith

-- Every pointer but NULL is a notebook with a terminal.
instance abbrev pub list_box : Gtk (List Root)
list_box = record {
  is_notebook = λ w. not (w == 0);
  has_current_terminal = λ w. true;
  new_tick_id = 1;
  new_tick_id_pos = one_pos;
  children = λ b. b;
  contains = box_contains;
  append = λ b r. b ++ r ∷ [];
  remove = box_remove;
  insert_after = box_insert_after;
  new_box = [];
  children-new_box = refl;
  contains_middle = box_contains_middle;
  children-append = λ b r h. refl;
  children-remove = box_children-remove;
}
