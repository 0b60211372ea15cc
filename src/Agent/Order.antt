-- ===== src/Agent/Order.antt =====
-- The order of the names of instances (compare_instance_id_for_default): numbers first, by their value, then
-- texts.
use prettymux.Prelude.{◌≡◌, refl, ap, Bool, true, false, [], ◌∷◌, arith}
use prettymux.Prelude.Int.{pos, negsuc, ltb_ℤ}
use prettymux.Prelude.Text.{Text}
use prettymux.Status.{strcmp}
use prettymux.Status.Order.{strcmp_trans}
use prettymux.Agent.{compare_default}

-- Is the first name before the second?
abbrev pub below : Text → Text → Bool
below a b = ltb_ℤ (compare_default a b) (pos 0)

strcmp-below : (s t : Text) → ltb_ℤ (strcmp s t) (pos 0) ≡ true → strcmp s t ≡ negsuc 0
strcmp-below [] [] h = cc
strcmp-below [] (d ∷ t) h = refl
strcmp-below (c ∷ s) [] h = cc
strcmp-below (c ∷ s) (d ∷ t) h = ground (arith, strcmp-below s t)

strcmp-below_trans :
    (s t u : Text)
    → ltb_ℤ (strcmp s t) (pos 0) ≡ true
    → ltb_ℤ (strcmp t u) (pos 0) ≡ true
    → ltb_ℤ (strcmp s u) (pos 0) ≡ true
strcmp-below_trans s t u h k =
    ap (λ i. ltb_ℤ i (pos 0)) (strcmp_trans s t u (strcmp-below s t h) (strcmp-below t u k))

-- Neither before the other: the same text.
strcmp_total :
    (s t : Text) → ltb_ℤ (strcmp s t) (pos 0) ≡ false → ltb_ℤ (strcmp t s) (pos 0) ≡ false → s ≡ t
strcmp_total [] [] h k = refl
strcmp_total [] (d ∷ t) h k = cc
strcmp_total (c ∷ s) [] h k = cc
strcmp_total (c ∷ s) (d ∷ t) h k = ground (arith, strcmp_total s t)

pub below_trans : (a b c : Text) → below a b ≡ true → below b c ≡ true → below a c ≡ true
unfolding compare_default
below_trans a b c h k = ground (arith, strcmp-below_trans a b c)

pub below_total : (a b : Text) → below a b ≡ false → below b a ≡ false → a ≡ b
unfolding compare_default
below_total a b h k = ground (arith, strcmp_total a b)

strcmp_same_text : (s : Text) → strcmp s s ≡ pos 0
strcmp_same_text [] = refl
strcmp_same_text (c ∷ s) = ground (arith, strcmp_same_text s)

pub below_irrefl : (a : Text) → below a a ≡ false
unfolding compare_default
below_irrefl a = ground (arith, strcmp_same_text a)
