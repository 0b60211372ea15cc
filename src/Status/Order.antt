-- ===== src/Status/Order.antt =====
-- The order of the status entries in the sidebar (workspace_status_entry_compare).
use prettymux.Prelude.{zero, suc, ◌≡◌, refl, [], ◌∷◌, arith}
use prettymux.Prelude.Int.{ℤ, pos, negsuc}
use prettymux.Prelude.Text.{Text}
use prettymux.Status.{StatusEntry, strcmp, compare_entries}

-- The result for the entries the other way around.
abbrev pub opposite : ℤ → ℤ
opposite (pos zero) = pos zero
opposite (pos (suc n)) = negsuc n
opposite (negsuc n) = pos (suc n)

pub strcmp-opposite : (s t : Text) → strcmp t s ≡ opposite (strcmp s t)
strcmp-opposite [] [] = refl
strcmp-opposite [] (d ∷ t) = refl
strcmp-opposite (c ∷ s) [] = refl
strcmp-opposite (c ∷ s) (d ∷ t) = ground (arith, strcmp-opposite s t)

pub strcmp-same : (s t : Text) → strcmp s t ≡ pos 0 → s ≡ t
strcmp-same [] [] h = refl
strcmp-same [] (d ∷ t) h = cc
strcmp-same (c ∷ s) [] h = cc
strcmp-same (c ∷ s) (d ∷ t) h = ground (arith, strcmp-same s t)

pub strcmp_trans :
    (s t u : Text) → strcmp s t ≡ negsuc 0 → strcmp t u ≡ negsuc 0 → strcmp s u ≡ negsuc 0
strcmp_trans [] [] u h k = cc
strcmp_trans [] (d ∷ t) [] h k = cc
strcmp_trans [] (d ∷ t) (x ∷ u) h k = refl
strcmp_trans (c ∷ s) [] u h k = cc
strcmp_trans (c ∷ s) (d ∷ t) [] h k = cc
strcmp_trans (c ∷ s) (d ∷ t) (x ∷ u) h k = ground (arith, strcmp_trans s t u)

-- Comparing the other way around gives the opposite.
pub compare-opposite : (a b : StatusEntry) → compare_entries b a ≡ opposite (compare_entries a b)
unfolding compare_entries
compare-opposite a b = ground (arith, strcmp-opposite a.entry_id b.entry_id)

pub compare-same : (a b : StatusEntry) → compare_entries a b ≡ pos 0 → a.entry_id ≡ b.entry_id
unfolding compare_entries
compare-same a b h = ground (arith, strcmp-same a.entry_id b.entry_id)

pub compare_trans :
    (a b c : StatusEntry)
    → compare_entries a b ≡ negsuc 0
    → compare_entries b c ≡ negsuc 0
    → compare_entries a c ≡ negsuc 0
unfolding compare_entries
compare_trans a b c h k = ground (arith, strcmp_trans a.entry_id b.entry_id c.entry_id)

-- The order of the entries is a strict total one up to their ids: comparing two entries the other way
-- around gives the opposite result, 0 means that their ids are equal, and an entry in front of one in
-- front of a third is in front of the third.
pub compare_entries-IsOrder :
    (a b c : StatusEntry)
    → (compare_entries b a ≡ opposite (compare_entries a b))
      × (compare_entries a b ≡ pos 0 → a.entry_id ≡ b.entry_id)
      × (compare_entries a b ≡ negsuc 0
          → compare_entries b c ≡ negsuc 0
          → compare_entries a c ≡ negsuc 0)
compare_entries-IsOrder a b c = (compare-opposite a b, compare-same a b, compare_trans a b c)
