-- ===== src/Status/Examples.antt =====
-- The theorems on status entries at concrete entries.
use prettymux.Prelude.{inl, inr, ◌≡◌, refl, true, false, some, [], ◌∷◌, if◌then◌else◌}
use prettymux.Prelude.Int.{ℤ, pos, negsuc}
use prettymux.Prelude.Text.{codes, text_eq}
use prettymux.Status.{
  Table, get_sorted_status_entries, StatusEntry, lookup, normalize, set_status_entry,
  compare_entries, pick_notification_preview, is_notification, pick_loop,
}
use prettymux.Status.Normal.{normalize-normalize}
use prettymux.Status.Table.{lookup-set_status_entry}
use prettymux.Status.Order.{compare_entries-IsOrder, opposite}
use prettymux.Status.Sorted.{get_sorted_status_entries_unique}
use prettymux.Status.Insertion.{insertion_sort, insertion_sort-IsSort}
use prettymux.Status.Preview.{Has, Newest, pick_notification_preview-Newest}

-- What an agent reports: no id, no kind, no time.
abbrev building : StatusEntry
building = record {
  entry_id = [];
  provider = codes "codex";
  kind = [];
  status = codes "build";
  summary = [];
  detail = [];
  updated_at_usec = pos 0;
  attention = false;
}

abbrev waiting : StatusEntry
waiting = record building { entry_id = codes "w"; updated_at_usec = pos 7; attention = true }

abbrev note : ℤ → StatusEntry
note time = record building { kind = codes "notification"; updated_at_usec = time }

-- The id is made of provider and kind, and the status is the summary.
building_normalized : normalize (pos 9) building ≡ record building {
  entry_id = codes "codex:status";
  kind = codes "status";
  summary = codes "build";
  updated_at_usec = pos 9;
}
unfolding normalize
building_normalized = refl

normalize-normalize_example :
    normalize (pos 12) (normalize (pos 9) building) ≡ normalize (pos 9) building
normalize-normalize_example = normalize-normalize (pos 9) (pos 12) building refl

lookup-set_status_entry_example :
    lookup (codes "w") (set_status_entry (pos 9) building (set_status_entry (pos 8) waiting [])) ≡ (
      if text_eq (normalize (pos 9) building).entry_id (codes "w")
      then some (normalize (pos 9) building)
      else lookup (codes "w") (set_status_entry (pos 8) waiting []))
lookup-set_status_entry_example =
    lookup-set_status_entry (pos 9) building (set_status_entry (pos 8) waiting []) (codes "w")

compare_entries-IsOrder_example :
    (compare_entries building waiting ≡ opposite (compare_entries waiting building))
    × (compare_entries waiting building ≡ pos 0 → codes "w" ≡ [])
    × (compare_entries waiting building ≡ negsuc 0
        → compare_entries building (note (negsuc 3)) ≡ negsuc 0
        → compare_entries waiting (note (negsuc 3)) ≡ negsuc 0)
compare_entries-IsOrder_example = compare_entries-IsOrder waiting building (note (negsuc 3))

pick_notification_preview-Newest_example :
    Newest
      (note (pos 1) ∷ waiting ∷ note (pos 3) ∷ [])
      (pick_notification_preview (note (pos 1) ∷ waiting ∷ note (pos 3) ∷ []))
pick_notification_preview-Newest_example =
    pick_notification_preview-Newest (note (pos 1) ∷ waiting ∷ note (pos 3) ∷ [])

preview_three :
    pick_notification_preview (note (pos 1) ∷ waiting ∷ note (pos 3) ∷ []) ≡ some (note (pos 3))
unfolding pick_notification_preview pick_loop is_notification
preview_three = refl

exchange : (a b e : StatusEntry) → Has e (a ∷ b ∷ []) → Has e (b ∷ a ∷ [])
exchange a b e (inl first) = inr (inl first)
exchange a b e (inr (inl second)) = inl second
exchange a b e (inr (inr out)) = elim out [ ]

-- Two tables with the same entries in different orders.
abbrev one_way : Table
one_way = (codes "w", waiting) ∷ (codes "b", record building { entry_id = codes "b" }) ∷ []

abbrev other_way : Table
other_way = (codes "b", record building { entry_id = codes "b" }) ∷ (codes "w", waiting) ∷ []

sorted_other_way :
    get_sorted_status_entries insertion_sort other_way
    ≡ waiting ∷ record building { entry_id = codes "b" } ∷ []
unfolding get_sorted_status_entries compare_entries
sorted_other_way = refl

get_sorted_status_entries_unique_example :
    get_sorted_status_entries insertion_sort one_way
    ≡ get_sorted_status_entries insertion_sort other_way
get_sorted_status_entries_unique_example =
    get_sorted_status_entries_unique insertion_sort one_way other_way insertion_sort-IsSort
      ((refl, tt), (tt, tt)) ((refl, tt), (tt, tt))
      (exchange waiting (record building { entry_id = codes "b" }))
      (exchange (record building { entry_id = codes "b" }) waiting)
