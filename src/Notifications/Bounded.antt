-- ===== src/Notifications/Bounded.antt =====
-- The list of notifications is bounded (notifications_add_full).
use prettymux.Prelude.{
  ℕ, suc, ◌+◌, ◌≡◌, refl, ap, ◌∙◌, List, [], ◌∷◌, ◌++◌, arith, length, ltb, min, Bool-cases, inl,
  inr, length-append,
}
use prettymux.Prelude.Int.{ℤ}
use prettymux.Prelude.Text.{Text}
use prettymux.Notifications.{Entry, Notifications, add_full, count, trim_loop}

length-trim_loop : (l : List Entry) → length (trim_loop l) ≡ min 50 (length l)
length-trim_loop [] = omega arith
length-trim_loop (e ∷ rest) = elim (Bool-cases (ltb 50 (suc (length rest)))) [
  | inl long ↦ rw long (ground (arith, length-trim_loop rest))
  | inr short ↦ rw short (ground arith)
]

-- What the loop removes stands in front of what it leaves.
trim_loop-suffix : (l : List Entry) → (gone : List Entry) × (gone ++ trim_loop l ≡ l)
trim_loop-suffix [] = ([], refl)
trim_loop-suffix (e ∷ rest) = elim (Bool-cases (ltb 50 (suc (length rest)))) [
  | inl long ↦ let (gone, e') = trim_loop-suffix rest in (e ∷ gone, rw long (ap (λ l. e ∷ l) e'))
  | inr short ↦ ([], rw short refl)
]

-- The entry of a notification.
abbrev pub new_entry : Text → ℤ → ℕ → ℤ → Entry
new_entry msg ws_idx pane tab_idx = record {
  text = msg;
  workspace_idx = ws_idx;
  pane_notebook = pane;
  tab_idx = tab_idx;
}

entries-add_full :
    (msg : Text) (ws_idx : ℤ) (pane : ℕ) (tab_idx : ℤ) (workspace_count : ℕ) (n : Notifications)
    → (add_full msg ws_idx pane tab_idx workspace_count n).entries
      ≡ trim_loop (n.entries ++ new_entry msg ws_idx pane tab_idx ∷ [])
unfolding add_full
entries-add_full msg ws_idx pane tab_idx workspace_count n = ground arith

-- A notification goes behind the others, and of the whole the last ones are left: all while there are
-- not more than fifty, and fifty of them from then on.
pub add_full-bounded :
    (msg : Text) (ws_idx : ℤ) (pane : ℕ) (tab_idx : ℤ) (workspace_count : ℕ) (n : Notifications)
    → (count (add_full msg ws_idx pane tab_idx workspace_count n) ≡ min 50 (count n + 1))
      × ((gone : List Entry) × (gone ++ (add_full msg ws_idx pane tab_idx workspace_count n).entries
            ≡ n.entries ++ new_entry msg ws_idx pane tab_idx ∷ []))
unfolding count
add_full-bounded msg ws_idx pane tab_idx workspace_count n =
    let entry : Entry = new_entry msg ws_idx pane tab_idx in
    let entries : (add_full msg ws_idx pane tab_idx workspace_count n).entries
        ≡ trim_loop (n.entries ++ entry ∷ []) =
      entries-add_full msg ws_idx pane tab_idx workspace_count n in
    let (gone, e) = trim_loop-suffix (n.entries ++ entry ∷ []) in
    (
      ap length entries
          ∙ length-trim_loop (n.entries ++ entry ∷ [])
          ∙ ap (min 50) (length-append n.entries (entry ∷ [])),
      (gone, ap (λ l. gone ++ l) entries ∙ e),
    )
