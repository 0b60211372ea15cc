-- ===== src/Status.antt =====
-- gtk/workspace.c: the status entries of a workspace, which the sidebar shows.
pub mod Normal
pub mod Table
pub mod Order
pub mod Preview
pub mod Sorted
pub mod Insertion
mod Examples
use prettymux.Prelude.{
  ℕ, zero, suc, ◌-◌, Bool, true, false, not, ◌&&◌, ◌||◌, Option, none, some, List, [], ◌∷◌, ◌++◌,
  ◌==◌, if◌then◌else◌, take, length, ltb,
}
use prettymux.Prelude.Int.{ℤ, pos, negsuc, eqb_ℤ, ltb_ℤ, leb_ℤ, ◌-ℤ◌}
use prettymux.Prelude.Text.{Text, codes, text_eq, is_empty, strlcpy, has_prefix}

-- workspace_status_entry
pub record StatusEntry : Type 0 where
  pub entry_id : Text
  pub provider : Text
  pub kind : Text
  pub status : Text
  pub summary : Text
  pub detail : Text
  pub updated_at_usec : ℤ
  pub attention : Bool

-- `text[0] ? text : otherwise`
abbrev pub or_text : Text → Text → Text
or_text t otherwise = if is_empty t then otherwise else t

-- The summary of an entry that has none.
abbrev pub fallback_summary : Text → Text → Text → Text
fallback_summary detail status kind =
    if not (is_empty detail)
    then strlcpy 192 detail
    else if not (is_empty status)
    then strlcpy 192 status
    else strlcpy 192 kind

-- workspace_status_entry_normalize, of an entry that is there; `now` is `g_get_real_time()`
unfoldable pub normalize : ℤ → StatusEntry → StatusEntry
normalize now src =
    let provider = or_text src.provider (codes "agent") in
    let kind = or_text src.kind (codes "status") in
    let status = strlcpy 64 src.status in
    let detail = strlcpy 320 src.detail in
    record {
      entry_id = strlcpy 96 (or_text src.entry_id (provider ++ 58 ∷ kind));
      provider = strlcpy 48 provider;
      kind = strlcpy 48 kind;
      status = status;
      summary = or_text (strlcpy 192 src.summary) (fallback_summary detail status kind);
      detail = detail;
      updated_at_usec = if ltb_ℤ (pos 0) src.updated_at_usec then src.updated_at_usec else now;
      attention = src.attention;
    }

-- A `GHashTable` from texts to entries: each key once, in an order that means nothing.
abbrev pub Table : Type 0
Table = List (Text × StatusEntry)

-- `g_hash_table_lookup`
abbrev pub lookup : Text → Table → Option StatusEntry
lookup key [] = none
lookup key ((k, e) ∷ rest) = if text_eq k key then some e else lookup key rest

-- `g_hash_table_remove`
abbrev pub remove_key : Text → Table → Table
remove_key key [] = []
remove_key key ((k, e) ∷ rest) =
    if text_eq k key then remove_key key rest else (k, e) ∷ remove_key key rest

-- `g_hash_table_replace`
abbrev pub replace : Text → StatusEntry → Table → Table
replace key e table = (key, e) ∷ remove_key key table

-- workspace_set_status_entry; NULL for the table is the table without entries
unfoldable pub set_status_entry : ℤ → StatusEntry → Table → Table
set_status_entry now entry table =
    let normalized = normalize now entry in
    if is_empty normalized.entry_id then table else replace normalized.entry_id normalized table

-- workspace_clear_status_entry; NULL for the id is the empty text
unfoldable pub clear_status_entry : Text → Table → Table
clear_status_entry entry_id table = if is_empty entry_id then [] else remove_key entry_id table

-- `strcmp` of unsigned bytes: below, equal or above
abbrev pub strcmp : Text → Text → ℤ
strcmp [] [] = pos 0
strcmp [] (d ∷ t) = negsuc 0
strcmp (c ∷ s) [] = pos 1
strcmp (c ∷ s) (d ∷ t) = if ltb c d then negsuc 0 else if ltb d c then pos 1 else strcmp s t

-- workspace_status_entry_compare, of entries that are there
unfoldable pub compare_entries : StatusEntry → StatusEntry → ℤ
compare_entries a b =
    if a.attention && not b.attention
    then negsuc 0
    else if not a.attention && b.attention
    then pos 1
    else if not (eqb_ℤ a.updated_at_usec b.updated_at_usec)
    then (if ltb_ℤ b.updated_at_usec a.updated_at_usec then negsuc 0 else pos 1)
    else strcmp a.entry_id b.entry_id

-- workspace_status_entry_is_notification
unfoldable pub is_notification : StatusEntry → Bool
is_notification e =
    text_eq e.kind (codes "notification")
    || not (is_empty e.entry_id) && has_prefix e.entry_id (codes "notification.")

abbrev pub values : Table → List StatusEntry
values [] = []
values ((k, e) ∷ rest) = e ∷ values rest

-- workspace_get_sorted_status_entries; `sort` is `g_ptr_array_sort` with the comparison above
unfoldable pub get_sorted_status_entries :
    (List StatusEntry → List StatusEntry) → Table → List StatusEntry
get_sorted_status_entries sort table =
    let entries = values table in if ltb 1 (length entries) then sort entries else entries

-- `now_usec - entry->updated_at_usec <= max_age_usec`, which is a quarter of an hour
abbrev pub is_recent : ℤ → StatusEntry → Bool
is_recent now e =
    leb_ℤ e.updated_at_usec (pos 0) || leb_ℤ (now -ℤ e.updated_at_usec) (pos 900000000)

-- workspace_status_entry_has_recent_attention
unfoldable pub has_recent_attention : ℤ → Table → Bool
has_recent_attention now [] = false
has_recent_attention now ((k, e) ∷ rest) =
    let later = has_recent_attention now rest in
    if not e.attention && not (is_notification e)
    then later
    else if is_recent now e
    then true
    else later

-- The loop of workspace_pick_notification_preview_entry, with the best entry so far.
unfoldable pub pick_loop : Option StatusEntry → List StatusEntry → Option StatusEntry
pick_loop best [] = best
pick_loop best (e ∷ rest) =
    pick_loop
      (if not (is_notification e) then best else elim best [
        | none ↦ some e
        | some b ↦ if ltb_ℤ b.updated_at_usec e.updated_at_usec then some e else some b
      ])
      rest

-- workspace_pick_notification_preview_entry
unfoldable pub pick_notification_preview : List StatusEntry → Option StatusEntry
pick_notification_preview entries = pick_loop none entries

-- workspace_filter_non_notification_entries
unfoldable pub filter_non_notification : List StatusEntry → List StatusEntry
filter_non_notification [] = []
filter_non_notification (e ∷ rest) =
    let others = filter_non_notification rest in if is_notification e then others else e ∷ others

-- workspace_sidebar_status_entry_limit, with what `strtol` reads of the variable: `none` where it reads
-- no number or leaves a rest, or the variable is not set
unfoldable pub status_entry_limit : Option ℤ → ℤ
status_entry_limit none = pos 2
status_entry_limit (some parsed) =
    if ltb_ℤ parsed (pos 0) then pos 0 else if ltb_ℤ (pos 6) parsed then pos 6 else parsed
