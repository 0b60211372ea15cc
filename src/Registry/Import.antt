-- ===== src/Registry/Import.antt =====
-- gtk/workspace.c: a workspace that comes from another instance as JSON (workspace_import_from_payload).
use prettymux.Prelude.{
  ℕ, ◌-◌, List, Bool, true, false, not, ◌&&◌, Option, none, some, [], ◌∷◌, ◌==◌, if◌then◌else◌,
  length, get_elem?, set, ltb,
}
use prettymux.Prelude.Int.{ℤ, pos, negsuc, ltb_ℤ, leb_ℤ}
use prettymux.Prelude.Text.{Text, codes, is_empty}
use prettymux.Json.{Json, object, Members, int_member}
use prettymux.Registry.{Registry, Workspace, release}
use prettymux.Registry.Members.{Ui, emit, switch, add, detach, restore_serial}

-- The texts of `error_out`, by what they say.
pub data ImportError : Type 0 where
  missing_payload unavailable invalid_json not_an_object no_destination : ImportError
  layout_failed : ImportError

-- What the function returns: the index of the new workspace, or an error.
pub data ImportResult : Type 0 where
  imported : ℕ → ImportResult
  failed : ImportError → ImportResult

-- What the function takes from elsewhere: `json_parser_load_from_data`, whether the stack, the list box and
-- the terminal library are there, the addresses of the new workspace and its first notebook, and the
-- notebooks and the active one of the new workspace after the layout, the panes and the tabs of the payload
-- were restored: none where the layout cannot be rebuilt. That part of
-- workspace_restore_from_payload_object writes no other field of the record Workspace.
pub record Import : Type 0 where
  pub ui : Ui
  pub parse : Text → Option Json
  pub available : Bool
  pub address : ℕ
  pub notebook : ℕ
  pub restore_panes : Members → Workspace → Option (List ℕ × ℕ)

-- `json_object_get_int_member_with_default(ws_obj, "serial", 0)`, and the number where it is positive
abbrev pub payload_serial : Members → Option ℕ
payload_serial o = elim (int_member o (codes "serial") (pos 0)) [
  | negsuc n ↦ none
  | pos serial ↦ if ltb 0 serial then some serial else none
]

abbrev pub with_payload_serial : Option ℕ → ℕ → ℕ → Registry → Option Registry
with_payload_serial none index own r = some r
with_payload_serial (some serial) index own r = restore_serial index own serial r

abbrev pub with_panes : List ℕ × ℕ → Workspace → Workspace
with_panes panes ws = record ws { pane_notebooks = panes.0; active_pane = panes.1 }

-- The rest of `workspace_restore_from_payload_object`, for the workspace at an index.
abbrev pub restore_at : Import → Members → ℕ → Registry → Registry × Bool
restore_at i o index r = elim (get_elem? r.workspaces index) [
  | none ↦ (r, false)
  | some ws ↦ elim (i.restore_panes o ws) [
    | none ↦ (r, false)
    | some panes ↦ (record r { workspaces = set r.workspaces index (with_panes panes ws) }, true)
  ]
]

-- workspace_restore_from_payload_object; the new workspace's own number is `own`
unfoldable pub restore_object : Import → Members → ℕ → ℕ → Registry → Option (Registry × Bool)
restore_object i o index own r = elim (with_payload_serial (payload_serial o) index own r) [
  | none ↦ none
  | some numbered ↦ some (restore_at i o index numbered)
]

-- `if (previous_workspace >= 0 && previous_workspace < bound) workspace_switch(previous_workspace, ...)`
abbrev pub back_to : Ui → ℤ → ℕ → Registry → Registry
back_to ui previous bound r =
    if leb_ℤ (pos 0) previous && ltb_ℤ previous (pos bound) then switch ui previous r else r

-- The failed workspace leaves the array again and is freed.
unfoldable pub undo : Import → ℤ → ℕ → Registry → Registry
undo i previous index r =
    let left = emit (release i.address ∷ []) (detach i.ui (pos index) r).0 in
    back_to i.ui previous (length left.workspaces) left

unfoldable pub finish : Import → ℤ → ℕ → Registry × Bool → Registry × ImportResult
finish i previous index (r, true) = (back_to i.ui previous index r, imported index)
finish i previous index (r, false) = (undo i previous index r, failed layout_failed)

abbrev pub own_serial : ℕ → Registry → ℕ
own_serial index r = elim (get_elem? r.workspaces index) [ none ↦ 0 | some ws ↦ ws.serial ]

-- From the adding of the workspace on.
unfoldable pub import_object : Import → Members → Registry → Option (Registry × ImportResult)
import_object i o r = elim (add i.ui i.address i.notebook r) [
  | none ↦ none
  | some added ↦
      let index = length added.workspaces - 1 in
      if length added.workspaces == 0
      then some (added, failed no_destination)
      else elim (restore_object i o index (own_serial index added) added) [
        | none ↦ none
        | some restored ↦ some (finish i r.current_workspace index restored)
      ]
]

-- workspace_import_from_payload; `none` means that no serial number was found
unfoldable pub import_from_payload :
    Import → Option Text → Registry → Option (Registry × ImportResult)
import_from_payload i none r = some (r, failed missing_payload)
import_from_payload i (some payload) r =
    if is_empty payload
    then some (r, failed missing_payload)
    else if not i.available
    then some (r, failed unavailable)
    else elim (i.parse payload) [
      | none ↦ some (r, failed invalid_json)
      | some (object o) ↦ import_object i o r
      | some _ ↦ some (r, failed not_an_object)
    ]
