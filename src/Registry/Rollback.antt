-- ===== src/Registry/Rollback.antt =====
-- What an import leaves of the workspaces of before, whether it fails or not (workspace_import_from_payload).
use prettymux.Prelude.{ℕ, ◌≡◌, Option, none, some, length}
use prettymux.Prelude.Text.{Text}
use prettymux.Json.{Json, object, Members}
use prettymux.Registry.{Registry}
use prettymux.Registry.Import.{ImportResult, imported, failed, Import, payload_serial}
use prettymux.Registry.Same.{Kept, Grown}

-- The workspaces of before are kept, and the current one is the one of before.
abbrev pub Undone : Option ℕ → Registry → Registry → Type 0
Undone payload before after =
    Kept payload before.workspaces after.workspaces
    × (after.current_workspace ≡ before.current_workspace)

-- What an import may leave, with the number that the payload has for the workspace, if it has one. On an error
-- the workspaces of before; else the new workspace behind them, at the index that is returned. The current
-- workspace is always the one from before.
abbrev pub Outcome : Option ℕ → Import → Registry → Registry × ImportResult → Type 0
Outcome payload i before (after, failed e) = Undone payload before after
Outcome payload i before (after, imported index) =
    (index ≡ length before.workspaces)
    × Grown payload i before after
    × (after.current_workspace ≡ before.current_workspace)

-- The number that a payload has for its workspace.
abbrev serial_of : Option Json → Option ℕ
serial_of (some (object o)) = payload_serial o
serial_of _ = none

abbrev pub incoming : Import → Option Text → Option ℕ
incoming i none = none
incoming i (some payload) = serial_of (i.parse payload)
