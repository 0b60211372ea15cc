-- ===== src/Strip.antt =====
-- gtk/workspace_strip.c: the strip layout, a row of columns under a camera, each column a stack of
-- panes. `Model` has the state and what the code takes from the C arithmetic and from GTK; the other
-- children have the operations, and below them their proofs.
pub mod Model
pub mod Column
pub mod Camera
pub mod Focus
pub mod Columns
pub mod Panes
pub mod Tick
pub mod Invariant
pub mod Reach
pub mod Behaviour
pub mod Instances
mod Examples
