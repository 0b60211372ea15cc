-- ===== src/Strip/Invariant.antt =====
-- The invariant of the strip: every column is a stack of panes with a focused one, its root widget is
-- the chain over them, it is not maximized twice over, and one column is focused.
pub mod Kept
pub mod Focus
pub mod Columns
pub mod Panes
