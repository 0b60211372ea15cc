-- ===== src/Session.antt =====
-- gtk/session.c: what the session file keeps of the strip layout, and how it comes back.
pub mod Save
pub mod Lookup
pub mod Build
pub mod Read
pub mod Restore
pub mod Ids
pub mod Saved
pub mod Seen
pub mod Built
pub mod Index
pub mod Reread
pub mod Refocus
pub mod View
pub mod Stages
pub mod RoundTrip
mod Examples
