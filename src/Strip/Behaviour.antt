-- ===== src/Strip/Behaviour.antt =====
-- What the operations of the strip do, in terms of its columns, its focus and its camera.
pub mod Stack
pub mod Camera
pub mod Columns
pub mod Box
