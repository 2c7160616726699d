-- ===== src/Join.antt =====
-- app/core/request_join_controller.py: the fail-closed join of executed source legs.
pub mod Leg
pub mod Control
pub mod Index
pub mod Passes
pub mod Closed
