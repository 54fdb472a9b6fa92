-- ===== src/Scaling.antt =====
-- Scaling up: how many nodes a task group needs, and the action of a scaling thread.
pub mod Estimate
pub mod Action
pub mod Threads
