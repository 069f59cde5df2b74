-- ===== src/Rota.antt =====
-- internal/rota: the scheduler.
pub mod Rotation
pub mod Cover
pub mod Engine
pub mod Schedule
pub mod LeaveCovers
pub mod Maintenance
pub mod Reassign
