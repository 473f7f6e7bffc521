-- ===== src/Automations.antt =====
-- Automations, jobs that run on a schedule: app/modules/automations/service.py.
pub mod Schedule
pub mod Dispatch
pub mod Runs
mod Tests
