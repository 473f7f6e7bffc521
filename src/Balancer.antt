-- ===== src/Balancer.antt =====
-- Account selection: app/core/balancer/logic.py and app/core/usage/quota.py.
pub mod State
pub mod Capacity
pub mod Examine
pub mod Select
pub mod RetryAfter
pub mod Events
pub mod Health
pub mod Quota
pub mod Sticky
pub mod Runtime
pub mod QuotaKeys
pub mod Additional
pub mod Inputs
mod Tests
