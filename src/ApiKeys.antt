-- ===== src/ApiKeys.antt =====
-- API keys and their usage limits: app/modules/api_keys/service.py and repository.py, with the
-- enumerations of app/db/models.py.
pub mod Limits
pub mod Reset
pub mod Repository
pub mod Charges
pub mod Rules
pub mod Store
pub mod Service
mod Tests
