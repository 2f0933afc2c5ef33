-- ===== src/Provider.antt =====
-- runtime/provider_permits.py and runtime/provider_control.py: how many model requests run at a
-- provider at once, and how long a provider is left alone after it refused one.
pub mod Permits
pub mod Cooldown
pub mod Reserved
pub mod Capacity
pub mod Backoff
mod Tests
