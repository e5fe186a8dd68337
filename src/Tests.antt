-- ===== src/Tests.antt =====
-- Runs of the model on concrete inputs, and an instance of each property that has hypotheses.
pub mod Fixtures
pub mod Traffic
pub mod Routing
pub mod Cache
pub mod Filters
pub mod Bytes
pub mod Plugins
pub mod Config
pub mod Loading
pub mod Certificate
pub mod Logger
pub mod Auth
pub mod Access
pub mod Limit
pub mod Responses
