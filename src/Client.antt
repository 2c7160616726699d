-- ===== src/Client.antt =====
-- app/core/client.py: `ServiceConfig.host_allowed`, `_url`, the delays after a 429, and
-- `MarketplaceClient.request` for the services with static headers (`is_oauth` is false).
pub mod Delay
pub mod Attempt
pub mod Request
pub mod Retries
pub mod Guards
