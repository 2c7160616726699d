-- ===== src/RateLimit.antt =====
-- app/core/rate_limit.py: scheduling of marketplace requests. `Rules` builds the limiter keys,
-- `Sqlite` and `Redis` are the two reservation backends, `Controller` is `GlobalRateController`.
-- Times and delays are whole milliseconds, the unit of the Redis scripts.
pub mod Repair
pub mod Rules
pub mod Sqlite
pub mod Redis
pub mod Controller
pub mod Spacing
pub mod Refinement
pub mod Cooldown
