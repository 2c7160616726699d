-- ===== src/Tests.antt =====
-- The properties at concrete inputs: in-memory stores, small files, short histories.
mod Data
mod RateLimit
mod Requests
mod Finance
mod Queue
mod Client
mod Upload
mod Join
mod Lock
