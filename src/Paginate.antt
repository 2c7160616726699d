-- ===== src/Paginate.antt =====
-- app/core/paginate.py: `fetch_all`, the walker over the pages of an endpoint. `Page` reads one
-- response, `Walk` is the loop.
pub mod Page
pub mod Walk
pub mod Bounds
pub mod Offset
