-- ===== src/Finance.antt =====
-- app/core/wb_finance_archive.py: the weekly finance archive. `Csv` has the row and file helpers,
-- `Annual` the merge of the annual file, `Registry` the report registry, `Fragments` the report
-- fragments of a listing.
pub mod Csv
pub mod Lock
pub mod Annual
pub mod Registry
pub mod Fragments
