-- ===== src/Rows.antt =====
-- The rows of the tables that the services read and write, from apps/api/models/agent_control.py
-- and apps/api/models/tables.py. An identifier is a number; a time is a number of microseconds; an
-- amount of money is a number of units of 10^-8, the scale of its column. A text column that the
-- code compares with literals is a data type with a constructor for each literal, and `other` for
-- any other text. Columns that no modelled operation reads or writes are left out.
mod Control
mod Fleet
mod Operations
unfoldable pub use Control.*
unfoldable pub use Fleet.*
unfoldable pub use Operations.*
