-- ===== src/Store.antt =====
-- The primary's tables (app/migrations), and a session on it: the statements of a transaction run
-- one after another, each may fail, and an exception rolls the transaction back.
mod Tables
mod Transactions
pub mod Ensures
pub use Tables.*
unfoldable pub use Transactions.*
