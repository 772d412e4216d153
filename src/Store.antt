-- ===== src/Store.antt =====
-- internal/store: the SQLite-backed asset graph. The tables, the texts of times and the JSON codec are
-- parameters, the record `Database`; a state holds the content of each table, and a method gives the
-- new state or an error.
pub mod Merge
pub mod Joined
pub mod Additive
pub mod Tables
pub mod Rows
pub mod Projects
pub mod Assets
pub mod Edges
pub mod Events
pub mod Runs
pub mod Trail
pub mod Examples
