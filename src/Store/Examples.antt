-- ===== src/Store/Examples.antt =====
-- The store on concrete inputs, over tables in memory.
pub mod Memory
pub mod Joins
pub mod Instance
pub mod Calls
pub mod Logs
