-- ===== src/Cli.antt =====
-- internal/cli: the arguments of `nett scan`.
pub mod ScanArgs
pub mod Persist
pub mod PortScan
pub mod App
pub mod Scan
