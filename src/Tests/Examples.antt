-- ===== src/Tests/Examples.antt =====
-- The theorems at concrete inputs.
mod Scan
mod Read
mod Write
mod Run
mod Open
mod Tidb
mod Drive
mod Keep
mod Shim
