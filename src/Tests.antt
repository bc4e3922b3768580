-- ===== src/Tests.antt =====
-- Runs of the model at concrete inputs, and the instances of the theorems.
mod Scanning
mod Rendering
mod Parsing
mod Examples
