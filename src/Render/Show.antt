-- ===== src/Render/Show.antt =====
-- The SHOW statements of internal/render/render.go: for PostgreSQL a query of its catalogs.
pub mod Clauses
pub mod Index
pub mod TableStatus
pub mod Columns
pub mod Tables
pub mod Create
pub mod Server
