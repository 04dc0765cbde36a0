-- ===== src/Surface.antt =====
-- providers/efi/adapter/surface_query.go: the read-only projections for the operator surface.
pub mod Project
pub mod Queries
