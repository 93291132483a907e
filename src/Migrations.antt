-- ===== src/Migrations.antt =====
-- backend/alembic/versions: what the revisions ask of the database, and where that leads.
pub mod Catalog
pub mod Revisions
pub mod Metadata
pub mod Agreement
pub mod Soundness
pub mod Dropping
pub mod Steps
pub mod Reversal
pub mod Head
