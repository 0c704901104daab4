-- ===== src/Catalog.antt =====
-- src/core/catalog-snapshot-store.ts: snapshots of tool catalogs, reserved before they are read,
-- published, and read back as pages.
pub mod Graph
pub mod Store
pub mod Cursors
pub mod Publish
pub mod Pages
pub mod Served
pub mod History
mod Tests
