-- ===== src/Store.antt =====
-- The tables that the control plane keeps (the metadata database of apps/api), the outside that a
-- handler depends on, and the actions that handlers are built of.
pub mod Status
pub mod Catalogue
pub mod Scheduling
pub mod Users
pub mod Rows
pub mod Action
pub mod Keeps
pub mod Ends
pub mod Fails
pub mod Paths
