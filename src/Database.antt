-- ===== src/Database.antt =====
-- The PostgreSQL tables that the modelled repositories read and write, as one value, and the
-- effects of the program's methods on it.
pub mod Identity
pub mod Events
pub mod Content
pub mod Interaction
pub mod Readers
pub mod Tables
pub mod Exec
