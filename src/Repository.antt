-- ===== src/Repository.antt =====
-- The SQL adapters of repository/, one module for each class, statement by statement. A lookup
-- key goes through `lower_btrim`, PostgreSQL lower(btrim(...)), which is a parameter.
pub mod Users
pub mod Otp
pub mod RefreshTokens
pub mod Actors
pub mod AdminLogins
pub mod OAuth
pub mod Outbox
pub mod Text
pub mod Keyset
pub mod Comments
pub mod Markers
pub mod Catalogs
pub mod Views
pub mod Blogs
pub mod Sections
pub mod Taxonomy
pub mod Pins
pub mod Engagement
