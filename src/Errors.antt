-- ===== src/Errors.antt =====
-- Errors: the categories of contracts/common.py, the catalogue of core/errors.py, the statuses of
-- api/envelope.py, and what a Python call of this program raises: a `BlogPlatformError` of some
-- category, an integrity error of PostgreSQL that no adapter translated, or a failed assertion.
pub mod Category
pub mod Catalog
pub mod Status
pub mod Constraint
pub mod Envelope
pub mod Laws
mod Tests
