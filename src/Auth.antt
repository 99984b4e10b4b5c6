-- ===== src/Auth.antt =====
-- services/auth_service.py: sign-in by code, by provider and by password, rotation of refresh
-- tokens, sign-out, and the merge of an anonymous actor. One child for each group of methods, and
-- below it the theorems about them.
pub mod Service
pub mod Untouched
pub mod Codes
pub mod Providers
pub mod Console
pub mod Rotation
pub mod SignIns
pub mod History
pub mod Tests
