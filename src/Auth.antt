-- ===== src/Auth.antt =====
-- crates/ferriskv-auth: permissions, API keys and tokens. `AuthError` has the text of a token error
-- where the code keeps the library's error or its text.
pub mod Rbac
pub mod Error
pub mod ApiKey
pub mod Jwt
