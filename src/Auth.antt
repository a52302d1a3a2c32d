-- ===== src/Auth.antt =====
-- Authentication: pkg/auth, with the client entries of config/config.go.
pub mod Config
pub mod Permissions
pub mod Registry
pub mod Nonces
pub mod Service
pub mod Signature
