-- ===== src/Http.antt =====
-- The HTTP side: response codes and the authentication middlewares.
pub mod Codes
pub mod Middleware
