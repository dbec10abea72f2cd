-- ===== src/Security.antt =====
-- internal/security: session tokens and the sandbox of the file manager.
pub mod Sextets
pub mod Base64
pub mod Sessions
pub mod Tokens
pub mod Sandbox
pub mod Containment
