-- ===== src/Plugins.antt =====
-- internal/pluginhost, internal/providers/registry.go and internal/domain/extension: extensions as
-- processes of their own.
pub mod Protocol
pub mod Host
pub mod Registry
pub mod Extensions
pub mod Lockstep
pub mod Loading
pub mod Consent
pub mod Orphans
pub mod Histories
pub mod Entries
pub mod Consented
