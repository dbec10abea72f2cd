-- ===== src/Hosts.antt =====
-- internal/providers/domainprovider/hosts: the hosts file and the entries of it that Volt owns.
pub mod Text
pub mod Provider
pub mod Words
pub mod Fields
pub mod Data
pub mod Lines
pub mod Reread
pub mod Refinement
pub mod Runs
pub mod Replay
