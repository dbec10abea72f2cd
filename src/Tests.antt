-- ===== src/Tests.antt =====
-- The theorems at concrete inputs, one file for each part of the program.
mod Topo
mod Service
mod Startup
mod Manager
mod Pipeline
mod Domains
mod Deployment
mod Detect
mod Jobs
mod Plugins
mod Bindings
mod Hosts
mod Security
mod Runtimes
mod Ws
