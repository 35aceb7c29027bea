-- ===== src/Tests.antt =====
-- The theorems at concrete inputs, one module for each part of the program.
mod Memory
mod Session
mod Bus
mod Channels
mod Storage
mod Routing
mod Cron
mod Cache
mod Retry
mod Tools
mod Helpers
mod Users
mod FileTools
mod Configs
mod Instances
mod Providers
mod Scopes
mod Listeners
