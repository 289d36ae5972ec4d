-- ===== src/Examples.antt =====
-- The properties at concrete inputs.
mod Channels
mod Stores
mod Accounts
mod Services
mod Servers
mod Media
