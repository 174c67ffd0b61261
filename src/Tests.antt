-- ===== src/Tests.antt =====
-- The theorems at concrete inputs.
mod Inputs
mod Lists
mod Fpp
mod Neigh
mod Engine
mod Routes
mod Holding
mod Conntrack
mod Registering
mod Sockets
mod Interfaces
mod Timeouts
