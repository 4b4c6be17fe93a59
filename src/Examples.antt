-- ===== src/Examples.antt =====
-- The theorems at concrete inputs, and tests of the definitions.
mod Base
mod Relay
mod Client
mod Sockets
mod Control
mod Tunnel
mod Facade
