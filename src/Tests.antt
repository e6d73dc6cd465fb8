-- ===== src/Tests.antt =====
-- Runs of the model on small inputs, and the theorems at concrete inputs.
mod Rules
mod Patterns
mod Conntrack
mod Decision
mod Caches
mod Owners
mod Sockets
mod Relays
mod Handlers
