-- ===== src/Examples.antt =====
-- Runs of the modelled code over small stand-ins for iceoryx2, rosidl and the allocator.
mod Ports
mod Publishing
mod Taking
mod Waiting
mod Heaps
mod Handles
mod LifeCycles
mod Naming
mod Identities
mod Graphs
mod Topics
mod Identifiers
mod Exchanges
mod Ledgers
mod Accesses
mod Signals
