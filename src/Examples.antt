-- ===== src/Examples.antt =====
-- Concrete runs of the theorems.
mod Data
mod Queue
mod Lifecycle
mod Waking
mod Fleet
mod Journey
mod Documents
mod Client
mod Mapping
mod Deliveries
mod Requests
