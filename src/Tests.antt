-- ===== src/Tests.antt =====
-- Examples on concrete inputs: the data, and for each theorem with conditions an input that meets
-- them.
mod Data
mod Runs
mod Clocks
mod Sets
mod Collector
mod Messages
mod Engines
mod Objects
mod Texts
mod Storage
mod Discovery
mod Network
mod Clients
