-- ===== src/Tests.antt =====
-- Runs of the model, and the theorems at concrete inputs.
mod Setup
mod Maps
mod Lookups
mod Packets
mod Tracking
mod Bursts
mod Forwarding
mod Sampled
mod Command
mod Cores
mod Requests
mod Generator
mod Rates
mod Interleavings
mod Statistics
