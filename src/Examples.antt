-- ===== src/Examples.antt =====
-- Runs at concrete inputs, and the theorems of the other modules at such inputs.
mod States
mod Peer
mod Rounds
mod Store
mod Controller
mod Groups
mod Balancing
mod Waiting
mod Clerks
mod Together
mod Succession
